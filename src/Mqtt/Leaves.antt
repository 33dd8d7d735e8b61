-- ===== src/Mqtt/Leaves.antt =====
-- The last level of a topic, which the dispatcher asks for.
use Prim.Native.String.{◌++◌ as ◌<>◌}
use Prim.Native.String.append
use text.Mathlib.TextLemmas.{append_assoc as string_assoc}
use robotics_io_t_smart_auto.Base.{
  String, ◌≡◌, sym, ap, ◌∙◌, inl, inr, true, false, arith, str_eq, eq_iff, Bool-cases,
}
use robotics_io_t_smart_auto.Mqtt.Topics.{device_topic, ends_with}

-- a text with a leaf at its end ends in that leaf
pub ends_with-leaf :
    (leaf x : String) → ends_with leaf leaf ≡ true → ends_with leaf (x <> leaf) ≡ true
unfolding ends_with
ends_with-leaf leaf String.[] h = ap (ends_with leaf) (append.nil leaf) ∙ h
ends_with-leaf leaf (String.◌∷◌ c s) h =
    ap (ends_with leaf) (append.cons c s leaf) ∙ ground (arith, ends_with-leaf leaf s h)

-- and in no other leaf that does not end in it
pub ends_with-other :
    (leaf other x : String)
    → ends_with leaf leaf ≡ true
    → ends_with leaf other ≡ false
    → ends_with other leaf ≡ false
    → ends_with other (x <> leaf) ≡ false
unfolding ends_with
ends_with-other leaf other String.[] g h k = ap (ends_with other) (append.nil leaf) ∙ k
ends_with-other leaf other (String.◌∷◌ c s) g h k =
    let topic = String.◌∷◌ c (s <> leaf) in
    let e : String.◌∷◌ c s <> leaf ≡ topic = append.cons c s leaf in
    ap (ends_with other) e ∙ (elim (Bool-cases (str_eq topic other)) [
      | inl same ↦
          let whole' : ends_with leaf topic ≡ true =
            ap (ends_with leaf) (sym e) ∙ ends_with-leaf leaf (String.◌∷◌ c s) g in
          absurd (cc (whole', ap (ends_with leaf) ((eq_iff topic other).0 same), h))
      | inr differs ↦ rw differs (ends_with-other leaf other s g h k)
    ])

-- a topic of a device, split before its leaf
pub topic_leaf :
    (base serial leaf : String)
    → device_topic base serial leaf ≡ (base <> ("/devices/" <> serial)) <> ("/" <> (leaf <> ""))
topic_leaf base serial leaf =
    ap (λ u. base <> u) (sym (string_assoc "/devices/" serial ("/" <> (leaf <> ""))))
    ∙ sym (string_assoc base ("/devices/" <> serial) ("/" <> (leaf <> "")))
