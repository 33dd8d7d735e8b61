-- ===== src/Mqtt/RoundTrip.antt =====
-- Topics: building one with a serial, and reading the serial back.
use Prim.Native.Char.{Char, code}
use Prim.Native.String.{◌++◌ as ◌<>◌}
use Prim.Native.String.append
use text.Mathlib.TextLemmas.{append_assoc as string_assoc}
use mathlib.Core.List.{◌++◌}
use robotics_io_t_smart_auto.Base.{
  String, ◌≡◌, refl, ap, ◌∙◌, inl, inr, false, some, List, [], ◌∷◌, str_eq, ◌==◌, Bool-cases, All,
}
use robotics_io_t_smart_auto.Mqtt.Topics.{
  device_topic, onto_first, split, after_devices, serial_from_topic,
}

-- no character of the text is a slash
abbrev pub NoSlash : String → Type 0
NoSlash String.[] = Unit
NoSlash (String.◌∷◌ c s) = ((code c == b'/') ≡ false) × NoSlash s

split-cons : (s : String) → (p : String) × (ps : List String) × (split s ≡ p ∷ ps)
unfolding split
split-cons String.[] = ("", [], refl)
split-cons (String.◌∷◌ c s) = elim (Bool-cases (code c == b'/')) [
  | inl slash ↦ ("", split s, rw slash refl)
  | inr other ↦ let (p, ps, e) = split-cons s in (String.◌∷◌ c p, ps, rw other (rw e refl))
]

onto_first-append :
    (c : Char) (s : String) (rest : List String)
    → onto_first c (split s ++ rest) ≡ onto_first c (split s) ++ rest
onto_first-append c s rest = let (p, ps, e) = split-cons s in rw e refl

-- a character before a text that splits in two
split-step :
    (c : Char) (u v : String) (rest : List String)
    → split u ≡ split v ++ rest
    → split (String.◌∷◌ c u) ≡ split (String.◌∷◌ c v) ++ rest
unfolding split
split-step c u v rest e = elim (Bool-cases (code c == b'/')) [
  | inl slash ↦ rw slash (ap (λ l. "" ∷ l) e)
  | inr other ↦ rw other (ap (onto_first c) e ∙ onto_first-append c v rest)
]

split-append : (s t : String) → split (s <> ("/" <> t)) ≡ split s ++ split t
unfolding split
split-append String.[] t =
    ap split (append.nil ("/" <> t) ∙ append.cons "/" "" t) ∙ ap (λ u. "" ∷ split u) (append.nil t)
split-append (String.◌∷◌ c s) t =
    ap split (append.cons c s ("/" <> t))
    ∙ split-step c (s <> ("/" <> t)) s (split t) (split-append s t)

split-NoSlash : (s : String) → NoSlash s → split s ≡ s ∷ []
unfolding split
split-NoSlash String.[] h = refl
split-NoSlash (String.◌∷◌ c s) h = rw (h.0) (ap (onto_first c) (split-NoSlash s h.1))

after-base :
    (parts rest : List String)
    → All (λ p. str_eq p "devices" ≡ false) parts
    → after_devices (parts ++ rest) ≡ after_devices rest
unfolding after_devices
after-base [] rest h = refl
after-base (p ∷ ps) rest h = rw (h.0) (after-base ps rest h.1)

-- For a serial without a slash, and a base topic none of whose levels is "devices", the serial
-- read from a topic of the device is the serial that the topic was built for, whatever the leaf.
pub serial_from_topic-device_topic :
    (base serial leaf : String)
    → NoSlash serial
    → All (λ p. str_eq p "devices" ≡ false) (split base)
    → serial_from_topic (device_topic base serial leaf) ≡ some serial
unfolding serial_from_topic
serial_from_topic-device_topic base serial leaf h k =
    let tail = split (leaf <> "") in
    let topic : device_topic base serial leaf
        ≡ base <> ("/" <> ("devices" <> ("/" <> (serial <> ("/" <> (leaf <> "")))))) =
      ap (λ u. base <> u)
        (string_assoc "/" "devices/" (serial <> ("/" <> (leaf <> "")))
          ∙ ap (λ u. "/" <> u) (string_assoc "devices" "/" (serial <> ("/" <> (leaf <> ""))))) in
    let e : split (device_topic base serial leaf) ≡ split base ++ ("devices" ∷ serial ∷ tail) =
      ap split topic
      ∙ split-append base ("devices" <> ("/" <> (serial <> ("/" <> (leaf <> "")))))
      ∙ ap (λ l. split base ++ l)
          (split-append "devices" (serial <> ("/" <> (leaf <> "")))
            ∙ ap (λ l. "devices" ∷ l)
                (split-append serial (leaf <> "")
                  ∙ ap (λ l. l ++ tail) (split-NoSlash serial h))) in
    ap after_devices e ∙ after-base (split base) ("devices" ∷ serial ∷ tail) k
