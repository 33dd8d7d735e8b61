-- ===== src/Mqtt/Arrival.antt =====
-- A telemetry topic with the serial put in: which topic it is, and that the dispatcher hands its
-- messages to the ingestion.
use Prim.Native.Char.{code}
use Prim.Native.String.{◌++◌ as ◌<>◌}
use Prim.Native.String.append
use text.Mathlib.TextLemmas.{append_assoc as string_assoc, append-nil as string_nil}
use robotics_io_t_smart_auto.Base.{
  String, ◌≡◌, refl, sym, ap, ◌∙◌, inl, inr, true, false, Option, some, str_eq, ◌==◌, Bool-cases,
  All,
}
use robotics_io_t_smart_auto.Core.Codec.{Codec}
use robotics_io_t_smart_auto.Core.Json.{Json, Fields, get}
use robotics_io_t_smart_auto.Mqtt.Handlers.{handle_telemetry, dispatch, on_message}
use robotics_io_t_smart_auto.Mqtt.Leaves.{ends_with-leaf, topic_leaf}
use robotics_io_t_smart_auto.Mqtt.RoundTrip.{NoSlash, serial_from_topic-device_topic}
use robotics_io_t_smart_auto.Mqtt.Topics.{
  device_topic, telemetry_sub, split, ends_with, replace_plus,
}
use robotics_io_t_smart_auto.Mqtt.Transports.{with_serial-given, handle_telemetry-run}
use robotics_io_t_smart_auto.Telemetry.Services.Ingest.{ingest_payload}
use robotics_io_t_smart_auto.World.{World}

-- no character of the text is a plus sign
abbrev pub NoPlus : String → Type 0
NoPlus String.[] = Unit
NoPlus (String.◌∷◌ c s) = ((code c == b'+') ≡ false) × NoPlus s

replace-NoPlus : (serial s : String) → NoPlus s → replace_plus serial s ≡ s
unfolding replace_plus
replace-NoPlus serial String.[] h = refl
replace-NoPlus serial (String.◌∷◌ c s) h =
    rw (h.0) (ap (String.◌∷◌ c) (replace-NoPlus serial s h.1))

replace-append :
    (serial a b : String)
    → replace_plus serial (a <> b) ≡ replace_plus serial a <> replace_plus serial b
unfolding replace_plus
replace-append serial String.[] b =
    ap (replace_plus serial) (append.nil b) ∙ sym (append.nil (replace_plus serial b))
replace-append serial (String.◌∷◌ c s) b =
    let rest = replace_plus serial s in
    let step = replace-append serial s b in
    ap (replace_plus serial) (append.cons c s b) ∙ (elim (Bool-cases (code c == b'+')) [
      | inl plus ↦
          rw plus
            (ap (λ u. serial <> u) step ∙ sym (string_assoc serial rest (replace_plus serial b)))
      | inr other ↦
          rw other (ap (String.◌∷◌ c) step ∙ sym (append.cons c rest (replace_plus serial b)))
    ])

-- the topic that the simulated device publishes to is that of its serial
pub replace_plus-telemetry_sub :
    (base serial : String)
    → NoPlus base
    → replace_plus serial (telemetry_sub base) ≡ device_topic base serial "telemetry"
unfolding replace_plus
replace_plus-telemetry_sub base serial h =
    replace-append serial base "/devices/+/telemetry"
    ∙ ap (λ u. u <> replace_plus serial "/devices/+/telemetry") (replace-NoPlus serial base h)
    ∙ ap (λ u. base <> u)
        (replace-append serial "/devices/" "+/telemetry"
          ∙ ap (λ u. "/devices/" <> u)
              (replace-append serial "+" "/telemetry"
                ∙ ap (λ u. u <> "/telemetry") (string_nil serial)))

dispatch-telemetry :
    (codec : Codec) (base serial : String) (message : Option Json) (w : World)
    → dispatch codec (device_topic base serial "telemetry") message w
      ≡ handle_telemetry codec (device_topic base serial "telemetry") message w
unfolding dispatch ends_with
dispatch-telemetry codec base serial message w =
    let topic = topic_leaf base serial "telemetry" in
    let telemetry : ends_with "/telemetry" (device_topic base serial "telemetry") ≡ true =
      ap (ends_with "/telemetry") topic
      ∙ ends_with-leaf "/telemetry" (base <> ("/devices/" <> serial)) refl in
    rw telemetry refl

-- A dictionary with a serial that arrives on the telemetry topic of a device is ingested as it is.
pub on_message-ingested :
    (codec : Codec) (base serial : String) (fs : Fields) (j : Json) (w : World)
    → NoSlash serial
    → str_eq serial "" ≡ false
    → All (λ p. str_eq p "devices" ≡ false) (split base)
    → get "serial" fs ≡ some j
    → on_message codec (device_topic base serial "telemetry") (some (Json.obj fs)) w
      ≡ (ingest_payload codec fs w).1
unfolding on_message
on_message-ingested codec base serial fs j w plain full levels given =
    ap (λ r. r.1) (dispatch-telemetry codec base serial (some (Json.obj fs)) w)
    ∙ handle_telemetry-run codec (device_topic base serial "telemetry") serial fs w
        (serial_from_topic-device_topic base serial "telemetry" plain levels) full
    ∙ ap (λ x. (ingest_payload codec x w).1) (with_serial-given serial fs j given)
