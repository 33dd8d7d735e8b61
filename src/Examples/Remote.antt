-- ===== src/Examples/Remote.antt =====
-- Remote control at the small plant, with keys that are written as a row of strokes, and the
-- telemetry of its simulated press.
use robotics_io_t_smart_auto.Base.{
  ℕ, zero, suc, ◌-◌, String, ◌≡◌, refl, ap, ◌∙◌, inl, inr, false, none, some, [], ◌∷◌, ◌++◌, arith,
  str_eq, eq_iff, ◌==◌, Bool-cases, negsuc, first?, All, Float, whole,
}
use robotics_io_t_smart_auto.Core.Codec.{Codec}
use robotics_io_t_smart_auto.Core.Json.{Json}
use robotics_io_t_smart_auto.Devices.Models.{DeviceCommand}
use robotics_io_t_smart_auto.Examples.Plant.{plain_codec, press, plant}
use robotics_io_t_smart_auto.Mqtt.Control.{
  Completed, ReadsKeys, order_message, ordered, answered_at, control-Completed,
}
use robotics_io_t_smart_auto.Mqtt.Handlers.{on_message}
use robotics_io_t_smart_auto.Mqtt.Simulated.{measurements, Arrived, publish_telemetry-Arrived}
use robotics_io_t_smart_auto.Mqtt.Simulator.{Draws, publish_telemetry}
use robotics_io_t_smart_auto.Mqtt.Topics.{split}
use robotics_io_t_smart_auto.Telemetry.Services.Coerce.{float_limit, is_huge}

abbrev strokes : ℕ → String
strokes zero = "|"
strokes (suc n) = String.◌∷◌ "|" (strokes n)

abbrev count_strokes : String → ℕ
count_strokes String.[] = 0
count_strokes (String.◌∷◌ c s) = suc (count_strokes s)

count-strokes : (n : ℕ) → count_strokes (strokes n) ≡ suc n
count-strokes zero = refl
count-strokes (suc n) = ap suc (count-strokes n)

abbrev stroke_codec : Codec
stroke_codec = record plain_codec {
  uuid_column = λ j. elim j [ Json.str s ↦ some (count_strokes s - 1) | _ ↦ none ];
}

strokes_written : (n : ℕ) → str_eq (strokes n) "" ≡ false
strokes_written zero = refl
strokes_written (suc n) = elim (Bool-cases (str_eq (strokes (suc n)) "")) [
  | inl empty ↦
      let e = ap count_strokes ((eq_iff (strokes (suc n)) "").0 empty) in absurd (omega (arith, e))
  | inr some' ↦ some'
]

stroke_codec-ReadsKeys : ReadsKeys stroke_codec strokes
stroke_codec-ReadsKeys = record {
  read_back = λ n. ap (λ k. some (k - 1)) (count-strokes n) ∙ ap some (omega arith);
  written = strokes_written;
}

control-Completed_example :
    ((ordered stroke_codec strokes press "stop" Json.null (some 2) 120 plant).1.published
      ≡ plant.published
        ++ order_message stroke_codec strokes press "stop" Json.null (some 2) 120 plant ∷ [])
    × (c : DeviceCommand) × (first?
          (λ c. c.id == plant.next_id)
          (answered_at stroke_codec strokes press "stop" Json.null (some 2) 120 plant 9).commands
        ≡ some c)
    × Completed 9 (ordered stroke_codec strokes press "stop" Json.null (some 2) 120 plant).0 c
control-Completed_example =
    control-Completed stroke_codec strokes press "stop" Json.null (some 2) 120 plant 9
      stroke_codec-ReadsKeys (omega arith, tt) refl

abbrev drawn : Draws
drawn = record {
  battery = whole 87;
  signal = Float.finite (negsuc 94999);
  lat = whole 37;
  lon = whole 122;
  temp_c = whole 21;
  humidity = whole 40;
  motion = whole 0;
  vibration = whole 3;
}

levels : All (λ p. str_eq p "devices" ≡ false) (split "robogrid")
unfolding split
levels = (refl, tt)

small : All (λ m. is_huge m.1 ≡ false) (measurements drawn)
unfolding is_huge float_limit
small = (refl, (refl, (refl, (refl, tt))))

publish_telemetry-Arrived_example : Arrived drawn (some (negsuc 94)) press plant (
    on_message plain_codec
      (publish_telemetry "robogrid" "PRS-1" drawn).0
      (some (publish_telemetry "robogrid" "PRS-1" drawn).1)
      plant)
publish_telemetry-Arrived_example =
    publish_telemetry-Arrived plain_codec "robogrid" "PRS-1" drawn (some (negsuc 94)) plant press
      (refl, (refl, (refl, (refl, (refl, (refl, (refl, (refl, tt))))))))
      (refl, (refl, (refl, (refl, (refl, tt))))) refl levels
      (record { numbers = λ y. refl; signal = refl }) small refl refl
