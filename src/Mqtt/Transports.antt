-- ===== src/Mqtt/Transports.antt =====
-- What handle_telemetry of apps/mqtt/handlers.py hands to the ingestion.
use robotics_io_t_smart_auto.Base.{
  String, ◌≡◌, refl, ap, ◌∙◌, false, some, arith, str_eq, Outcome, ok, fail,
}
use robotics_io_t_smart_auto.Core.Codec.{Codec}
use robotics_io_t_smart_auto.Core.Json.{Json, Fields, get}
use robotics_io_t_smart_auto.Mqtt.Handlers.{
  with_serial, drop_unknown, with_topic_serial, handle_telemetry,
}
use robotics_io_t_smart_auto.Mqtt.Topics.{serial_from_topic}
use robotics_io_t_smart_auto.Telemetry.Services.Ingest.{Summary, ingest_payload}
use robotics_io_t_smart_auto.World.{World}

state-drop_unknown : (r : Outcome Summary × World) → (drop_unknown r).1 ≡ r.1
state-drop_unknown (ok s, w) = refl
state-drop_unknown (fail e, w) = ground arith

pub with_serial-given :
    (serial : String) (fs : Fields) (j : Json)
    → get "serial" fs ≡ some j
    → with_serial serial fs ≡ fs
with_serial-given serial fs j e = rw (e, with_serial) refl

-- what the handler does on a topic that names a device
pub handle_telemetry-run :
    (codec : Codec) (topic serial : String) (fs : Fields) (w : World)
    → serial_from_topic topic ≡ some serial
    → str_eq serial "" ≡ false
    → (handle_telemetry codec topic (some (Json.obj fs)) w).1
      ≡ (ingest_payload codec (with_serial serial fs) w).1
unfolding handle_telemetry
handle_telemetry-run codec topic serial fs w named full =
    let run : handle_telemetry codec topic (some (Json.obj fs)) w
        ≡ drop_unknown (ingest_payload codec (with_serial serial fs) w) =
      rw (named, with_topic_serial) (rw full refl) in
    ap (λ r. r.1) run ∙ state-drop_unknown (ingest_payload codec (with_serial serial fs) w)
