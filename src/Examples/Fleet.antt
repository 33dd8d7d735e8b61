-- ===== src/Examples/Fleet.antt =====
-- Applications of the theorems on commands, telemetry and topics.
use robotics_io_t_smart_auto.Base.{
  ℕ, ◌+◌, ◌≡◌, refl, inl, true, false, not, none, some, [], ◌∷◌, arith, ◌==◌, concat, length,
  select, first?, count_where, whole, flt_lt, flt_eq, ok,
}
use robotics_io_t_smart_auto.Core.Json.{Json}
use robotics_io_t_smart_auto.Core.Models.{Action, AuditLog}
use robotics_io_t_smart_auto.Core.Realtime.{broadcast}
use robotics_io_t_smart_auto.Devices.Health.{
  compute_health_score_within, is_expired_status, expire_stale_commands_lem,
}
use robotics_io_t_smart_auto.Devices.Issue.{
  FreshCommands, dispatch_command-sent, dispatch_command-degraded, dispatch_command_audited,
}
use robotics_io_t_smart_auto.Devices.Models.{CommandStatus, DeviceCommand}
use robotics_io_t_smart_auto.Devices.Services.{new_command, publication, dispatch_command}
use robotics_io_t_smart_auto.Devices.Signals.{save_device}
use robotics_io_t_smart_auto.Devices.Tasks.{
  compute_health_score, is_stale_command, expire_stale_commands,
}
use robotics_io_t_smart_auto.Examples.Plant.{
  plain_codec, press, plant, offline_plant, batch, ack_message,
}
use robotics_io_t_smart_auto.Mqtt.Handlers.{handle_result}
use robotics_io_t_smart_auto.Mqtt.RoundTrip.{serial_from_topic-device_topic}
use robotics_io_t_smart_auto.Mqtt.Topics.{device_topic, split, serial_from_topic}
use robotics_io_t_smart_auto.Telemetry.Buckets.{AllOneBucket, ingest_payload-AllOneBucket}
use robotics_io_t_smart_auto.Telemetry.Purge.{purge_old_telemetry_lem}
use robotics_io_t_smart_auto.Telemetry.Services.Ingest.{
  resolve_sensor, store_sample, ingest_payload,
}
use robotics_io_t_smart_auto.Telemetry.Stored.{Ingested, ingest_payload-stored}
use robotics_io_t_smart_auto.Telemetry.Tasks.{is_old, purge_old_telemetry}
use robotics_io_t_smart_auto.World.{World}

abbrev stop : DeviceCommand × World
stop = dispatch_command press "stop" Json.null (some 2) 120 plant

plant-FreshCommands : FreshCommands plant
plant-FreshCommands = (omega arith, tt)

dispatch_command-sent_example :
    (stop.0.status ≡ CommandStatus.sent)
    × (stop.0.sent_at ≡ some plant.now)
    × (first? (λ c. c.id == 100) stop.1.commands ≡ some stop.0)
    × (stop.1.published
        ≡ publication press (new_command press "stop" Json.null (some 2) 120 plant) plant ∷ [])
dispatch_command-sent_example =
    dispatch_command-sent press "stop" Json.null (some 2) 120 plant plant-FreshCommands refl

abbrev kept : DeviceCommand × World
kept = dispatch_command press "stop" Json.null (some 2) 120 offline_plant

dispatch_command-degraded_example :
    (kept.0.status ≡ CommandStatus.queued)
    × (kept.0.sent_at ≡ none)
    × (kept.0.error ≡ concat ("publish failed: " ∷ "no route" ∷ []))
    × (first? (λ c. c.id == 100) kept.1.commands ≡ some kept.0)
    × (kept.1.published ≡ [])
dispatch_command-degraded_example =
    dispatch_command-degraded press "stop" Json.null (some 2) 120 offline_plant "no route"
      plant-FreshCommands refl

dispatch_command_audited_example :
    (row : AuditLog) × (kept.1.audit_logs ≡ row ∷ [])
    × (row.action ≡ Action.command)
    × (row.target_id ≡ some 10)
    × (row.actor ≡ some 2)
dispatch_command_audited_example =
    dispatch_command_audited press "stop" Json.null (some 2) 120 offline_plant

compute_health_score_within_example :
    (flt_lt (compute_health_score press) (whole 0) ≡ false)
    × (flt_lt (whole 100) (compute_health_score press) ≡ false)
    × (flt_eq (compute_health_score press) (compute_health_score press) ≡ true)
compute_health_score_within_example = compute_health_score_within press

expire_stale_commands_lem_example :
    (count_where (is_stale_command plant.now) (expire_stale_commands plant).1.commands ≡ 0)
    × (count_where (λ c. is_expired_status c.status) (expire_stale_commands plant).1.commands
        ≡ 0 + (expire_stale_commands plant).0)
    × (length (expire_stale_commands plant).1.commands ≡ 1)
    × ((expire_stale_commands (expire_stale_commands plant).1).0 ≡ 0)
expire_stale_commands_lem_example = expire_stale_commands_lem plant

-- the device answers, and the expiry job runs
abbrev answered_plant : World
answered_plant =
    (handle_result plain_codec "robogrid/devices/PRS-1/results" (some ack_message) plant).1

ingested : (ingest_payload plain_codec batch plant).0 ≡ ok (record { device = "PRS-1"; stored = 2 })
unfolding ingest_payload resolve_sensor save_device broadcast store_sample
ingested = refl

ingest_payload-stored_example :
    Ingested plain_codec batch plant
      (ingest_payload plain_codec batch plant).1
      (record { device = "PRS-1"; stored = 2 })
ingest_payload-stored_example =
    ingest_payload-stored plain_codec batch plant (record { device = "PRS-1"; stored = 2 }) ingested

purge_old_telemetry_lem_example :
    (deleted : ℕ) × (purge_old_telemetry 3 plant
      ≡ some (
        deleted,
        record plant { readings = select (λ r. not (is_old plant.now r)) plant.readings },
      ))
    × (deleted + length (select (λ r. not (is_old plant.now r)) plant.readings) ≡ 2)
purge_old_telemetry_lem_example = purge_old_telemetry_lem 3 plant (refl, (refl, tt)) (omega arith)

serial_from_topic-device_topic_example :
    serial_from_topic (device_topic "a" "PRS-1" "telemetry") ≡ some "PRS-1"
unfolding split
serial_from_topic-device_topic_example =
    serial_from_topic-device_topic "a" "PRS-1" "telemetry"
      (refl, (refl, (refl, (refl, (refl, tt))))) (refl, tt)

ingest_payload-AllOneBucket_example : AllOneBucket (ingest_payload plain_codec batch plant).1
ingest_payload-AllOneBucket_example =
    ingest_payload-AllOneBucket plain_codec batch plant
      (inl ((_, refl), refl, refl), (inl ((_, refl), refl, refl), tt))
