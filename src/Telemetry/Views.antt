-- ===== src/Telemetry/Views.antt =====
-- apps/telemetry/views.py: the ingestion endpoint and the recent readings of a sensor. The
-- fields of the serializer are checked by the framework, an argument of the endpoint.
use robotics_io_t_smart_auto.Base.{
  ℕ, Bool, true, ◌&&◌, Option, none, some, List, ltb, leb, ◌==◌, if◌then◌else◌, ℤ, pos, negsuc,
  take, select, first?, sort_by, does_not_exist, validation_error, value_error, not_found, Outcome,
  ok, fail,
}
use robotics_io_t_smart_auto.Accounts.Models.{User}
use robotics_io_t_smart_auto.Alerts.Services.Notify.{is_alive}
use robotics_io_t_smart_auto.Core.Codec.{Codec}
use robotics_io_t_smart_auto.Core.Json.{Fields}
use robotics_io_t_smart_auto.Core.Scope.{scope}
use robotics_io_t_smart_auto.Telemetry.Models.{Sensor, Reading, CameraFeed}
use robotics_io_t_smart_auto.Telemetry.Services.Ingest.{Summary, ingest_payload}
use robotics_io_t_smart_auto.World.{World}

-- except Device.DoesNotExist: raise ValidationError
abbrev pub unknown_serial : Outcome Summary → Outcome Summary
unknown_serial (ok s) = ok s
unknown_serial (fail does_not_exist) = fail validation_error
unknown_serial (fail e) = fail e

-- TelemetryIngestView.post: `is_valid` is what the framework makes of the request's data by the fields
-- of IngestReadingSerializer, the validated dictionary, or nothing where it is refused
unfoldable pub ingest_view :
    Codec → (Fields → Option Fields) → Fields → World → Outcome Summary × World
ingest_view codec is_valid given w = elim (is_valid given) [
  | none ↦ (fail validation_error, w)
  | some validated ↦ let (r, w') = ingest_payload codec validated w in (unknown_serial r, w')
]

-- the organization of the device of a row, the column that `org_field` names
abbrev pub org_of_device : ℕ → World → Option ℕ
org_of_device device_id w = elim (first? (λ d. d.id == device_id) w.devices) [
  | none ↦ none
  | some d ↦ some d.organization_id
]

-- SensorViewSet.get_queryset
unfoldable pub visible_sensors : Option User → World → List Sensor
visible_sensors user w =
    scope (λ s. org_of_device s.device_id w) user (select (λ s. is_alive s.base) w.sensors)

-- ReadingViewSet.get_queryset
unfoldable pub visible_readings : Option User → World → List Reading
visible_readings user w = scope (λ r. org_of_device r.device_id w) user w.readings

-- CameraFeedViewSet.get_queryset; no other code reads the table of feeds, which is an argument
unfoldable pub visible_cameras : List CameraFeed → Option User → World → List CameraFeed
visible_cameras cameras user w =
    scope (λ c. org_of_device c.device_id w) user (select (λ c. is_alive c.base) cameras)

-- the query parameter `since`, if it is given
abbrev pub is_since : Option ℕ → Reading → Bool
is_since none r = true
is_since (some t) r = leb t r.time

-- min(limit, 5000), where 500 is the default; a negative limit is refused by the slice
abbrev pub page_limit : Option ℤ → Outcome ℕ
page_limit none = ok 500
page_limit (some (pos n)) = ok (if ltb n 5000 then n else 5000)
page_limit (some (negsuc n)) = fail value_error

abbrev pub page : Sensor → Option ℕ → World → Outcome ℕ → Outcome (List Reading)
page s since w (fail e) = fail e
page s since w (ok limit) = ok (
    take limit (
      sort_by (λ r t. ltb t.time r.time)
        (select (λ r. r.sensor_id == s.id && is_since since r) w.readings)))

-- SensorViewSet.readings, the newest first
unfoldable pub recent_readings :
    Option User → ℕ → Option ℕ → Option ℤ → World → Outcome (List Reading)
unfolding visible_sensors
recent_readings user pk since limit w = elim (first? (λ s. s.id == pk) (visible_sensors user w)) [
  | none ↦ fail not_found
  | some s ↦ page s since w (page_limit limit)
]
