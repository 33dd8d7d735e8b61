-- ===== src/Telemetry/Redelivery.antt =====
-- What a batch of readings stores, and what it leaves of the other tables.
use robotics_io_t_smart_auto.Base.{
  ℕ, ◌+◌, String, ◌≡◌, refl, sym, ap, ◌∙◌, Bool, true, false, not, Option, some, List, [], ◌∷◌,
  ◌++◌, map, append-nil, append_assoc, arith, if◌then◌else◌, get_or, exists_where, Float, Error,
  data_error, Outcome, ok, fail,
}
use robotics_io_t_smart_auto.Core.Codec.{Codec}
use robotics_io_t_smart_auto.Core.Json.{Json}
use robotics_io_t_smart_auto.Devices.Models.{Device}
use robotics_io_t_smart_auto.Telemetry.Models.{Sensor, Reading}
use robotics_io_t_smart_auto.Telemetry.Naming.{sensor_named}
use robotics_io_t_smart_auto.Telemetry.Services.Coerce.{Sample, buckets}
use robotics_io_t_smart_auto.Telemetry.Services.Ingest.{
  Draft, reading_row, create_readings, is_storable_draft, bulk_create,
}
use robotics_io_t_smart_auto.World.{World}

-- The columns of a reading that the payload determines.
pub record Content : Type 0 where
  pub sensor_id : Option ℕ
  pub device_id : ℕ
  pub time : ℕ
  pub value : Option Float
  pub value_text : String
  pub value_json : Option Json

abbrev pub content_of : Reading → Content
content_of r = record {
  sensor_id = some r.sensor_id;
  device_id = r.device_id;
  time = r.time;
  value = r.value;
  value_text = r.value_text;
  value_json = r.value_json;
}

abbrev pub sample_content : Option ℕ → ℕ → ℕ → Sample → Content
sample_content sensor_id device_id ts x = record {
  sensor_id = sensor_id;
  device_id = device_id;
  time = ts;
  value = x.numeric;
  value_text = get_or x.text "";
  value_json = x.json;
}

-- what an item of the payload is to be stored as
abbrev pub item_content : Codec → List Sensor → ℕ → ℕ → String × Json → Content
item_content codec sensors device_id ts item =
    sample_content (sensor_named sensors device_id item.0) device_id ts (buckets codec item.1)

contents-append :
    (xs ys : List Reading) → map content_of (xs ++ ys) ≡ map content_of xs ++ map content_of ys
contents-append [] ys = refl
contents-append (x ∷ xs) ys = ap (λ l. content_of x ∷ l) (contents-append xs ys)

abbrev pub draft_contents : Device → ℕ → List Draft → List Content
draft_contents device ts ds = map (λ d. sample_content (some d.sensor_id) device.id ts d.sample) ds

-- the batch is appended, and nothing else of the tables changes
pub record Appends (device : Device) (ts : ℕ) (ds : List Draft) (w w' : World) : Type 0 where
  pub contents :
      map content_of w'.readings ≡ map content_of w.readings ++ draft_contents device ts ds
  pub devices : w'.devices ≡ w.devices
  pub sensors : w'.sensors ≡ w.sensors

pub create_readings-Appends :
    (device : Device) (ts : ℕ) (ds : List Draft) (w : World)
    → Appends device ts ds w (create_readings device ts ds w)
unfolding create_readings
create_readings-Appends device ts [] w = record {
  contents = sym (append-nil (map content_of w.readings));
  devices = refl;
  sensors = refl;
}
create_readings-Appends device ts (d ∷ ds) w =
    let row = reading_row w.next_id device ts d in
    let next = record w { readings = w.readings ++ row ∷ []; next_id = w.next_id + 1 } in
    let rest = create_readings-Appends device ts ds next in
    record {
      contents =
          rest.contents
          ∙ ap (λ l. l ++ draft_contents device ts ds) (contents-append w.readings (row ∷ []))
          ∙ append_assoc (map content_of w.readings) (content_of row ∷ [])
              (draft_contents device ts ds);
      devices = rest.devices;
      sensors = rest.sensors;
    }

-- a batch that is refused stores nothing
pub record Batched (device : Device) (ts : ℕ) (ds : List Draft) (w : World)
    (r : Outcome (Unit {0}) × World) : Type 0 where
  pub appended : (u : Unit {0}) → r.0 ≡ ok u → Appends device ts ds w r.1
  pub refused : (e : Error) → r.0 ≡ fail e → r.1 ≡ w

Batched-if :
    (device : Device) (ts : ℕ) (ds : List Draft) (w : World) (bad : Bool)
    → Batched device ts ds w
        (if bad then (fail data_error, w) else (ok tt, create_readings device ts ds w))
Batched-if device ts ds w true = record {
  appended = λ u e. absurd (ground (arith, e));
  refused = λ e h. refl;
}
Batched-if device ts ds w false = record {
  appended = λ u e. create_readings-Appends device ts ds w;
  refused = λ e h. absurd (ground (arith, h));
}

pub bulk_create-Batched :
    (device : Device) (ts : ℕ) (ds : List Draft) (w : World)
    → Batched device ts ds w (bulk_create device ts ds w)
unfolding bulk_create
bulk_create-Batched device ts ds w =
    Batched-if device ts ds w (exists_where (λ d. not (is_storable_draft d)) ds)
