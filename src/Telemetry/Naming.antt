-- ===== src/Telemetry/Naming.antt =====
-- Which sensor a key of the payload gets, and that it keeps the key.
use robotics_io_t_smart_auto.Base.{
  ℕ, ◌+◌, String, ◌≡◌, refl, sym, ap, ◌∙◌, subst, Bool, true, false, not, Option, none, some, List,
  [], ◌∷◌, ◌++◌, arith, eq_refl, if◌then◌else◌, ==_refl, first?, exists_where, update_where, Error,
  integrity_error, data_error, Outcome, ok, fail, ok_eq,
}
use robotics_io_t_smart_auto.Core.Columns.{fits_column}
use robotics_io_t_smart_auto.Devices.Models.{Device}
use robotics_io_t_smart_auto.Telemetry.Models.{Sensor}
use robotics_io_t_smart_auto.Telemetry.Services.Coerce.{Sample}
use robotics_io_t_smart_auto.Telemetry.Services.Ingest.{
  has_key, takes_key, new_sensor, key_width, resolve_sensor, with_sample,
}
use robotics_io_t_smart_auto.World.{World}

-- the live sensor of a device that has this key
abbrev pub sensor_named : List Sensor → ℕ → String → Option ℕ
sensor_named rows device_id key = elim (first? (has_key device_id key) rows) [
  | none ↦ none
  | some s ↦ some s.id
]

-- a sensor that is found stays found
abbrev pub StillNamed : ℕ → List Sensor → List Sensor → Type 0
StillNamed device_id rows rows' =
    (key : String) (id : ℕ)
    → sensor_named rows device_id key ≡ some id
    → sensor_named rows' device_id key ≡ some id

pub named-update :
    (device_id : ℕ) (key : String) (p : Sensor → Bool) (x : Sample) (ts : ℕ) (rows : List Sensor)
    → sensor_named (update_where p (with_sample x ts) rows) device_id key
      ≡ sensor_named rows device_id key
named-update device_id key p x ts [] = refl
named-update device_id key p x ts (s ∷ ss) = ground (arith, named-update device_id key p x ts ss)

named-append :
    (device_id : ℕ) (key : String) (rows more : List Sensor) (id : ℕ)
    → sensor_named rows device_id key ≡ some id
    → sensor_named (rows ++ more) device_id key ≡ some id
named-append device_id key [] more id h = ground arith
named-append device_id key (s ∷ ss) more id h =
    ground (arith, h, named-append device_id key ss more id)

named-new :
    (device_id : ℕ) (key : String) (rows : List Sensor) (new : Sensor)
    → first? (has_key device_id key) rows ≡ none
    → has_key device_id key new ≡ true
    → sensor_named (rows ++ new ∷ []) device_id key ≡ some new.id
named-new device_id key [] new h k = ground (arith, k)
named-new device_id key (s ∷ ss) new h k = ground (arith, h, named-new device_id key ss new)

-- resolving and updating sensors leaves the readings and the devices, and the sensors that are found
pub record LeavesRest (device_id : ℕ) (w w' : World) : Type 0 where
  pub readings : w'.readings ≡ w.readings
  pub devices : w'.devices ≡ w.devices
  pub named : StillNamed device_id w.sensors w'.sensors

pub LeavesRest-refl : (device_id : ℕ) (w : World) → LeavesRest device_id w w
LeavesRest-refl device_id w = record { readings = refl; devices = refl; named = λ key id h. h }

pub LeavesRest-trans :
    (device_id : ℕ) {u v w : World}
    → LeavesRest device_id u v
    → LeavesRest device_id v w
    → LeavesRest device_id u w
LeavesRest-trans device_id h k = record {
  readings = k.readings ∙ h.readings;
  devices = k.devices ∙ h.devices;
  named = λ key id e. k.named key id (h.named key id e);
}

-- the sensor that a key gets
pub record Resolved (device : Device) (key : String) (w : World) (r : Outcome Sensor × World)
    : Type 0 where
  pub keeps : LeavesRest device.id w r.1
  pub found : (s : Sensor) → r.0 ≡ ok s → sensor_named r.1.sensors device.id key ≡ some s.id

Resolved-fail :
    (device : Device) (key : String) (w : World) (e : Error) → Resolved device key w (fail e, w)
Resolved-fail device key w e = record {
  keeps = LeavesRest-refl device.id w;
  found = λ s h. absurd (ground (arith, h));
}

named-found :
    (device_id : ℕ) (key : String) (rows : List Sensor) (s : Sensor)
    → first? (has_key device_id key) rows ≡ some s
    → sensor_named rows device_id key ≡ some s.id
named-found device_id key rows s h = ground (arith, h)

Resolved-old :
    (device : Device) (key : String) (w : World) (s : Sensor)
    → first? (has_key device.id key) w.sensors ≡ some s
    → Resolved device key w (ok s, w)
Resolved-old device key w s h = record {
  keeps = LeavesRest-refl device.id w;
  found = λ t e. named-found device.id key w.sensors s h ∙ ap (λ x. some x.id) (ok_eq e);
}

abbrev pub created_sensor : Device → String → World → World
created_sensor device key w = record w {
  sensors = w.sensors ++ new_sensor device key w ∷ [];
  next_id = w.next_id + 1;
}

new_sensor-has_key :
    (device : Device) (key : String) (w : World)
    → has_key device.id key (new_sensor device key w) ≡ true
new_sensor-has_key device key w = rw (==_refl device.id, eq_refl key) refl

Resolved-new :
    (device : Device) (key : String) (w : World)
    → first? (has_key device.id key) w.sensors ≡ none
    → Resolved device key w (ok (new_sensor device key w), created_sensor device key w)
Resolved-new device key w h = record {
  keeps = record {
    readings = refl;
    devices = refl;
    named = λ k id e. named-append device.id k w.sensors (new_sensor device key w ∷ []) id e;
  };
  found = λ t e.
      named-new device.id key w.sensors (new_sensor device key w) h
        (new_sensor-has_key device key w)
      ∙ ap (λ x. some x.id) (ok_eq e);
}

pub resolve_sensor-old :
    (device : Device) (key : String) (w : World) (s : Sensor)
    → first? (has_key device.id key) w.sensors ≡ some s
    → resolve_sensor device key w ≡ (ok s, w)
unfolding resolve_sensor
resolve_sensor-old device key w s e = ground (arith, e)

-- the insertion, with the answers of the database
abbrev pub insert_sensor : Device → String → World → Bool → Bool → Outcome Sensor × World
insert_sensor device key w fits taken =
    if not fits
    then (fail data_error, w)
    else if taken
    then (fail integrity_error, w)
    else (ok (new_sensor device key w), created_sensor device key w)

pub resolve_sensor-absent :
    (device : Device) (key : String) (w : World)
    → first? (has_key device.id key) w.sensors ≡ none
    → resolve_sensor device key w
      ≡ insert_sensor device key w
          (fits_column key_width key)
          (exists_where (takes_key device.id key) w.sensors)
unfolding resolve_sensor
resolve_sensor-absent device key w e = ground (arith, e)

Resolved-insert :
    (device : Device) (key : String) (w : World)
    → first? (has_key device.id key) w.sensors ≡ none
    → (fits taken : Bool) → Resolved device key w (insert_sensor device key w fits taken)
Resolved-insert device key w e false taken = Resolved-fail device key w data_error
Resolved-insert device key w e true true = Resolved-fail device key w integrity_error
Resolved-insert device key w e true false = Resolved-new device key w e

-- the outcomes of the lookup and of the insertion behind it
pub resolve_sensor-Resolved :
    (device : Device) (key : String) (w : World) (found : Option Sensor)
    → first? (has_key device.id key) w.sensors ≡ found
    → Resolved device key w (resolve_sensor device key w)
resolve_sensor-Resolved device key w (some s) e =
    subst (Resolved device key w) (sym (resolve_sensor-old device key w s e))
      (Resolved-old device key w s e)
resolve_sensor-Resolved device key w none e =
    subst (Resolved device key w) (sym (resolve_sensor-absent device key w e)) (
      Resolved-insert device key w e (fits_column key_width key)
        (exists_where (takes_key device.id key) w.sensors))
