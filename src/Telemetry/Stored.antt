-- ===== src/Telemetry/Stored.antt =====
-- What an ingestion that returns has done.
use robotics_io_t_smart_auto.Base.{
  ℕ, suc, String, ◌≡◌, refl, sym, ap, ◌∙◌, subst, inl, inr, ◌&&◌, Option, none, some, List, [], ◌∷◌,
  ◌++◌, map, arith, str_eq, if◌then◌else◌, Bool-cases, is_some, length, first?, does_not_exist,
  Outcome, ok, fail, bind-ok, and_then-ok, ok_eq,
}
use robotics_io_t_smart_auto.Alerts.Services.Notify.{is_alive}
use robotics_io_t_smart_auto.Alerts.Services.Total.{evaluate_device_readings_total}
use robotics_io_t_smart_auto.Core.Codec.{Codec}
use robotics_io_t_smart_auto.Core.Json.{Json, Fields, get}
use robotics_io_t_smart_auto.Core.Realtime.{broadcast}
use robotics_io_t_smart_auto.Devices.Models.{DeviceStatus, Device, wakes}
use robotics_io_t_smart_auto.Devices.Saves.{written, save_device-Quiet}
use robotics_io_t_smart_auto.Devices.Signals.{save_device}
use robotics_io_t_smart_auto.Frame.{SameTables, SameTables-trans, broadcast-Quiet}
use robotics_io_t_smart_auto.Telemetry.Models.{Sensor}
use robotics_io_t_smart_auto.Telemetry.Redelivery.{content_of, draft_contents, bulk_create-Batched}
use robotics_io_t_smart_auto.Telemetry.Rounds.{wanted, store_samples-Stores}
use robotics_io_t_smart_auto.Telemetry.Services.Ingest.{
  Draft, store_samples, bulk_create, Summary, live_readings, drafted_sensors, publish_samples,
  carry_out, ingest_payload,
}
use robotics_io_t_smart_auto.Telemetry.Services.Liveness.{
  serial_of, stamp_of, column, location_of, place, seen_device, seen_fields, readings_of,
  find_device, Plan, plan,
}
use robotics_io_t_smart_auto.World.{Group, Payload, World}

-- The device of the payload, found and seen.
pub record Seen (codec : Codec) (payload : Fields) (w : World) (p : Plan) : Type 0 where
  pub row : Device
  pub found : first? (λ d. is_alive d.base && str_eq d.serial p.serial) w.devices ≡ some row
  pub same : p.device.id ≡ row.id
  pub last_seen : p.device.last_seen ≡ some p.ts
  pub status : p.device.status ≡ (if wakes row.status then DeviceStatus.online else row.status)

found_device-ok :
    (found : Option Device) (d : Device)
    → (elim found as (λ _. Outcome Device) [ none ↦ fail does_not_exist | some d ↦ ok d ]) ≡ ok d
    → found ≡ some d
found_device-ok none d h = ground arith
found_device-ok (some x) d h = ground arith

find_device-ok :
    (serial : String) (w : World) (d : Device)
    → find_device serial w ≡ ok d
    → first? (λ d. is_alive d.base && str_eq d.serial serial) w.devices ≡ some d
unfolding find_device
find_device-ok serial w d h = found_device-ok _ d h

-- a position changes neither the key, nor the instant, nor the status
record SameRow (d d' : Device) : Type 0 where
  id : d'.id ≡ d.id
  last_seen : d'.last_seen ≡ d.last_seen
  status : d'.status ≡ d.status

module _ (codec : Codec) where
  place-SameRow : (loc : Fields) (d d' : Device) → place codec loc d ≡ ok d' → SameRow d d'
  place-SameRow loc d d' h =
      elim (Bool-cases (is_some (get "lat" loc) && is_some (get "lon" loc))) [
        | inl given ↦
            let (lat, _, h1) =
              bind-ok (column codec codec.float_column (get "lat" loc) none) _ d' (rw given at h) in
            let (lon, _, h2) =
              bind-ok (column codec codec.float_column (get "lon" loc) none) _ d' h1 in
            let (alt, _, h3) =
              bind-ok (column codec codec.float_column (get "alt" loc) none) _ d' h2 in
            ground (arith, h3)
        | inr absent ↦ ground (arith, rw absent at h)
      ]

  plan-Seen :
      (payload : Fields) (w : World) (p : Plan)
      → plan codec payload w ≡ ok p
      → Seen codec payload w p
  unfolding plan seen_device
  plan-Seen payload w p h =
      let (serial, named, h1) = bind-ok (serial_of codec payload) _ p h in
      let (row, found, h2) = bind-ok (find_device serial w) _ p h1 in
      let (ts, at, h3) = bind-ok (stamp_of codec w.now payload) _ p h2 in
      let (seen, assigned, h4) = bind-ok (seen_device codec ts payload row) _ p h3 in
      let (battery, _, s1) =
        bind-ok (column codec codec.float_column (get "battery_level" payload) row.battery_level) _
          seen assigned in
      let (signal, _, s2) =
        bind-ok (column codec codec.int_column (get "signal_strength" payload) row.signal_strength)
          _ seen s1 in
      let kept = place-SameRow (location_of codec payload) _ seen s2 in
      let e : record { serial = serial; device = seen; ts = ts } ≡ p = ground (arith, h4) in
      subst (Seen codec payload w) e (record {
        row = row;
        found = find_device-ok serial w row found;
        same = kept.id;
        last_seen = kept.last_seen;
        status = kept.status;
      })

-- What an ingestion that returns has stored.
pub record Ingested (codec : Codec) (payload : Fields) (w after : World) (summary : Summary)
    : Type 0 where
  pub planned : Plan
  pub items : List (String × Json)
  pub determined : plan codec payload w ≡ ok planned
  pub seen : Seen codec payload w planned
  pub serial : summary.device ≡ planned.serial
  pub given : readings_of codec payload ≡ ok items
  pub stored : summary.stored ≡ length items
  pub contents :
      map content_of after.readings
      ≡ map content_of w.readings ++ wanted codec planned.device planned.ts after.sensors items
  pub devices : after.devices ≡ (written planned.device (seen_fields codec payload) w).devices

pub publish_samples-SameTables :
    (p : Plan) (ds : List Draft) (w : World) → SameTables w (publish_samples p ds w)
unfolding publish_samples
publish_samples-SameTables p ds w =
    let message = Payload.telemetry p.device.id p.serial p.ts (live_readings ds) in
    let sent = broadcast (Group.device_group p.device.id) "telemetry" message w in
    SameTables-trans (broadcast-Quiet (Group.device_group p.device.id) "telemetry" message w).tables
      (evaluate_device_readings_total p.device (drafted_sensors ds) sent).tables

length-contents :
    (device : Device) (ts : ℕ) (ds : List Draft) → length (draft_contents device ts ds) ≡ length ds
length-contents device ts [] = refl
length-contents device ts (d ∷ ds) = ap suc (length-contents device ts ds)

length-wanted :
    (codec : Codec) (device : Device) (ts : ℕ) (sensors : List Sensor)
    (items : List (String × Json))
    → length (wanted codec device ts sensors items) ≡ length items
length-wanted codec device ts sensors [] = refl
length-wanted codec device ts sensors (i ∷ is) = ap suc (length-wanted codec device ts sensors is)

module _ (codec : Codec) (payload : Fields) (w : World) where
  -- the state at the end of a run without an exception
  finished_run :
      (p : Plan) (items : List (String × Json)) (ds : List Draft) (done : Unit {0})
      (summary : Summary)
      → plan codec payload w ≡ ok p
      → readings_of codec payload ≡ ok items
      → (store_samples codec p.device p.ts items
          (save_device p.device (seen_fields codec payload) w)).0
        ≡ ok ds
      → (bulk_create p.device p.ts ds
          (store_samples codec p.device p.ts items
            (save_device p.device (seen_fields codec payload) w)).1).0
        ≡ ok done
      → record { device = p.serial; stored = length ds } ≡ summary
      → Ingested codec payload w
          (publish_samples p ds
            (bulk_create p.device p.ts ds
              (store_samples codec p.device p.ts items
                (save_device p.device (seen_fields codec payload) w)).1).1)
          summary
  finished_run p items ds done summary planned given drafted created same =
      let saved = save_device p.device (seen_fields codec payload) w in
      let looped = store_samples codec p.device p.ts items saved in
      let batch = bulk_create p.device p.ts ds looped.1 in
      let stores = store_samples-Stores codec p.device p.ts items saved in
      let quiet = (save_device-Quiet p.device (seen_fields codec payload) w).tables in
      let appended = (bulk_create-Batched p.device p.ts ds looped.1).appended done created in
      let sent = publish_samples-SameTables p ds batch.1 in
      let sensors = sent.sensors ∙ appended.sensors in
      let drafts = stores.drafts ds drafted in
      record {
        planned = p;
        items = items;
        determined = planned;
        seen = plan-Seen codec payload w p planned;
        serial = ap (λ s. s.device) (sym same);
        given = given;
        stored =
            ap (λ s. s.stored) (sym same)
            ∙ sym (length-contents p.device p.ts ds)
            ∙ ap length drafts
            ∙ length-wanted codec p.device p.ts looped.1.sensors items;
        contents =
            ap (map content_of) sent.readings
            ∙ appended.contents
            ∙ ap (λ l. map content_of l ++ draft_contents p.device p.ts ds)
                (stores.keeps.readings ∙ quiet.readings)
            ∙ ap (λ l. map content_of w.readings ++ l)
                (drafts ∙ ap (λ rows. wanted codec p.device p.ts rows items) (sym sensors));
        devices = sent.devices ∙ appended.devices ∙ stores.keeps.devices ∙ quiet.devices;
      }

  -- Where the ingestion returns, the payload's serial is that of a live device; the batch is
  -- appended to the readings, each channel of the payload once and in order, for the device's live
  -- sensor that has the channel's key, with the values that `_coerce` gives and the instant of the
  -- payload; the summary has their number; and the device rows are those of one save of the seen
  -- device, whose `last_seen` is that instant and which is ONLINE if it was OFFLINE or PROVISIONING.
  pub ingest_payload-stored :
      (summary : Summary)
      → (ingest_payload codec payload w).0 ≡ ok summary
      → Ingested codec payload w (ingest_payload codec payload w).1 summary
  unfolding ingest_payload carry_out
  ingest_payload-stored summary h =
      let (p, planned, e1) =
        and_then-ok (plan codec payload w, w) (carry_out codec payload) summary h in
      let saved = save_device p.device (seen_fields codec payload) w in
      let (items, given, e2) =
        and_then-ok (readings_of codec payload, saved) _ summary (ap (λ r. r.0) (sym e1) ∙ h) in
      let looped = store_samples codec p.device p.ts items saved in
      let (ds, drafted, e3) = and_then-ok looped _ summary (ap (λ r. r.0) (sym (e1 ∙ e2)) ∙ h) in
      let batch = bulk_create p.device p.ts ds looped.1 in
      let (done, created, e4) =
        and_then-ok batch _ summary (ap (λ r. r.0) (sym (e1 ∙ e2 ∙ e3)) ∙ h) in
      let run = e1 ∙ e2 ∙ e3 ∙ e4 in
      subst (λ v. Ingested codec payload w v summary) (ap (λ r. r.1) (sym run))
        (finished_run p items ds done summary planned given drafted created
          (ok_eq (ap (λ r. r.0) (sym run) ∙ h)))
