-- ===== src/Telemetry/Rounds.antt =====
-- The rounds of the loop of `ingest_payload`: the drafts that they leave, and what they keep.
use robotics_io_t_smart_auto.Base.{
  ℕ, String, ◌≡◌, refl, sym, ap, ◌∙◌, subst, Bool, true, false, some, List, [], ◌∷◌, map, arith,
  ◌==◌, if◌then◌else◌, get_or, update_where, Error, data_error, overflow_error, Outcome, ok, fail,
  and_then, ok_eq,
}
use robotics_io_t_smart_auto.Core.Codec.{Codec}
use robotics_io_t_smart_auto.Core.Columns.{fits_column}
use robotics_io_t_smart_auto.Core.Json.{Json}
use robotics_io_t_smart_auto.Devices.Models.{Device}
use robotics_io_t_smart_auto.Telemetry.Models.{Sensor}
use robotics_io_t_smart_auto.Telemetry.Naming.{
  sensor_named, named-update, LeavesRest, LeavesRest-refl, LeavesRest-trans, Resolved,
  resolve_sensor-Resolved,
}
use robotics_io_t_smart_auto.Telemetry.Redelivery.{
  Content, sample_content, item_content, draft_contents,
}
use robotics_io_t_smart_auto.Telemetry.Services.Coerce.{Sample, overflows, buckets, coerce}
use robotics_io_t_smart_auto.Telemetry.Services.Ingest.{
  text_width, resolve_sensor, with_sample, Draft, store_sample, draft, store_item, prepend,
  store_samples,
}
use robotics_io_t_smart_auto.World.{World}

module _ (codec : Codec) (device : Device) (ts : ℕ) where
  abbrev pub wanted : List Sensor → List (String × Json) → List Content
  wanted sensors items = map (item_content codec sensors device.id ts) items

  -- one round of the loop
  record ItemStored (key : String) (raw : Json) (w : World) (r : Outcome Draft × World)
      : Type 0 where
    rest : LeavesRest device.id w r.1
    drafted :
        (d : Draft)
        → r.0 ≡ ok d
        → (sensor_named r.1.sensors device.id key ≡ some d.sensor_id)
          × (d.sample ≡ buckets codec raw)

  ItemStored-fail :
      (key : String) (raw : Json) (w v : World) (e : Error)
      → LeavesRest device.id w v
      → ItemStored key raw w (fail e, v)
  ItemStored-fail key raw w v e h = record { rest = h; drafted = λ d k. absurd (ground (arith, k)) }

  -- the save of the sensor, with the answer of the database
  abbrev saved_sample : Sensor → Sample → Bool → World → Outcome (Unit {0}) × World
  saved_sample sensor x fits w =
      if fits
      then (
        ok tt,
        record w { sensors = update_where (λ s. s.id == sensor.id) (with_sample x ts) w.sensors },
      )
      else (fail data_error, w)

  abbrev converted : Json → Bool → Outcome Sample
  converted raw huge = if huge then fail overflow_error else ok (buckets codec raw)

  -- the round behind the lookup
  abbrev finished : String → Json → Sensor → World → Bool → (Sample → Bool) → Outcome Draft × World
  finished key raw sensor w huge fits =
      and_then (converted raw huge, w)
        λ x w2.
          and_then (saved_sample sensor x (fits x) w2) λ saved w3. (ok (draft sensor key x), w3)

  -- where the number fits
  abbrev fit : String → Json → Sensor → World → Bool → Outcome Draft × World
  fit key raw sensor w fits =
      and_then (saved_sample sensor (buckets codec raw) fits w)
        λ saved w3. (ok (draft sensor key (buckets codec raw)), w3)

  ItemStored-fit :
      (key : String) (raw : Json) (sensor : Sensor) (w v : World)
      → LeavesRest device.id w v
      → sensor_named v.sensors device.id key ≡ some sensor.id
      → (fits : Bool) → ItemStored key raw w (fit key raw sensor v fits)
  ItemStored-fit key raw sensor w v h named false = ItemStored-fail key raw w v _ h
  ItemStored-fit key raw sensor w v h named true =
      let x = buckets codec raw in
      record {
        rest = record {
          readings = h.readings;
          devices = h.devices;
          named = λ k id e.
              named-update device.id k (λ s. s.id == sensor.id) x ts v.sensors ∙ h.named k id e;
        };
        drafted = λ d e. (
          named-update device.id key (λ s. s.id == sensor.id) x ts v.sensors
              ∙ named
              ∙ ap (λ d. some d.sensor_id) (ok_eq e),
          ap (λ d. d.sample) (sym (ok_eq e)),
        );
      }

  ItemStored-finished :
      (key : String) (raw : Json) (sensor : Sensor) (w v : World) (fits : Sample → Bool)
      → LeavesRest device.id w v
      → sensor_named v.sensors device.id key ≡ some sensor.id
      → (huge : Bool) → ItemStored key raw w (finished key raw sensor v huge fits)
  ItemStored-finished key raw sensor w v fits h named true = ItemStored-fail key raw w v _ h
  ItemStored-finished key raw sensor w v fits h named false =
      ItemStored-fit key raw sensor w v h named (fits (buckets codec raw))

  ItemStored-then :
      (key : String) (raw : Json) (w : World) (p : Outcome Sensor × World) (huge : Bool)
      (fits : Sample → Bool)
      → Resolved device key w p
      → ItemStored key raw w (and_then p λ sensor v. finished key raw sensor v huge fits)
  ItemStored-then key raw w (ok sensor, v) huge fits h =
      ItemStored-finished key raw sensor w v fits h.keeps (h.found sensor refl) huge
  ItemStored-then key raw w (fail e, v) huge fits h = ItemStored-fail key raw w v e h.keeps

  store_item-finished :
      (key : String) (raw : Json) (w : World)
      → store_item codec device ts key raw w
        ≡ and_then (resolve_sensor device key w) (λ sensor v.
          finished key raw sensor v
            (overflows raw)
            (λ x. fits_column text_width (get_or x.text "")))
  unfolding store_item coerce store_sample
  store_item-finished key raw w = refl

  store_item-ItemStored :
      (key : String) (raw : Json) (w : World)
      → ItemStored key raw w (store_item codec device ts key raw w)
  store_item-ItemStored key raw w =
      subst (ItemStored key raw w) (sym (store_item-finished key raw w)) (
        ItemStored-then key raw w (resolve_sensor device key w) (overflows raw)
          (λ x. fits_column text_width (get_or x.text ""))
          (resolve_sensor-Resolved device key w _ refl))

  pub record Stores (items : List (String × Json)) (w : World) (r : Outcome (List Draft) × World)
      : Type 0 where
    pub keeps : LeavesRest device.id w r.1
    pub drafts :
        (ds : List Draft) → r.0 ≡ ok ds → draft_contents device ts ds ≡ wanted r.1.sensors items

  Stores-prepend :
      (key : String) (raw : Json) (d : Draft) (items : List (String × Json)) (w v : World)
      (r : Outcome (List Draft) × World)
      → LeavesRest device.id w v
      → sensor_named v.sensors device.id key ≡ some d.sensor_id
      → d.sample ≡ buckets codec raw
      → Stores items v r
      → Stores ((key, raw) ∷ items) w (prepend d r)
  Stores-prepend key raw d items w v (ok ds, u) h named same s = record {
    keeps = LeavesRest-trans device.id h s.keeps;
    drafts = λ es e.
        ap (draft_contents device ts) (sym (ok_eq e))
        ∙ ap (λ i. sample_content i device.id ts d.sample ∷ draft_contents device ts ds)
            (sym (s.keeps.named key d.sensor_id named))
        ∙ ap
            (λ x.
              sample_content (sensor_named u.sensors device.id key) device.id ts x
              ∷ draft_contents device ts ds)
            same
        ∙ ap (λ l. item_content codec u.sensors device.id ts (key, raw) ∷ l) (s.drafts ds refl);
  }
  Stores-prepend key raw d items w v (fail e, u) h named same s = record {
    keeps = LeavesRest-trans device.id h s.keeps;
    drafts = λ es k. absurd (ground (arith, k));
  }

  Stores-then :
      (key : String) (raw : Json) (items : List (String × Json)) (w : World)
      (p : Outcome Draft × World)
      → ItemStored key raw w p
      → ((v : World) → Stores items v (store_samples codec device ts items v))
      → Stores
          ((key, raw) ∷ items)
          w
          (and_then p λ d v. prepend d (store_samples codec device ts items v))
  Stores-then key raw items w (ok d, v) h rest =
      let (named, same) = h.drafted d refl in
      Stores-prepend key raw d items w v _ h.rest named same (rest v)
  Stores-then key raw items w (fail e, v) h rest = record {
    keeps = h.rest;
    drafts = λ ds k. absurd (ground (arith, k));
  }

  pub store_samples-Stores :
      (items : List (String × Json)) (w : World)
      → Stores items w (store_samples codec device ts items w)
  unfolding store_samples
  store_samples-Stores [] w = record {
    keeps = LeavesRest-refl device.id w;
    drafts = λ ds e. ap (draft_contents device ts) (sym (ok_eq e));
  }
  store_samples-Stores ((key, raw) ∷ items) w =
      Stores-then key raw items w (store_item codec device ts key raw w)
        (store_item-ItemStored key raw w) (λ v. store_samples-Stores items v)
