-- ===== src/Telemetry/Buckets.antt =====
-- The three value columns of a reading: `value`, `value_text` and `value_json`.
use robotics_io_t_smart_auto.Base.{
  ℕ, String, ◌≡◌, refl, sym, subst, ◌⊎◌, inl, inr, Option, none, some, List, [], ◌∷◌, map, All,
  All-append, Float, Outcome, ok, fail, and_then,
}
use robotics_io_t_smart_auto.Core.Codec.{Codec}
use robotics_io_t_smart_auto.Core.Json.{Json, Fields}
use robotics_io_t_smart_auto.Devices.Models.{Device}
use robotics_io_t_smart_auto.Devices.Saves.{save_device-Quiet}
use robotics_io_t_smart_auto.Devices.Signals.{save_device}
use robotics_io_t_smart_auto.Telemetry.Models.{Sensor}
use robotics_io_t_smart_auto.Telemetry.Naming.{sensor_named}
use robotics_io_t_smart_auto.Telemetry.Redelivery.{
  Content, content_of, sample_content, draft_contents, Batched, bulk_create-Batched,
}
use robotics_io_t_smart_auto.Telemetry.Rounds.{wanted, store_samples-Stores}
use robotics_io_t_smart_auto.Telemetry.Services.Coerce.{
  Sample, numeric_sample, text_sample, buckets,
}
use robotics_io_t_smart_auto.Telemetry.Services.Ingest.{
  Draft, store_samples, bulk_create, carry_out, ingest_payload,
}
use robotics_io_t_smart_auto.Telemetry.Services.Liveness.{seen_fields, readings_of, Plan, plan}
use robotics_io_t_smart_auto.Telemetry.Stored.{publish_samples-SameTables}
use robotics_io_t_smart_auto.World.{World}

-- a JSON column that holds a list or a dictionary
abbrev pub IsContainer : Option Json → Type 0
IsContainer (some (Json.arr xs)) = Unit
IsContainer (some (Json.obj fs)) = Unit
IsContainer _ = ⊥

-- a number alone, a text alone, which may be empty, or a list or dictionary alone
abbrev pub IsOneBucket : Content → Type 0
IsOneBucket c =
    (((x : Float) × (c.value ≡ some x)) × (c.value_text ≡ "") × (c.value_json ≡ none))
    ⊎ ((c.value ≡ none) × (c.value_json ≡ none))
    ⊎ ((c.value ≡ none) × (c.value_text ≡ "") × IsContainer c.value_json)

-- every stored reading
abbrev pub AllOneBucket : World → Type 0
AllOneBucket w = All IsOneBucket (map content_of w.readings)

and_then-keeps {ℓ κ μ ν} :
    {S : Type ℓ} {A : Type κ} {B : Type μ} (P : S → Type ν) (p : Outcome A × S)
    (f : A → S → Outcome B × S)
    → P p.1
    → ((a : A) → p.0 ≡ ok a → P (f a p.1).1)
    → P (and_then p f).1
and_then-keeps P (ok a, s) f h k = k a refl
and_then-keeps P (fail e, s) f h k = h

-- a text is stored as its number where it is one
text_IsOneBucket :
    (sensor : Option ℕ) (device_id ts : ℕ) (s : String) (parsed : Option Float)
    → IsOneBucket (
        sample_content sensor device_id ts
          (elim parsed as (λ _. Sample) [ some x ↦ numeric_sample x | none ↦ text_sample s ]))
text_IsOneBucket sensor device_id ts s none = inr (inl (refl, refl))
text_IsOneBucket sensor device_id ts s (some x) = inl ((x, refl), refl, refl)

Batched-AllOneBucket :
    (p : Plan) (ds : List Draft) (w : World) (r : Outcome (Unit {0}) × World)
    → AllOneBucket w
    → All IsOneBucket (draft_contents p.device p.ts ds)
    → Batched p.device p.ts ds w r
    → AllOneBucket r.1
Batched-AllOneBucket p ds w (ok u, v) h fine b =
    subst (All IsOneBucket) (sym (b.appended u refl).contents) (All-append IsOneBucket _ _ h fine)
Batched-AllOneBucket p ds w (fail e, v) h fine b =
    subst (λ x. All IsOneBucket (map content_of x.readings)) (sym (b.refused e refl)) h

module _ (codec : Codec) where
  buckets-IsOneBucket :
      (sensor : Option ℕ) (device_id ts : ℕ) (raw : Json)
      → IsOneBucket (sample_content sensor device_id ts (buckets codec raw))
  unfolding buckets
  buckets-IsOneBucket sensor device_id ts Json.null = inr (inl (refl, refl))
  buckets-IsOneBucket sensor device_id ts (Json.bool b) = inl ((_, refl), refl, refl)
  buckets-IsOneBucket sensor device_id ts (Json.num x) = inl ((_, refl), refl, refl)
  buckets-IsOneBucket sensor device_id ts (Json.arr xs) = inr (inr (refl, refl, tt))
  buckets-IsOneBucket sensor device_id ts (Json.obj fs) = inr (inr (refl, refl, tt))
  buckets-IsOneBucket sensor device_id ts (Json.str s) =
      text_IsOneBucket sensor device_id ts s (codec.parse_float s)

  wanted-IsOneBucket :
      (device : Device) (ts : ℕ) (sensors : List Sensor) (items : List (String × Json))
      → All IsOneBucket (wanted codec device ts sensors items)
  wanted-IsOneBucket device ts sensors [] = tt
  wanted-IsOneBucket device ts sensors ((key, raw) ∷ items) = (
    buckets-IsOneBucket (sensor_named sensors device.id key) device.id ts raw,
    wanted-IsOneBucket device ts sensors items,
  )

  bulk_create-AllOneBucket :
      (p : Plan) (ds : List Draft) (w : World)
      → AllOneBucket w
      → All IsOneBucket (draft_contents p.device p.ts ds)
      → AllOneBucket (bulk_create p.device p.ts ds w).1
  bulk_create-AllOneBucket p ds w h fine =
      Batched-AllOneBucket p ds w (bulk_create p.device p.ts ds w) h fine
        (bulk_create-Batched p.device p.ts ds w)

  carry_out-AllOneBucket :
      (payload : Fields) (p : Plan) (w : World)
      → AllOneBucket w
      → AllOneBucket (carry_out codec payload p w).1
  unfolding carry_out
  carry_out-AllOneBucket payload p w h =
      let saved = save_device p.device (seen_fields codec payload) w in
      let quiet = save_device-Quiet p.device (seen_fields codec payload) w in
      let kept : AllOneBucket saved =
        subst (λ rs. All IsOneBucket (map content_of rs)) (sym quiet.tables.readings) h in
      and_then-keeps AllOneBucket (readings_of codec payload, saved) _ kept
        λ items given.
          let looped = store_samples codec p.device p.ts items saved in
          let stores = store_samples-Stores codec p.device p.ts items saved in
          let resolved : AllOneBucket looped.1 =
            subst (λ rs. All IsOneBucket (map content_of rs)) (sym stores.keeps.readings) kept in
          and_then-keeps AllOneBucket looped _ resolved λ ds drafted.
            let batch = bulk_create-AllOneBucket p ds looped.1 resolved (
              subst (All IsOneBucket) (sym (stores.drafts ds drafted))
                (wanted-IsOneBucket p.device p.ts looped.1.sensors items)) in
            and_then-keeps AllOneBucket (bulk_create p.device p.ts ds looped.1) _ batch
              λ done created.
                subst (λ rs. All IsOneBucket (map content_of rs))
                  (sym
                    (publish_samples-SameTables p ds
                      (bulk_create p.device p.ts ds looped.1).1).readings)
                  batch

  -- If every stored reading has its value in one column alone, a number in `value`, a text in
  -- `value_text` or a list or dictionary in `value_json`, so it is after an ingestion of whatever
  -- payload, whether it returns or raises.
  pub ingest_payload-AllOneBucket :
      (payload : Fields) (w : World)
      → AllOneBucket w
      → AllOneBucket (ingest_payload codec payload w).1
  unfolding ingest_payload
  ingest_payload-AllOneBucket payload w h =
      and_then-keeps AllOneBucket (plan codec payload w, w) (carry_out codec payload) h
        λ p planned. carry_out-AllOneBucket payload p w h
