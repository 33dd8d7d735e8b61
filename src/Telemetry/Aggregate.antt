-- ===== src/Telemetry/Aggregate.antt =====
-- `SensorViewSet.aggregate` of apps/telemetry/views.py: the series of a sensor by time buckets. The
-- database computes the average, which is a parameter here; the zone of the buckets is UTC.
pub mod Covers
pub mod Extremes
pub mod Series
use robotics_io_t_smart_auto.Base.{
  ℕ, ◌*◌, ◌/◌, String, Bool, true, false, ◌&&◌, Option, none, some, List, [], ◌∷◌, map, str_eq, ltb,
  ◌==◌, if◌then◌else◌, get_or, seconds, length, select, first?, Float, flt_lt, validation_error,
  not_found, Outcome, ok, fail,
}
use robotics_io_t_smart_auto.Accounts.Models.{User}
use robotics_io_t_smart_auto.Telemetry.Models.{Reading}
use robotics_io_t_smart_auto.Telemetry.Views.{visible_sensors, is_since}
use robotics_io_t_smart_auto.World.{World}

-- the values of the parameter `bucket`, with the length of the bucket
abbrev pub bucket_length : String → Option ℕ
bucket_length s =
    if str_eq s "minute"
    then some (seconds 60)
    else if str_eq s "hour"
    then some (seconds 3600)
    else if str_eq s "day"
    then some (seconds 86400)
    else none

-- request.query_params.get("bucket", "minute")
abbrev pub bucket_param : Option String → String
bucket_param p = get_or p "minute"

-- Trunc("time", bucket)
abbrev pub bucket_start : ℕ → ℕ → ℕ
bucket_start size t = (t / size) * size

-- One row of the answer.
pub record Bucket : Type 0 where
  pub start : ℕ
  pub avg : Option Float
  pub low : Option Float
  pub high : Option Float
  pub count : ℕ

-- the order of a column of floats in the database: NaN is the largest value
abbrev pub column_lt : Float → Float → Bool
column_lt Float.nan b = false
column_lt (Float.finite a) Float.nan = true
column_lt Float.pos_inf Float.nan = true
column_lt Float.neg_inf Float.nan = true
column_lt a b = flt_lt a b

-- the values of a column that are not NULL
abbrev pub values_of : List Reading → List Float
values_of [] = []
values_of (r ∷ rs) = elim r.value [ none ↦ values_of rs | some x ↦ x ∷ values_of rs ]

-- Min("value") and Max("value")
abbrev pub least : List Float → Option Float
least [] = none
least (x ∷ xs) = elim (least xs) [ none ↦ some x | some y ↦ some (if column_lt y x then y else x) ]

abbrev pub greatest : List Float → Option Float
greatest [] = none
greatest (x ∷ xs) = elim (greatest xs) [
  | none ↦ some x
  | some y ↦ some (if column_lt x y then y else x)
]

-- .values("b") ... .order_by("b"): each bucket once, the earliest first
abbrev pub add_start : ℕ → List ℕ → List ℕ
add_start b [] = b ∷ []
add_start b (s ∷ ss) =
    let later = add_start b ss in
    if ltb b s then b ∷ s ∷ ss else if b == s then s ∷ ss else s ∷ later

abbrev pub starts : ℕ → List Reading → List ℕ
starts size [] = []
starts size (r ∷ rs) = add_start (bucket_start size r.time) (starts size rs)

abbrev pub in_bucket : ℕ → ℕ → Reading → Bool
in_bucket size b r = bucket_start size r.time == b

module _ (mean : List Float → Option Float) where
  abbrev pub bucket_row : ℕ → List Reading → ℕ → Bucket
  bucket_row size rs b =
      let inside = select (in_bucket size b) rs in
      record {
        start = b;
        avg = mean (values_of inside);
        low = least (values_of inside);
        high = greatest (values_of inside);
        count = length inside;
      }

  -- the query of `aggregate`
  unfoldable pub bucket_rows : ℕ → List Reading → List Bucket
  bucket_rows size rs = map (bucket_row size rs) (starts size rs)

  abbrev pub series : Option ℕ → List Reading → Outcome (List Bucket)
  series none rs = fail validation_error
  series (some size) rs = ok (bucket_rows size rs)

  -- SensorViewSet.aggregate
  unfoldable pub aggregate :
      Option User → ℕ → Option String → Option ℕ → World → Outcome (List Bucket)
  aggregate user pk bucket since w = elim (first? (λ s. s.id == pk) (visible_sensors user w)) [
    | none ↦ fail not_found
    | some s ↦
        series (bucket_length (bucket_param bucket))
          (select (λ r. r.sensor_id == s.id && is_since since r) w.readings)
  ]
