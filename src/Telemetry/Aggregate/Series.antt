-- ===== src/Telemetry/Aggregate/Series.antt =====
-- The series that `SensorViewSet.aggregate` of apps/telemetry/views.py answers with.
use robotics_io_t_smart_auto.Base.{
  ℕ, ◌+◌, ◌<◌, String, ◌≡◌, refl, sym, ap, ◌∙◌, subst, inl, inr, Bool, false, ◌&&◌, Option, some,
  List, [], ◌∷◌, map, arith, str_eq, ltb, leb, ◌==◌, Bool-cases, Option-cases, seconds, length,
  select, first?, count_where, All, length-select, All-imp, Float, ok,
}
use robotics_io_t_smart_auto.Accounts.Models.{User}
use robotics_io_t_smart_auto.Telemetry.Aggregate.{
  bucket_length, bucket_param, bucket_start, Bucket, column_lt, values_of, least, greatest,
  add_start, starts, in_bucket, bucket_row, bucket_rows, aggregate,
}
use robotics_io_t_smart_auto.Telemetry.Aggregate.Covers.{
  Ascending, starts-Ascending, counted_in, counted_in-all,
}
use robotics_io_t_smart_auto.Telemetry.Aggregate.Extremes.{least-All, greatest-All}
use robotics_io_t_smart_auto.Telemetry.Models.{Sensor, Reading}
use robotics_io_t_smart_auto.Telemetry.Views.{visible_sensors, is_since}
use robotics_io_t_smart_auto.World.{World}

-- the length of a minute, an hour or a day
pub data BucketSize : ℕ → Type 0 where
  minute : BucketSize (seconds 60)
  hour : BucketSize (seconds 3600)
  day : BucketSize (seconds 86400)

sizes : (s : String) (n : ℕ) → bucket_length s ≡ some n → BucketSize n
sizes s n h = elim (Bool-cases (str_eq s "minute")) [
  | inl m ↦ subst BucketSize (ground (arith, rw m at h)) BucketSize.minute
  | inr nm ↦ elim (Bool-cases (str_eq s "hour")) [
    | inl m ↦ subst BucketSize (ground (arith, rw (nm, m) at h)) BucketSize.hour
    | inr nh ↦ elim (Bool-cases (str_eq s "day")) [
      | inl m ↦ subst BucketSize (ground (arith, rw (nm, nh, m) at h)) BucketSize.day
      | inr nd ↦ absurd (ground (arith, rw (nm, nh, nd) at h))
    ]
  ]
]

-- the instants of a bucket
abbrev pub in_window : ℕ → ℕ → ℕ → Bool
in_window size b t = leb b t && ltb t (b + size)

-- Truncation groups an instant with exactly those of its window.
bucket_start-window :
    {size : ℕ} (n : BucketSize size) (t u : ℕ)
    → (bucket_start size t == bucket_start size u) ≡ in_window size (bucket_start size u) t
bucket_start-window BucketSize.minute t u = ground arith
bucket_start-window BucketSize.hour t u = ground arith
bucket_start-window BucketSize.day t u = ground arith

abbrev pub sum_counts : List Bucket → ℕ
sum_counts [] = 0
sum_counts (k ∷ ks) = k.count + sum_counts ks

-- What a row of the series says of the readings: its window holds readings, it counts them, and no
-- value among them is below the least or above the greatest.
pub record RowOf (size : ℕ) (rs : List Reading) (k : Bucket) : Type 0 where
  pub positive : 0 < k.count
  pub counts : k.count ≡ count_where (λ r. in_window size k.start r.time) rs
  pub low_bound :
      (m : Float)
      → k.low ≡ some m
      → All
          (λ x. column_lt x m ≡ false)
          (values_of (select (λ r. in_window size k.start r.time) rs))
  pub high_bound :
      (m : Float)
      → k.high ≡ some m
      → All
          (λ x. column_lt m x ≡ false)
          (values_of (select (λ r. in_window size k.start r.time) rs))

-- The rows are in strictly ascending order, and they count every reading once.
pub record SeriesOf (size : ℕ) (rs : List Reading) (bs : List Bucket) : Type 0 where
  pub ascending : Ascending (map (λ k. k.start) bs)
  pub complete : sum_counts bs ≡ length rs
  pub rows : All (RowOf size rs) bs

module _ (mean : List Float → Option Float) (size : ℕ) where
  select-window :
      (n : BucketSize size) (u : ℕ) (rs : List Reading)
      → select (in_bucket size (bucket_start size u)) rs
        ≡ select (λ r. in_window size (bucket_start size u) r.time) rs
  select-window n u [] = refl
  select-window n u (r ∷ rs) = ground (arith, bucket_start-window n r.time u, select-window n u rs)

  -- a start is the truncation of the instant of a reading
  abbrev Starts : List Reading → ℕ → Type 0
  Starts rs b = (u : ℕ) × (b ≡ bucket_start size u) × (0 < count_where (in_bucket size b) rs)

  Starts-add_start :
      (rs : List Reading) (b : ℕ) (ss : List ℕ)
      → Starts rs b
      → All (Starts rs) ss
      → All (Starts rs) (add_start b ss)
  Starts-add_start rs b [] h k = (h, tt)
  Starts-add_start rs b (s ∷ ss) h k = elim (Bool-cases (ltb b s)) [
    | inl before ↦ rw before (h, k)
    | inr late ↦ elim (Bool-cases (b == s)) [
      | inl same ↦ rw (late, same) k
      | inr other ↦ rw (late, other) (k.0, Starts-add_start rs b ss h k.1)
    ]
  ]

  Starts-cons : (r : Reading) (rs : List Reading) (b : ℕ) → Starts rs b → Starts (r ∷ rs) b
  Starts-cons r rs b (u, e, h) = (u, e, ground (arith, h))

  starts-Starts : (rs : List Reading) → All (Starts rs) (starts size rs)
  starts-Starts [] = tt
  starts-Starts (r ∷ rs) =
      Starts-add_start (r ∷ rs) (bucket_start size r.time) (starts size rs)
        (r.time, refl, ground arith)
        (All-imp (Starts rs) (Starts (r ∷ rs)) (Starts-cons r rs) (starts size rs)
          (starts-Starts rs))

  row-RowOf :
      (n : BucketSize size) (rs : List Reading) (b : ℕ)
      → Starts rs b
      → RowOf size rs (bucket_row mean size rs b)
  row-RowOf n rs b (u, e, h) =
      let same : select (in_bucket size b) rs ≡ select (λ r. in_window size b r.time) rs =
        rw e (select-window n u rs) in
      record {
        positive = omega (arith, h, length-select (in_bucket size b) rs);
        counts = ap length same ∙ length-select (λ r. in_window size b r.time) rs;
        low_bound = λ m low. least-All _ m (sym (ap (λ l. least (values_of l)) same) ∙ low);
        high_bound =
            λ m high. greatest-All _ m (sym (ap (λ l. greatest (values_of l)) same) ∙ high);
      }

  bucket_rows-RowOf :
      (n : BucketSize size) (rs : List Reading) (ss : List ℕ)
      → All (Starts rs) ss
      → All (RowOf size rs) (map (bucket_row mean size rs) ss)
  bucket_rows-RowOf n rs [] h = tt
  bucket_rows-RowOf n rs (b ∷ bs) h = (row-RowOf n rs b h.0, bucket_rows-RowOf n rs bs h.1)

  starts_of_rows :
      (rs : List Reading) (ss : List ℕ) → map (λ k. k.start) (map (bucket_row mean size rs) ss) ≡ ss
  starts_of_rows rs [] = refl
  starts_of_rows rs (b ∷ bs) = ap (λ l. b ∷ l) (starts_of_rows rs bs)

  counts_of_rows :
      (rs : List Reading) (ss : List ℕ)
      → sum_counts (map (bucket_row mean size rs) ss) ≡ counted_in size rs ss
  counts_of_rows rs [] = refl
  counts_of_rows rs (b ∷ bs) =
      omega (arith, counts_of_rows rs bs, length-select (in_bucket size b) rs)

  bucket_rows-SeriesOf :
      (n : BucketSize size) (rs : List Reading) → SeriesOf size rs (bucket_rows mean size rs)
  unfolding bucket_rows
  bucket_rows-SeriesOf n rs = record {
    ascending =
        subst Ascending (sym (starts_of_rows rs (starts size rs))) (starts-Ascending size rs);
    complete = counts_of_rows rs (starts size rs) ∙ counted_in-all size rs;
    rows = bucket_rows-RowOf n rs (starts size rs) (starts-Starts rs);
  }

-- the readings that the chart of a sensor is about
abbrev pub charted : Sensor → Option ℕ → World → List Reading
charted s since w = select (λ r. r.sensor_id == s.id && is_since since r) w.readings

-- What the endpoint answers with.
pub record Answered (user : Option User) (pk : ℕ) (since : Option ℕ) (w : World) (bs : List Bucket)
    : Type 0 where
  pub sensor : Sensor
  pub size : ℕ
  pub found : first? (λ s. s.id == pk) (visible_sensors user w) ≡ some sensor
  pub known : BucketSize size
  pub series : SeriesOf size (charted sensor since w) bs

-- Where the chart endpoint answers, the caller sees the sensor, the bucket is a minute, an hour or
-- a day, the rows are in strictly ascending order, every reading of the sensor since the given
-- instant is counted exactly once, and each row counts the readings of its window, of which there
-- are some, with no value below its least and none above its greatest.
pub aggregate-Answered :
    (mean : List Float → Option Float) (user : Option User) (pk : ℕ) (bucket : Option String)
    (since : Option ℕ) (w : World) {bs : List Bucket}
    → aggregate mean user pk bucket since w ≡ ok bs
    → Answered user pk since w bs
unfolding aggregate
aggregate-Answered mean user pk bucket since w {bs} h =
    elim (Option-cases (first? (λ s. s.id == pk) (visible_sensors user w))) [
      | inl nobody ↦ absurd (ground (arith, rw (aggregate, nobody) at h))
      | inr (s, e) ↦ elim (Option-cases (bucket_length (bucket_param bucket))) [
        | inl unknown ↦ absurd (ground (arith, rw (aggregate, e, unknown) at h))
        | inr (n, k) ↦
            let size_ok = sizes (bucket_param bucket) n k in
            let rows : bucket_rows mean n (charted s since w) ≡ bs =
              ground (arith, rw (aggregate, e, k) at h) in
            record {
              sensor = s;
              size = n;
              found = e;
              known = size_ok;
              series =
                  subst (SeriesOf n (charted s since w)) rows
                    (bucket_rows-SeriesOf mean n size_ok (charted s since w));
            }
      ]
    ]
