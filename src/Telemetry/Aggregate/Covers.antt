-- ===== src/Telemetry/Aggregate/Covers.antt =====
-- The starts of the buckets of apps/telemetry/views.py, and the readings that they count.
use robotics_io_t_smart_auto.Base.{
  ℕ, ◌+◌, ◌<◌, ◌≡◌, refl, ap, subst, inl, inr, Bool, true, false, ◌||◌, List, [], ◌∷◌, arith, ltb,
  ◌==◌, Bool-cases, length, exists_where, count_where, All, All-imp,
}
use robotics_io_t_smart_auto.Telemetry.Aggregate.{bucket_start, add_start, starts, in_bucket}
use robotics_io_t_smart_auto.Telemetry.Models.{Reading}

-- strictly ascending
abbrev pub Ascending : List ℕ → Type 0
Ascending [] = Unit
Ascending (s ∷ ss) = All (λ t. s < t) ss × Ascending ss

above-add_start :
    (s b : ℕ) (ss : List ℕ) → s < b → All (λ t. s < t) ss → All (λ t. s < t) (add_start b ss)
above-add_start s b [] h k = (h, tt)
above-add_start s b (t ∷ ts) h k = ground (arith, h, k, above-add_start s b ts h k.1)

Ascending-add_start : (b : ℕ) (ss : List ℕ) → Ascending ss → Ascending (add_start b ss)
Ascending-add_start b [] a = (tt, tt)
Ascending-add_start b (s ∷ ss) a = elim (Bool-cases (ltb b s)) [
  | inl before ↦
      let b<s : b < s = ground arith in
      rw before
        (((b<s, All-imp (λ t. s < t) (λ t. b < t) (λ t h. omega (arith, h, b<s)) ss a.0)), a)
  | inr late ↦ elim (Bool-cases (b == s)) [
    | inl same ↦ rw (late, same) a
    | inr other ↦
        rw (late, other) ((above-add_start s b ss (ground arith) a.0, Ascending-add_start b ss a.1))
  ]
]

pub starts-Ascending : (size : ℕ) (rs : List Reading) → Ascending (starts size rs)
starts-Ascending size [] = tt
starts-Ascending size (r ∷ rs) =
    Ascending-add_start (bucket_start size r.time) (starts size rs) (starts-Ascending size rs)

-- how many readings the buckets with these starts count
abbrev pub counted_in : ℕ → List Reading → List ℕ → ℕ
counted_in size rs [] = 0
counted_in size rs (b ∷ bs) = count_where (in_bucket size b) rs + counted_in size rs bs

abbrev hits : ℕ → List ℕ → ℕ
hits b ss = count_where (λ s. b == s) ss

counted_in-cons :
    (size : ℕ) (r : Reading) (rs : List Reading) (bs : List ℕ)
    → counted_in size (r ∷ rs) bs ≡ hits (bucket_start size r.time) bs + counted_in size rs bs
counted_in-cons size r rs [] = refl
counted_in-cons size r rs (b ∷ bs) = ground (arith, counted_in-cons size r rs bs)

hits-below : (b : ℕ) (ss : List ℕ) → All (λ s. b < s) ss → hits b ss ≡ 0
hits-below b [] h = refl
hits-below b (s ∷ ss) h = ground (arith, h.0, hits-below b ss h.1)

hits-add_start : (b : ℕ) (ss : List ℕ) → Ascending ss → hits b (add_start b ss) ≡ 1
hits-add_start b [] a = ground arith
hits-add_start b (s ∷ ss) a = elim (Bool-cases (ltb b s)) [
  | inl before ↦
      let b<s : b < s = ground arith in
      rw before (
        ground (
          arith,
          b<s,
          hits-below b ss (All-imp (λ t. s < t) (λ t. b < t) (λ t h. omega (arith, h, b<s)) ss a.0),
        ))
  | inr late ↦ elim (Bool-cases (b == s)) [
    | inl same ↦
        let e : s ≡ b = ground arith in
        rw (late, same)
          (ground (arith, same, hits-below b ss (subst (λ n. All (λ t. n < t) ss) e a.0)))
    | inr other ↦ rw (late, other) (ground (arith, other, hits-add_start b ss a.1))
  ]
]

abbrev is_start : ℕ → List ℕ → Bool
is_start b ss = exists_where (λ s. b == s) ss

-- a new start adds its own readings, an old one none
counted_in-old :
    (size b : ℕ) (rs : List Reading) (ss : List ℕ)
    → count_where (in_bucket size b) rs ≡ 0
    → counted_in size rs (add_start b ss) ≡ counted_in size rs ss
counted_in-old size b rs [] h = ground (arith, h)
counted_in-old size b rs (s ∷ ss) h = ground (arith, h, counted_in-old size b rs ss h)

is_start-below : (b : ℕ) (ss : List ℕ) → All (λ s. b < s) ss → is_start b ss ≡ false
is_start-below b [] h = refl
is_start-below b (s ∷ ss) h = ground (arith, h.0, is_start-below b ss h.1)

add_start-known : (b : ℕ) (ss : List ℕ) → Ascending ss → is_start b ss ≡ true → add_start b ss ≡ ss
add_start-known b [] a h = absurd (ground arith)
add_start-known b (s ∷ ss) a h = elim (Bool-cases (ltb b s)) [
  | inl before ↦
      let b<s : b < s = ground arith in
      let none' =
        is_start-below b ss
          (All-imp (λ t. s < t) (λ t. b < t) (λ t k. omega (arith, k, b<s)) ss a.0) in
      absurd (ground (arith, h, none', b<s))
  | inr late ↦ elim (Bool-cases (b == s)) [
    | inl same ↦ rw (late, same)
    | inr other ↦
        rw (late, other) (ap (λ l. s ∷ l) (add_start-known b ss a.1 (ground (arith, h, other))))
  ]
]

is_start-add_start :
    (b c : ℕ) (ss : List ℕ) → is_start b (add_start c ss) ≡ (b == c) || is_start b ss
is_start-add_start b c [] = ground arith
is_start-add_start b c (s ∷ ss) = ground (arith, is_start-add_start b c ss)

missing :
    (size b : ℕ) (rs : List Reading)
    → is_start b (starts size rs) ≡ false
    → count_where (in_bucket size b) rs ≡ 0
missing size b [] h = refl
missing size b (r ∷ rs) h =
    ground
      (arith, missing size b rs, is_start-add_start b (bucket_start size r.time) (starts size rs))

-- The readings that the buckets count are all of them.
pub counted_in-all :
    (size : ℕ) (rs : List Reading) → counted_in size rs (starts size rs) ≡ length rs
counted_in-all size [] = refl
counted_in-all size (r ∷ rs) =
    let b = bucket_start size r.time in
    let ss = starts size rs in
    let once = hits-add_start b ss (starts-Ascending size rs) in
    let more = counted_in-cons size r rs (add_start b ss) in
    elim (Bool-cases (is_start b ss)) [
      | inl known ↦ omega (
        arith,
        once,
        more,
        ap (counted_in size rs) (add_start-known b ss (starts-Ascending size rs) known),
        counted_in-all size rs,
      )
      | inr new ↦ omega (
        arith,
        once,
        more,
        counted_in-old size b rs ss (missing size b rs new),
        counted_in-all size rs,
      )
    ]
