-- ===== src/Telemetry/Purge.antt =====
-- The loop of the retention job: when it ends, and what it leaves.
use robotics_io_t_smart_auto.Base.{
  ℕ, zero, suc, ◌+◌, ◌<◌, ◌≡◌, refl, sym, ap, ◌∙◌, subst, ◌⊎◌, inl, inr, true, false, not, Option,
  some, List, [], ◌∷◌, arith, ==_refl, Bool-cases, length, select, count_where,
}
use robotics_io_t_smart_auto.Alerts.Services.Notify.{is_listed}
use robotics_io_t_smart_auto.Telemetry.Batches.{
  ids_of, Distinct, old-listed, batch-listed, OldOnly, batch-OldOnly, recent, batch-none,
}
use robotics_io_t_smart_auto.Telemetry.Models.{Reading}
use robotics_io_t_smart_auto.Telemetry.Tasks.{
  is_old, batch_of, in_ids, purge_loop, purge_old_telemetry,
}
use robotics_io_t_smart_auto.World.{World}

-- what a round leaves
abbrev left_by : List ℕ → List Reading → List Reading
left_by ids rs = select (λ r. not (in_ids ids r)) rs

recent-left_by :
    (now : ℕ) (ids : List ℕ) (rs : List Reading)
    → OldOnly now ids rs
    → recent now (left_by ids rs) ≡ recent now rs
recent-left_by now ids [] h = refl
recent-left_by now ids (r ∷ rs) h = elim (Bool-cases (in_ids ids r)) [
  | inl named ↦ rw (named, h.0 named) (recent-left_by now ids rs h.1)
  | inr kept ↦ elim (Bool-cases (is_old now r)) [
    | inl old ↦ rw kept (rw old (recent-left_by now ids rs h.1))
    | inr new ↦ rw kept (rw new (ap (λ l. r ∷ l) (recent-left_by now ids rs h.1)))
  ]
]

apart-left_by :
    (i : ℕ) (ids : List ℕ) (rs : List Reading)
    → is_listed (ids_of rs) i ≡ false
    → is_listed (ids_of (left_by ids rs)) i ≡ false
apart-left_by i ids [] h = refl
apart-left_by i ids (r ∷ rs) h = elim (Bool-cases (in_ids ids r)) [
  | inl named ↦ rw named (apart-left_by i ids rs (ground (arith, h)))
  | inr kept ↦ rw kept (ground (arith, h, apart-left_by i ids rs))
]

Distinct-left_by : (ids : List ℕ) (rs : List Reading) → Distinct rs → Distinct (left_by ids rs)
Distinct-left_by ids [] d = tt
Distinct-left_by ids (r ∷ rs) d = elim (Bool-cases (in_ids ids r)) [
  | inl named ↦ rw named (Distinct-left_by ids rs d.1)
  | inr kept ↦ rw kept (apart-left_by r.id ids rs d.0, Distinct-left_by ids rs d.1)
]

length-left_by :
    (ids : List ℕ) (rs : List Reading)
    → length (left_by ids rs) + count_where (in_ids ids) rs ≡ length rs
length-left_by ids [] = refl
length-left_by ids (r ∷ rs) = ground (arith, length-left_by ids rs)

-- a key that names a row is counted
listed-count :
    (i : ℕ) (ids : List ℕ) (rs : List Reading)
    → is_listed (ids_of rs) i ≡ true
    → 0 < count_where (in_ids (i ∷ ids)) rs
listed-count i ids [] h = absurd (ground (arith, h))
listed-count i ids (r ∷ rs) h = elim (Bool-cases (in_ids (i ∷ ids) r)) [
  | inl hit ↦ rw hit (omega arith)
  | inr miss ↦ rw miss (listed-count i ids rs (ground (arith, h, miss)))
]

record Purged (now total : ℕ) (rs : List Reading) (r : Option (ℕ × List Reading)) : Type 0 where
  deleted : ℕ
  ends : r ≡ some (deleted, recent now rs)
  counted : deleted + length (recent now rs) ≡ total + length rs

batch-cases : (ids : List ℕ) → (ids ≡ []) ⊎ ((i : ℕ) × (js : List ℕ) × (ids ≡ i ∷ js))
batch-cases [] = inl refl
batch-cases (i ∷ js) = inr (i, js, refl)

purge_loop_purges :
    (fuel l now : ℕ) (rs : List Reading) (total : ℕ)
    → Distinct rs
    → length rs < fuel
    → Purged now total rs (purge_loop fuel (suc l) now rs total)
unfolding purge_loop
purge_loop_purges zero l now rs total d f = absurd (omega (arith, f))
purge_loop_purges (suc fuel) l now rs total d f = elim (batch-cases (batch_of (suc l) now rs)) [
  | inl e ↦ record {
    deleted = total;
    ends = rw (e, purge_loop) (ap (λ k. some (total, k)) (sym (batch-none l now rs e)));
    counted = ap (λ k. total + length k) (batch-none l now rs e);
  }
  | inr (i, js, e) ↦
      let named =
        old-listed now i rs (batch-listed (suc l) now i rs (rw e (ground (arith, ==_refl i)))) in
      let only = subst (λ ids. OldOnly now ids rs) e (batch-OldOnly (suc l) now rs d) in
      let sizes = length-left_by (i ∷ js) rs in
      let fewer = listed-count i js rs named in
      let rest =
        purge_loop_purges fuel l now (left_by (i ∷ js) rs)
          (total + count_where (in_ids (i ∷ js)) rs) (Distinct-left_by (i ∷ js) rs d)
          (omega (arith, sizes, fewer, f)) in
      let same = recent-left_by now (i ∷ js) rs only in
      record {
        deleted = rest.deleted;
        ends = rw (e, purge_loop) (rest.ends ∙ ap (λ k. some (rest.deleted, k)) same);
        counted =
            ap (λ k. rest.deleted + length k) (sym same) ∙ rest.counted ∙ omega (arith, sizes);
      }
]

-- With distinct keys the retention job ends, in any number of rounds above the number of the
-- readings; then exactly the readings younger than the retention time are left, in their order,
-- and the job returns the number of those that it deleted.
pub purge_old_telemetry_lem :
    (fuel : ℕ) (w : World)
    → Distinct w.readings
    → length w.readings < fuel
    → (deleted : ℕ) × (purge_old_telemetry fuel w
        ≡ some (deleted, record w { readings = select (λ r. not (is_old w.now r)) w.readings }))
      × (deleted + length (select (λ r. not (is_old w.now r)) w.readings) ≡ length w.readings)
unfolding purge_old_telemetry
purge_old_telemetry_lem fuel w d f =
    let all = purge_loop_purges fuel 9999 w.now w.readings 0 d f in
    (all.deleted, rw (all.ends, purge_old_telemetry) refl, all.counted ∙ omega arith)
