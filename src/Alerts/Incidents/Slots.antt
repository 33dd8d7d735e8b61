-- ===== src/Alerts/Incidents/Slots.antt =====
-- The open incidents as a map, and the map that the alert rows of apps/alerts/services.py stand
-- for: the first live open row of a rule and device. The lemmas follow the map through the updates
-- that the operations make.
use robotics_io_t_smart_auto.Base.{
  ℕ, ◌≤◌, ◌≡◌, inl, inr, Bool, true, false, ◌&&◌, Option, none, some, List, [], ◌∷◌, ◌++◌, arith,
  ◌==◌, if◌then◌else◌, Bool-cases, refers_to, same_ref, same_ref_iff, or_else, first?, count_where,
  update_where, first-append, first-count-zero, count-update-le,
}
use robotics_io_t_smart_auto.Alerts.Models.{AlertStatus, is_opened}
use robotics_io_t_smart_auto.Alerts.Services.Keys.{AlertKey, keys, key_open_for}
use robotics_io_t_smart_auto.World.{World}

-- the open incident of a rule and device, where there is one
abbrev pub Slots : Type 0
Slots = Option ℕ → Option ℕ → Option ℕ

abbrev pub id_of_key : Option AlertKey → Option ℕ
id_of_key none = none
id_of_key (some k) = some k.id

abbrev pub key_slots : List AlertKey → Slots
key_slots ks rule device = id_of_key (first? (key_open_for rule device) ks)

abbrev pub slots : World → Slots
slots w = key_slots (keys w.alerts)

abbrev pub is_slot : Option ℕ → Option ℕ → Option ℕ → Option ℕ → Bool
is_slot rule device r d = same_ref rule r && same_ref device d

-- an incident for this rule and device, unless there is one
abbrev pub opened_slot : Option ℕ → Option ℕ → ℕ → Slots → Slots
opened_slot rule device id s r d =
    if is_slot rule device r d then or_else (s r d) (some id) else s r d

-- no incident for this rule and device
abbrev pub cleared_slot : Option ℕ → Option ℕ → Slots → Slots
cleared_slot rule device s r d = if is_slot rule device r d then none else s r d

-- no incident with this id
abbrev pub dropped_id : ℕ → Slots → Slots
dropped_id id s r d = if refers_to (s r d) id then none else s r d

abbrev pub key_status : AlertStatus → AlertKey → AlertKey
key_status s k = record k { status = s }

module _ (rule device r d : Option ℕ) where
  pub is_slot_eq : is_slot rule device r d ≡ true → (rule ≡ r) × (device ≡ d)
  is_slot_eq h = ground (arith, same_ref_iff rule r, same_ref_iff device d)

  pub key_slots-append :
      (ks : List AlertKey) (k : AlertKey)
      → first? (key_open_for rule device) ks ≡ none
      → key_open_for rule device k ≡ true
      → key_slots (ks ++ k ∷ []) r d ≡ opened_slot rule device k.id (key_slots ks) r d
  key_slots-append ks k free mine = ground (
    arith,
    first-append (key_open_for r d) ks (k ∷ []),
    same_ref_iff rule r,
    same_ref_iff device d,
    same_ref_iff k.rule_id rule,
    same_ref_iff k.device_id device,
    same_ref_iff k.rule_id r,
    same_ref_iff k.device_id d,
  )

  -- closing every row of one slot
  pub key_slots-cleared :
      (s : AlertStatus) (ks : List AlertKey)
      → is_opened s ≡ false
      → key_slots (update_where (key_open_for rule device) (key_status s) ks) r d
        ≡ cleared_slot rule device (key_slots ks) r d
  key_slots-cleared s [] h = ground arith
  key_slots-cleared s (k ∷ ks) h = ground (
    arith,
    key_slots-cleared s ks h,
    same_ref_iff rule r,
    same_ref_iff device d,
    same_ref_iff k.rule_id rule,
    same_ref_iff k.device_id device,
    same_ref_iff k.rule_id r,
    same_ref_iff k.device_id d,
  )

module _ (id : ℕ) (s : AlertStatus) (r d : Option ℕ) where
  abbrev closed_rows : List AlertKey → List AlertKey
  closed_rows ks = update_where (λ k. k.id == id) (key_status s) ks

  count-closed :
      (ks : List AlertKey)
      → is_opened s ≡ false
      → count_where (key_open_for r d) (closed_rows ks) ≤ count_where (key_open_for r d) ks
  count-closed ks h =
      count-update-le (λ k. k.id == id) (key_open_for r d) (key_status s) ks
        (λ k open'. absurd (ground arith))

  alone :
      (k : AlertKey) (ks : List AlertKey)
      → key_open_for r d k ≡ true
      → count_where (key_open_for r d) (k ∷ ks) ≤ 1
      → count_where (key_open_for r d) ks ≡ 0
  alone k ks here one = ground arith

  -- closing the rows of one id
  pub key_slots-dropped :
      (ks : List AlertKey)
      → is_opened s ≡ false
      → count_where (key_open_for r d) ks ≤ 1
      → key_slots (update_where (λ k. k.id == id) (key_status s) ks) r d
        ≡ dropped_id id (key_slots ks) r d
  key_slots-dropped [] h one = ground arith
  key_slots-dropped (k ∷ ks) h one = elim (Bool-cases (key_open_for r d k)) [
    | inl here ↦ elim (Bool-cases (k.id == id)) [
      | inl hit ↦
          let rest =
            first-count-zero (key_open_for r d) (closed_rows ks)
              (omega (arith, count-closed ks h, alone k ks here one)) in
          rw (hit, here) (ground (arith, rest, hit, h))
      | inr miss ↦ rw (miss, here) (ground (arith, miss))
    ]
    | inr other ↦ elim (Bool-cases (k.id == id)) [
      | inl hit ↦ ground (arith, key_slots-dropped ks h, one, hit, other)
      | inr miss ↦ ground (arith, key_slots-dropped ks h, one, miss, other)
    ]
  ]
