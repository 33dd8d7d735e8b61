-- ===== src/Devices/Groups.antt =====
-- DeviceGroup.full_path of apps/devices/models.py: the names from the root to the group. The `while`
-- loop runs on fuel, the number of groups that it may visit. A parent is looked up among all rows,
-- soft-deleted ones included.
use robotics_io_t_smart_auto.Base.{
  ℕ, zero, suc, ◌<◌, String, ◌≡◌, refl, ap, Option, none, some, List, [], ◌∷◌, ◌++◌, arith, ◌==◌,
  concat, first?,
}
use robotics_io_t_smart_auto.Devices.Models.{DeviceGroup}

abbrev pub parent_of : List DeviceGroup → DeviceGroup → Option DeviceGroup
parent_of groups node = elim node.parent [ none ↦ none | some p ↦ first? (λ g. g.id == p) groups ]

-- puts the name of a node behind the names above it
abbrev pub below : String → Option (List String) → Option (List String)
below name none = none
below name (some names) = some (names ++ name ∷ [])

-- reversed(parts)
unfoldable pub names_to : ℕ → List DeviceGroup → DeviceGroup → Option (List String)
names_to zero groups node = none
names_to (suc fuel) groups node = elim (parent_of groups node) [
  | none ↦ some (node.name ∷ [])
  | some up ↦ below node.name (names_to fuel groups up)
]

-- " / ".join(...)
abbrev pub join_path : List String → String
join_path [] = ""
join_path (s ∷ []) = s
join_path (s ∷ t ∷ rest) = concat (s ∷ " / " ∷ join_path (t ∷ rest) ∷ [])

abbrev pub joined : Option (List String) → Option String
joined none = none
joined (some names) = some (join_path names)

unfoldable pub full_path : ℕ → List DeviceGroup → DeviceGroup → Option String
unfolding names_to
full_path fuel groups node = joined (names_to fuel groups node)

-- The ancestors of a group, up to a root: there are `n` of them, with these names from the root.
pub data Chain (groups : List DeviceGroup) : DeviceGroup → ℕ → List String → Type 0 where
  root : (g : DeviceGroup) → parent_of groups g ≡ none → Chain groups g 0 (g.name ∷ [])
  child :
      (g up : DeviceGroup) (n : ℕ) (names : List String)
      → parent_of groups g ≡ some up
      → Chain groups up n names
      → Chain groups g (suc n) (names ++ g.name ∷ [])

names_to-Chain :
    (groups : List DeviceGroup) (fuel : ℕ) (g : DeviceGroup) (n : ℕ) (names : List String)
    → Chain groups g n names
    → n < fuel
    → names_to fuel groups g ≡ some names
unfolding names_to
names_to-Chain groups zero g n names c f = absurd (omega (arith, f))
names_to-Chain groups (suc fuel) g n names (Chain.root _ top) f = rw (top, names_to) refl
names_to-Chain groups (suc fuel) g (suc m) names (Chain.child _ up _ above e c) f =
    rw (e, names_to)
      (ap (below g.name) (names_to-Chain groups fuel up m above c (omega (arith, f))))

-- Where the parents of a group lead to a root, the path is computed with any fuel above the number
-- of its ancestors, and it joins their names from the root to the group.
pub full_path-Chain :
    (groups : List DeviceGroup) (fuel : ℕ) (g : DeviceGroup) (n : ℕ) (names : List String)
    → Chain groups g n names
    → n < fuel
    → full_path fuel groups g ≡ some (join_path names)
unfolding full_path
full_path-Chain groups fuel g n names c f = ap joined (names_to-Chain groups fuel g n names c f)

endless :
    (groups : List DeviceGroup) (g : DeviceGroup) (fuel : ℕ)
    → parent_of groups g ≡ some g
    → names_to fuel groups g ≡ none
unfolding names_to
endless groups g zero e = refl
endless groups g (suc fuel) e = rw (e, names_to) (ap (below g.name) (endless groups g fuel e))

-- A group that is its own parent has no path: no amount of fuel ends the loop.
full_path-endless :
    (groups : List DeviceGroup) (g : DeviceGroup) (fuel : ℕ)
    → parent_of groups g ≡ some g
    → full_path fuel groups g ≡ none
unfolding full_path
full_path-endless groups g fuel e = ap joined (endless groups g fuel e)
