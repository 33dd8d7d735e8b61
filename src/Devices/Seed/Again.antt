-- ===== src/Devices/Seed/Again.antt =====
-- A second run of apps/devices/management/commands/seed_demo.py.
use robotics_io_t_smart_auto.Base.{
  ◌≡◌, refl, sym, ap, ◌∙◌, subst, inl, inr, true, false, List, [], ◌∷◌, arith, Bool-cases, select,
  exists_where, Error, multiple_objects, integrity_error, Outcome, ok, fail,
}
use robotics_io_t_smart_auto.Devices.Seed.GetOrCreate.{
  Call, chain, for_each, Lookup, get_or_create_row, fetch,
}
use robotics_io_t_smart_auto.Devices.Seed.Later.{Later, Later-refl, Later-trans, Inserts}
use robotics_io_t_smart_auto.World.{World}

-- A step that, once it returned, returns the same in every later state and changes nothing there.
pub record Idem {A : Type 0} (p : Call A) : Type 0 where
  pub later : {w w' : World} {a : A} → p w ≡ (ok a, w') → Later w w'
  pub again :
      {w w' : World} {a : A} (w'' : World) → p w ≡ (ok a, w') → Later w' w'' → p w'' ≡ (ok a, w'')

-- the steps of a chain that returned
pub chain-ok :
    {A B : Type 0} (p : Call A) (f : A → Call B) (w w' : World) (b : B)
    → chain p f w ≡ (ok b, w')
    → (a : A) × (v : World) × (p w ≡ (ok a, v)) × (f a v ≡ (ok b, w'))
chain-ok p f w w' b h = go (p w) refl
  where
    go :
        (r : Outcome _ × World)
        → p w ≡ r
        → (a : _) × (v : World) × (p w ≡ (ok a, v)) × (f a v ≡ (ok b, w'))
    go (ok a, v) e = (a, v, e, rw e at h)
    go (fail x, v) e = absurd (ground (arith, rw e at h))

pub Idem-chain :
    {A B : Type 0} (p : Call A) (f : A → Call B)
    → Idem p
    → ((a : A) → Idem (f a))
    → Idem (chain p f)
Idem-chain p f i j = record {
  later = λ h.
      let (a, v, first, second) = chain-ok p f _ _ _ h in
      Later-trans (i.later first) ((j a).later second);
  again = λ w'' h l.
      let (a, v, first, second) = chain-ok p f _ _ _ h in
      let before = Later-trans ((j a).later second) l in
      rw (i.again w'' first before) ((j a).again w'' second l);
}

pub Idem-return : {A : Type 0} (x : A) → Idem (λ w. (ok x, w))
Idem-return x = record {
  later = λ {w} h. subst (Later w) (ap (λ r. r.1) h) (Later-refl w);
  again = λ w'' h l. ap (λ o. (o, w'')) (ap (λ r. r.0) h);
}

pub Idem-for_each :
    {A : Type 0} (xs : List A) (f : A → Call (Unit {0}))
    → ((x : A) → Idem (f x))
    → Idem (for_each xs f)
Idem-for_each [] f i = Idem-return tt
Idem-for_each (x ∷ xs) f i =
    Idem-chain (f x) (λ done. for_each xs f) (i x) (λ done. Idem-for_each xs f i)

refused :
    {A : Type 0} {a : A} {e : Error} {v w : World}
    → Path (Outcome A × World) (fail e, v) (ok a, w)
    → ⊥
refused h = ground (arith, ap (λ r. r.0) h)

value_or : {A : Type 0} → A → Outcome A → A
value_or d (ok a) = a
value_or d (fail e) = d

-- two results that are the same
returns :
    {A : Type 0} {a b : A} {v w : World}
    → Path (Outcome A × World) (ok a, v) (ok b, w)
    → (a ≡ b) × (v ≡ w)
unfolding value_or
returns {a} h = (ap (λ r. value_or a r.0) h, ap (λ r. r.1) h)

-- What one call of `get_or_create` comes to.
module _ {A : Type 0} (q : Lookup A) where
  -- the row that is found stays found
  abbrev pub Persists : Type 0
  Persists =
      (w w' : World) (a : A)
      → Later w w'
      → select q.is_found (q.rows w) ≡ a ∷ []
      → select q.is_found (q.rows w') ≡ a ∷ []

  -- a call that returned: the row was there, or it was inserted
  pub data Fetched (w w' : World) (a : A) : Type 0 where
    there : select q.is_found (q.rows w) ≡ a ∷ [] → w' ≡ w → Fetched w w' a
    inserted :
        select q.is_found (q.rows w) ≡ []
        → a ≡ q.new_row w
        → w' ≡ q.insert (q.new_row w) w
        → Fetched w w' a

  -- where the row is found, the call returns it and changes nothing
  pub fetch_there :
      (w : World) (a : A) → select q.is_found (q.rows w) ≡ a ∷ [] → fetch q w ≡ (ok a, w)
  unfolding fetch get_or_create_row
  fetch_there w a e = rw e refl

  fetch_new :
      (w : World)
      → select q.is_found (q.rows w) ≡ []
      → exists_where q.clashes (q.rows w) ≡ false
      → fetch q w ≡ (ok (q.new_row w), q.insert (q.new_row w) w)
  unfolding fetch get_or_create_row
  fetch_new w e good = rw (e, good) refl

  fetch_refused :
      (w : World)
      → select q.is_found (q.rows w) ≡ []
      → exists_where q.clashes (q.rows w) ≡ true
      → fetch q w ≡ (fail integrity_error, w)
  unfolding fetch get_or_create_row
  fetch_refused w e bad = rw (e, bad) refl

  fetch_many :
      (w : World) (a b : A) (rest : List A)
      → select q.is_found (q.rows w) ≡ a ∷ b ∷ rest
      → fetch q w ≡ (fail multiple_objects, w)
  unfolding fetch get_or_create_row
  fetch_many w a b rest e = rw e refl

  pub fetch_cases :
      (w w' : World) (a : A) (found : List A)
      → select q.is_found (q.rows w) ≡ found
      → fetch q w ≡ (ok a, w')
      → Fetched w w' a
  fetch_cases w w' a [] e h = elim (Bool-cases (exists_where q.clashes (q.rows w))) [
    | inl bad ↦ absurd (refused (sym (fetch_refused w e bad) ∙ h))
    | inr good ↦
        let (r, v) = returns (sym (fetch_new w e good) ∙ h) in Fetched.inserted e (sym r) (sym v)
  ]
  fetch_cases w w' a (b ∷ []) e h =
      let (r, v) = returns (sym (fetch_there w b e) ∙ h) in
      Fetched.there (e ∙ ap (λ x. x ∷ []) r) (sym v)
  fetch_cases w w' a (b ∷ c ∷ rest) e h = absurd (refused (sym (fetch_many w b c rest e) ∙ h))

  -- Fetching is idempotent.
  pub Idem-fetch : Inserts q → Persists → Idem (fetch q)
  Idem-fetch i persists = record {
    later = λ {w} {w'} {a} h. elim (fetch_cases w w' a (select q.is_found (q.rows w)) refl h) [
      | Fetched.there e same ↦ rw same (Later-refl w)
      | Fetched.inserted e row made ↦ rw made (i.later w e)
    ];
    again = λ {w} {w'} {a} w'' h l.
        fetch_there w'' a (elim (fetch_cases w w' a (select q.is_found (q.rows w)) refl h) [
          | Fetched.there e same ↦ persists w w'' a (subst (λ v. Later v w'') same l) e
          | Fetched.inserted e row made ↦ persists w' w'' a l (
              ap (λ v. select q.is_found (q.rows v)) made
              ∙ i.found w e
              ∙ ap (λ x. x ∷ []) (sym row))
        ]);
  }
