-- ===== src/Core/Views.antt =====
-- healthcheck of apps/core/views.py: what the database and the cache answer, or that they raise.
use robotics_io_t_smart_auto.Base.{ℕ, Bool, false, ◌&&◌, if◌then◌else◌, Outcome, ok, fail}

pub record Health : Type 0 where
  pub database : Bool
  pub cache : Bool
  pub status : ℕ

abbrev pub probe : Outcome Bool → Bool
probe (ok b) = b
probe (fail e) = false

unfoldable pub healthcheck : Outcome Bool → Outcome Bool → Health
healthcheck database cache =
    let d = probe database in
    let c = probe cache in record { database = d; cache = c; status = if d && c then 200 else 503 }
