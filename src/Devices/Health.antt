-- ===== src/Devices/Health.antt =====
-- The health score and the expiry of commands.
use robotics_io_t_smart_auto.Base.{
  ℕ, ◌+◌, ◌≡◌, refl, Bool, true, false, List, [], ◌∷◌, arith, length, count_where, update_where,
  length-update, Float, finite, pos_inf, neg_inf, nan, whole, flt_lt, flt_eq,
}
use robotics_io_t_smart_auto.Devices.Models.{Device, CommandStatus, DeviceCommand}
use robotics_io_t_smart_auto.Devices.Tasks.{
  clamp_score, raw_score, compute_health_score, is_stale_command, expire, expire_stale_commands,
}
use robotics_io_t_smart_auto.World.{World}

clamp_within :
    (x : Float)
    → (flt_lt (clamp_score x) (whole 0) ≡ false)
      × (flt_lt (whole 100) (clamp_score x) ≡ false)
      × (flt_eq (clamp_score x) (clamp_score x) ≡ true)
clamp_within (finite z) = ground arith
clamp_within pos_inf = (refl, refl, refl)
clamp_within neg_inf = (refl, refl, refl)
clamp_within nan = (refl, refl, refl)

-- The health score of any device, also with an infinite or NaN battery level, is a number between
-- 0 and 100: not below 0, not above 100, and not NaN.
pub compute_health_score_within :
    (d : Device)
    → (flt_lt (compute_health_score d) (whole 0) ≡ false)
      × (flt_lt (whole 100) (compute_health_score d) ≡ false)
      × (flt_eq (compute_health_score d) (compute_health_score d) ≡ true)
unfolding compute_health_score
compute_health_score_within d = clamp_within (raw_score d)

abbrev pub is_expired_status : CommandStatus → Bool
is_expired_status CommandStatus.expired = true
is_expired_status _ = false

abbrev expired_count : List DeviceCommand → ℕ
expired_count = count_where (λ c. is_expired_status c.status)

expired_more :
    (now : ℕ) (cs : List DeviceCommand)
    → expired_count (update_where (is_stale_command now) (expire now) cs)
      ≡ expired_count cs + count_where (is_stale_command now) cs
unfolding is_stale_command
expired_more now [] = refl
expired_more now (c ∷ cs) = ground (arith, expired_more now cs)

no_stale_left :
    (now : ℕ) (cs : List DeviceCommand)
    → count_where (is_stale_command now) (update_where (is_stale_command now) (expire now) cs) ≡ 0
unfolding is_stale_command
no_stale_left now [] = refl
no_stale_left now (c ∷ cs) = ground (arith, no_stale_left now cs)

-- The expiry job leaves no pending command past its deadline; as many commands become EXPIRED as
-- it reports; no row is lost; and a second run at the same instant expires nothing.
pub expire_stale_commands_lem :
    (w : World)
    → (count_where (is_stale_command w.now) (expire_stale_commands w).1.commands ≡ 0)
      × (count_where (λ c. is_expired_status c.status) (expire_stale_commands w).1.commands
          ≡ count_where (λ c. is_expired_status c.status) w.commands + (expire_stale_commands w).0)
      × (length (expire_stale_commands w).1.commands ≡ length w.commands)
      × ((expire_stale_commands (expire_stale_commands w).1).0 ≡ 0)
unfolding expire_stale_commands
expire_stale_commands_lem w = (
  no_stale_left w.now w.commands,
  expired_more w.now w.commands,
  length-update (is_stale_command w.now) (expire w.now) w.commands,
  no_stale_left w.now w.commands,
)
