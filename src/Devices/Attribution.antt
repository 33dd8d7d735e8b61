-- ===== src/Devices/Attribution.antt =====
-- Who is named by the audit entry of a status change, and when there is one.
use robotics_io_t_smart_auto.Base.{
  ℕ, String, ◌≡◌, refl, ap, ◌∙◌, ◌≢◌, inl, inr, true, false, Option, none, some, List, [], ◌∷◌,
  ◌++◌, arith, Bool-cases, ok,
}
use robotics_io_t_smart_auto.Core.Middleware.{audit_context}
use robotics_io_t_smart_auto.Core.Models.{AuditLog}
use robotics_io_t_smart_auto.Core.Realtime.{broadcast}
use robotics_io_t_smart_auto.Core.Services.{Entry, audit_row, record_audit}
use robotics_io_t_smart_auto.Devices.Models.{DeviceStatus, same_status, same_status_iff, Device}
use robotics_io_t_smart_auto.Devices.Saves.{written}
use robotics_io_t_smart_auto.Devices.Signals.{
  DeviceField, previous_status, change_entry, audit_change, push_state, on_device_saved,
  save_device,
}
use robotics_io_t_smart_auto.World.{World}

audit_logs-push_state : (d : Device) (w : World) → (push_state d w).audit_logs ≡ w.audit_logs
unfolding push_state broadcast
audit_logs-push_state d w = ground arith

audit_logs-record_audit :
    (e : Entry) (w : World) → (record_audit e w).audit_logs ≡ w.audit_logs ++ audit_row e w ∷ []
unfolding record_audit
audit_logs-record_audit e w = refl

module _ (d : Device) (fields : List DeviceField) (w : World) (prev : DeviceStatus)
    (known : previous_status d w ≡ some prev) where
  saved_logs :
      (save_device d fields w).audit_logs
      ≡ (audit_change d (some prev) (written d fields w)).audit_logs
  unfolding save_device on_device_saved
  saved_logs =
      audit_logs-push_state d (audit_change d (previous_status d w) (written d fields w))
      ∙ ap (λ o. (audit_change d o (written d fields w)).audit_logs) known

  quiet_logs : same_status prev d.status ≡ true → (save_device d fields w).audit_logs ≡ w.audit_logs
  unfolding audit_change
  quiet_logs same = saved_logs ∙ rw (same, audit_change) refl

  changed_logs :
      same_status prev d.status ≡ false
      → (save_device d fields w).audit_logs
        ≡ w.audit_logs ++ audit_row (change_entry d prev) (written d fields w) ∷ []
  unfolding audit_change
  changed_logs other =
      saved_logs
      ∙ rw (other, audit_change)
          (audit_logs-record_audit (change_entry d prev) (written d fields w))

-- Saving a stored device within a request writes one audit entry if the status changed, which names
-- the actor and the address of the request, and none if it did not; and after the request no actor
-- and no address are left for the next one.
pub audit_context-save_device :
    (actor : Option ℕ) (ip : Option String) (d : Device) (fields : List DeviceField) (w : World)
    (prev : DeviceStatus)
    → previous_status d w ≡ some prev
    → (prev ≡ d.status
        → (audit_context actor ip (λ v. (ok (tt {0}), save_device d fields v)) w).1.audit_logs
          ≡ w.audit_logs)
      × (prev ≢ d.status
          → (row : AuditLog) × ((audit_context actor ip
                (λ v. (ok (tt {0}), save_device d fields v))
                w).1.audit_logs
              ≡ w.audit_logs ++ row ∷ [])
            × (row.actor ≡ actor)
            × (row.ip_address ≡ ip)
            × (row.target_id ≡ some d.id))
      × ((audit_context actor ip (λ v. (ok (tt {0}), save_device d fields v)) w).1.actor ≡ none)
      × ((audit_context actor ip (λ v. (ok (tt {0}), save_device d fields v)) w).1.ip ≡ none)
unfolding audit_context previous_status
audit_context-save_device actor ip d fields w prev known =
    let v = record w { actor = actor; ip = ip } in
    (
      (λ same. quiet_logs d fields v prev known ((same_status_iff prev d.status).1 same)),
      (λ changed. elim (Bool-cases (same_status prev d.status)) [
        | inl same ↦ absurd (changed ((same_status_iff prev d.status).0 same))
        | inr other ↦ (
          audit_row (change_entry d prev) (written d fields v),
          changed_logs d fields v prev known other,
          refl,
          refl,
          refl,
        )
      ]),
      refl,
      refl,
    )
