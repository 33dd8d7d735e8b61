-- ===== src/Mqtt/Results.antt =====
-- Command results from devices: the statuses that `handle_result` gives, and their instants.
use robotics_io_t_smart_auto.Base.{
  ℕ, String, inl, inr, Bool, true, false, ◌&&◌, Option, none, some, ◌==◌, if◌then◌else◌, Bool-cases,
  Option-cases, lowers_to, first?, All-first,
}
use robotics_io_t_smart_auto.Alerts.Services.Notify.{is_alive}
use robotics_io_t_smart_auto.Core.Codec.{Codec}
use robotics_io_t_smart_auto.Core.Json.{Json, Fields, get}
use robotics_io_t_smart_auto.Devices.Lifecycle.{
  IsStamped, AllStamped, IsAnswer, transition_command-AllStamped,
}
use robotics_io_t_smart_auto.Devices.Models.{CommandStatus}
use robotics_io_t_smart_auto.Mqtt.Handlers.{
  result_status, status_text, result_of, error_of, is_falsy, complete, apply_result, handle_result,
}
use robotics_io_t_smart_auto.World.{World}

if-IsAnswer :
    (b : Bool) (s t : CommandStatus) → IsAnswer s → IsAnswer t → IsAnswer (if b then s else t)
if-IsAnswer true s t h k = h
if-IsAnswer false s t h k = k

-- Every status text, known or not, gives ACKED, COMPLETED or FAILED.
result_status-IsAnswer : (codec : Codec) (s : String) → IsAnswer (result_status codec s)
unfolding result_status
result_status-IsAnswer codec s = if-IsAnswer (lowers_to s "ack") _ _ IsAnswer.acked (
    if-IsAnswer (lowers_to s "acknowledged") _ _ IsAnswer.acked (
      if-IsAnswer (lowers_to s "ok") _ _ IsAnswer.completed (
        if-IsAnswer (lowers_to s "completed") _ _ IsAnswer.completed (
          if-IsAnswer (lowers_to s "done") _ _ IsAnswer.completed (
            if-IsAnswer (lowers_to s "error") _ _ IsAnswer.failed
              (if-IsAnswer (lowers_to s "failed") _ _ IsAnswer.failed IsAnswer.acked))))))

module _ (codec : Codec) where
  complete-AllStamped :
      (id : ℕ) (fs : Fields) (w : World) → AllStamped w → AllStamped (complete codec id fs w).1
  complete-AllStamped id fs w all =
      elim (Option-cases (first? (λ c. is_alive c.base && c.id == id) w.commands)) [
        | inl absent ↦ rw (absent, complete) all
        | inr (cmd, found) ↦
            rw (found, complete)
              (transition_command-AllStamped cmd (result_status codec (status_text codec fs))
                (result_of codec fs) (error_of codec fs) w
                (result_status-IsAnswer codec (status_text codec fs))
                (All-first IsStamped (λ c. is_alive c.base && c.id == id) w.commands cmd all found)
                all)
      ]

  apply_result-AllStamped :
      (fs : Fields) (w : World) → AllStamped w → AllStamped (apply_result codec fs w).1
  apply_result-AllStamped fs w all = elim (Option-cases (get "command_id" fs)) [
    | inl absent ↦ rw (absent, apply_result) all
    | inr (j, given) ↦ elim (Bool-cases (is_falsy codec j)) [
      | inl empty ↦ rw (given, apply_result) (rw empty all)
      | inr real ↦ elim (Option-cases (codec.uuid_column j)) [
        | inl bad ↦ rw (given, apply_result) (rw real (rw bad all))
        | inr (id, good) ↦
            rw (given, apply_result) (rw real (rw good (complete-AllStamped id fs w all)))
      ]
    ]
  ]

  -- Whatever a device sends on a results topic, every command keeps the instants of its status.
  pub handle_result-AllStamped :
      (topic : String) (message : Option Json) (w : World)
      → AllStamped w
      → AllStamped (handle_result codec topic message w).1
  unfolding handle_result
  handle_result-AllStamped topic none w all = all
  handle_result-AllStamped topic (some (Json.obj fs)) w all = apply_result-AllStamped fs w all
  handle_result-AllStamped topic (some _) w all = all
