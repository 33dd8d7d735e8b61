-- ===== src/Devices/Issue.antt =====
-- Issuing a command: what is stored, what goes to the broker, and what happens where it is down.
use robotics_io_t_smart_auto.Base.{
  ℕ, ◌+◌, ◌<◌, String, ◌≡◌, refl, ap, Option, none, some, List, [], ◌∷◌, ◌++◌, arith, ◌==◌, ==_refl,
  or_else, concat, first?, All,
}
use robotics_io_t_smart_auto.Core.Json.{Json}
use robotics_io_t_smart_auto.Core.Models.{Action, AuditLog}
use robotics_io_t_smart_auto.Core.Realtime.{broadcast}
use robotics_io_t_smart_auto.Core.Services.{audit_row, record_audit}
use robotics_io_t_smart_auto.Devices.Models.{Device, CommandStatus, DeviceCommand}
use robotics_io_t_smart_auto.Devices.Services.{
  new_command, put_command, publication, sent_command, kept_command, publish_with, try_publish,
  command_entry, report_command, dispatch_command,
}
use robotics_io_t_smart_auto.World.{World}

-- the keys of the commands are below the next key
abbrev pub FreshCommands : World → Type 0
FreshCommands w = All (λ c. c.id < w.next_id) w.commands

first-put :
    (cmd new : DeviceCommand) (cs : List DeviceCommand)
    → new.id ≡ cmd.id
    → All (λ c. c.id < cmd.id) cs
    → first? (λ c. c.id == cmd.id) (put_command new (cs ++ cmd ∷ [])) ≡ some new
first-put cmd new [] e h = ground (arith, ==_refl cmd.id)
first-put cmd new (c ∷ cs) e h = ground (arith, first-put cmd new cs e h.1)

module _ (device : Device) (command : String) (payload : Json) (actor : Option ℕ) (ttl : ℕ)
    (w : World) where
  abbrev result : DeviceCommand × World
  result = dispatch_command device command payload actor ttl w

  abbrev first_row : DeviceCommand
  first_row = new_command device command payload actor ttl w

  published-report :
      (cmd : DeviceCommand) (v : World)
      → (report_command device cmd payload actor v).published ≡ v.published
  unfolding report_command record_audit broadcast
  published-report cmd v = ground arith

  audit_logs-report :
      (cmd : DeviceCommand) (v : World)
      → (report_command device cmd payload actor v).audit_logs
        ≡ v.audit_logs ++ audit_row (command_entry device cmd payload actor) v ∷ []
  unfolding report_command record_audit broadcast
  audit_logs-report cmd v = ground arith

  commands-report :
      (cmd : DeviceCommand) (v : World)
      → (report_command device cmd payload actor v).commands ≡ v.commands
  unfolding report_command record_audit broadcast
  commands-report cmd v = ground arith

  abbrev stored : World
  stored = record w { commands = w.commands ++ first_row ∷ []; next_id = w.next_id + 1 }

  -- the call, by the broker's answer
  abbrev answered : Option String → DeviceCommand × World
  answered answer =
      let (cmd, v) = publish_with answer device first_row stored in
      (cmd, report_command device cmd payload actor v)

  result_lem : (answer : Option String) → w.broker_error ≡ answer → result ≡ answered answer
  unfolding dispatch_command try_publish
  result_lem answer e = ap answered e

  -- Where the broker takes the message and the new key is larger than those in use, the command
  -- is returned as SENT at this instant, the table holds the returned command under its key, and
  -- exactly one message with the command is published, on the command topic of the device.
  pub dispatch_command-sent :
      FreshCommands w
      → w.broker_error ≡ none
      → (result.0.status ≡ CommandStatus.sent)
        × (result.0.sent_at ≡ some w.now)
        × (first? (λ c. c.id == w.next_id) result.1.commands ≡ some result.0)
        × (result.1.published ≡ w.published ++ publication device first_row w ∷ [])
  unfolding publish_with
  dispatch_command-sent fresh up = rw (result_lem none up) (
    refl,
    refl,
    rw (commands-report (answered none).0 (publish_with none device first_row stored).1)
        (first-put first_row (sent_command w.now first_row) w.commands refl fresh),
    published-report (answered none).0 (publish_with none device first_row stored).1,
  )

  -- Where the broker fails, nothing is published, and the command is still stored and returned:
  -- QUEUED, never sent, with the broker's error.
  pub dispatch_command-degraded :
      (exc : String)
      → FreshCommands w
      → w.broker_error ≡ some exc
      → (result.0.status ≡ CommandStatus.queued)
        × (result.0.sent_at ≡ none)
        × (result.0.error ≡ concat ("publish failed: " ∷ exc ∷ []))
        × (first? (λ c. c.id == w.next_id) result.1.commands ≡ some result.0)
        × (result.1.published ≡ w.published)
  unfolding publish_with
  dispatch_command-degraded exc fresh down =
      let failed = answered (some exc) in
      rw (result_lem (some exc) down) (
        refl,
        refl,
        refl,
        rw (commands-report failed.0 (publish_with (some exc) device first_row stored).1)
            (first-put first_row (kept_command exc w.now first_row) w.commands refl fresh),
        published-report failed.0 (publish_with (some exc) device first_row stored).1,
      )

  audited :
      (answer : Option String)
      → (row : AuditLog) × ((answered answer).1.audit_logs ≡ w.audit_logs ++ row ∷ [])
        × (row.action ≡ Action.command)
        × (row.target_id ≡ some device.id)
        × (row.actor ≡ or_else actor w.actor)
  unfolding publish_with
  audited none =
      let v = (publish_with none device first_row stored).1 in
      (
        audit_row (command_entry device (answered none).0 payload actor) v,
        audit_logs-report (answered none).0 v,
        refl,
        refl,
        refl,
      )
  audited (some exc) =
      let v = (publish_with (some exc) device first_row stored).1 in
      (
        audit_row (command_entry device (answered (some exc)).0 payload actor) v,
        audit_logs-report (answered (some exc)).0 v,
        refl,
        refl,
        refl,
      )

  -- Whatever the broker does, exactly one audit entry is written: a command entry on the device,
  -- by the given actor or else by the actor of the request.
  pub dispatch_command_audited :
      (row : AuditLog) × (result.1.audit_logs ≡ w.audit_logs ++ row ∷ [])
      × (row.action ≡ Action.command)
      × (row.target_id ≡ some device.id)
      × (row.actor ≡ or_else actor w.actor)
  dispatch_command_audited = rw (result_lem w.broker_error refl) (audited w.broker_error)
