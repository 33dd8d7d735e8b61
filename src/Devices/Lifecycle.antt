-- ===== src/Devices/Lifecycle.antt =====
-- The lifecycle of a command: the stamps that belong to a status, and the statuses that may follow.
use robotics_io_t_smart_auto.Base.{
  ℕ, ◌+◌, String, ◌≡◌, refl, ◌∙◌, true, Option, none, some, [], ◌∷◌, ◌++◌, ◌==◌, is_some, All,
  All-append, All-update,
}
use robotics_io_t_smart_auto.Core.Json.{Json}
use robotics_io_t_smart_auto.Core.Realtime.{broadcast}
use robotics_io_t_smart_auto.Devices.Models.{Device, CommandStatus, DeviceCommand}
use robotics_io_t_smart_auto.Devices.Services.{
  new_command, put_command, sent_command, kept_command, publish_with, try_publish, report_command,
  dispatch_command, advanced, transition_command,
}
use robotics_io_t_smart_auto.Devices.Tasks.{is_stale_command, expire, expire_stale_commands}
use robotics_io_t_smart_auto.Frame.{broadcast-Quiet, record_audit-Quiet}
use robotics_io_t_smart_auto.World.{Group, Payload, World}

-- Every status that an event gave comes with the instant of that event.
pub record IsStamped (c : DeviceCommand) : Type 0 where
  pub sent : c.status ≡ CommandStatus.sent → is_some c.sent_at ≡ true
  pub acked : c.status ≡ CommandStatus.acked → is_some c.acked_at ≡ true
  pub completed : c.status ≡ CommandStatus.completed → is_some c.completed_at ≡ true
  pub failed : c.status ≡ CommandStatus.failed → is_some c.completed_at ≡ true
  pub expires : is_some c.expires_at ≡ true

abbrev pub AllStamped : World → Type 0
AllStamped w = All IsStamped w.commands

-- the statuses that a device's answer gives
pub data IsAnswer : CommandStatus → Type 0 where
  acked : IsAnswer CommandStatus.acked
  completed : IsAnswer CommandStatus.completed
  failed : IsAnswer CommandStatus.failed

-- An answer stamps its own instant.
advanced-IsStamped :
    (s : CommandStatus) (result : Option Json) (error : String) (now : ℕ) (c : DeviceCommand)
    → IsAnswer s
    → IsStamped c
    → IsStamped (advanced s result error now c)
unfolding advanced
advanced-IsStamped CommandStatus.acked result error now c a h = record {
  sent = λ e. cc;
  acked = λ e. refl;
  completed = λ e. cc;
  failed = λ e. cc;
  expires = h.expires;
}
advanced-IsStamped CommandStatus.completed result error now c a h = record {
  sent = λ e. cc;
  acked = λ e. cc;
  completed = λ e. refl;
  failed = λ e. cc;
  expires = h.expires;
}
advanced-IsStamped CommandStatus.failed result error now c a h = record {
  sent = λ e. cc;
  acked = λ e. cc;
  completed = λ e. cc;
  failed = λ e. refl;
  expires = h.expires;
}
advanced-IsStamped CommandStatus.queued result error now c a h = elim a [ ]
advanced-IsStamped CommandStatus.sent result error now c a h = elim a [ ]
advanced-IsStamped CommandStatus.expired result error now c a h = elim a [ ]

commands-broadcast :
    (g : Group) (e : String) (p : Payload) (w : World) → (broadcast g e p w).commands ≡ w.commands
commands-broadcast g e p w = (broadcast-Quiet g e p w).tables.commands

commands-transition :
    (cmd : DeviceCommand) (s : CommandStatus) (result : Option Json) (error : String) (w : World)
    → (transition_command cmd s result error w).commands
      ≡ put_command (advanced s result error w.now cmd) w.commands
unfolding transition_command
commands-transition cmd s result error w = commands-broadcast _ _ _ _

-- After an answer every command still has the instants of its status.
pub transition_command-AllStamped :
    (cmd : DeviceCommand) (s : CommandStatus) (result : Option Json) (error : String) (w : World)
    → IsAnswer s
    → IsStamped cmd
    → AllStamped w
    → AllStamped (transition_command cmd s result error w)
transition_command-AllStamped cmd s result error w a one all =
    let new = advanced s result error w.now cmd in
    rw (commands-transition cmd s result error w) (
      All-update IsStamped (λ c. c.id == new.id) (λ _. new) w.commands
        (λ c _ _. advanced-IsStamped s result error w.now cmd a one) all)

-- Expiring stale commands keeps the instants.
pub expire_stale_commands-AllStamped :
    (w : World) → AllStamped w → AllStamped (expire_stale_commands w).1
unfolding expire_stale_commands
expire_stale_commands-AllStamped w all =
    All-update IsStamped (is_stale_command w.now) (expire w.now) w.commands
      (λ c _ h. record {
        sent = λ e. cc;
        acked = λ e. cc;
        completed = λ e. cc;
        failed = λ e. cc;
        expires = h.expires;
      })
      all

publish_with-AllStamped :
    (answer : Option String) (device : Device) (cmd : DeviceCommand) (w : World)
    → cmd.status ≡ CommandStatus.queued
    → IsStamped cmd
    → AllStamped w
    → AllStamped (publish_with answer device cmd w).1
unfolding publish_with
publish_with-AllStamped none device cmd w q h all =
    All-update IsStamped (λ c. c.id == cmd.id) (λ _. sent_command w.now cmd) w.commands
      (λ _ _ _. record {
        sent = λ e. refl;
        acked = λ e. cc;
        completed = λ e. cc;
        failed = λ e. cc;
        expires = h.expires;
      })
      all
publish_with-AllStamped (some exc) device cmd w q h all =
    All-update IsStamped (λ c. c.id == cmd.id) (λ _. kept_command exc w.now cmd) w.commands
      (λ _ _ _. record {
        sent = λ e. cc;
        acked = λ e. cc;
        completed = λ e. cc;
        failed = λ e. cc;
        expires = h.expires;
      })
      all

module _ (device : Device) (command : String) (payload : Json) (actor : Option ℕ) (ttl : ℕ)
    (w : World) where
  abbrev fresh_command : DeviceCommand
  fresh_command = new_command device command payload actor ttl w

  abbrev created : World
  created = record w { commands = w.commands ++ fresh_command ∷ []; next_id = w.next_id + 1 }

  new_command-IsStamped : IsStamped fresh_command
  new_command-IsStamped = record {
    sent = λ e. cc;
    acked = λ e. cc;
    completed = λ e. cc;
    failed = λ e. cc;
    expires = refl;
  }

  abbrev issued : DeviceCommand × World
  issued = dispatch_command device command payload actor ttl w

  commands-dispatch : issued.1.commands ≡ (try_publish device fresh_command created).1.commands
  unfolding dispatch_command report_command
  commands-dispatch = (record_audit-Quiet _ _).tables.commands ∙ commands-broadcast _ _ _ _

  command-dispatch : issued.0 ≡ (try_publish device fresh_command created).0
  unfolding dispatch_command
  command-dispatch = refl

  -- Issuing a command keeps the instants: the new one is SENT with its instant, or still QUEUED.
  pub dispatch_command-AllStamped : AllStamped w → AllStamped issued.1
  unfolding try_publish
  dispatch_command-AllStamped all = rw commands-dispatch (
      publish_with-AllStamped w.broker_error device fresh_command created refl new_command-IsStamped
        (All-append IsStamped w.commands (fresh_command ∷ []) all (new_command-IsStamped, tt)))
