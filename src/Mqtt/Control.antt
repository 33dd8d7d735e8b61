-- ===== src/Mqtt/Control.antt =====
-- Remote control through apps/devices/services.py, the simulated device and apps/mqtt: an order, the
-- answer, and the command afterwards.
use Prim.Native.String.{◌++◌ as ◌<>◌}
use mathlib.Core.List.{◌++◌}
use robotics_io_t_smart_auto.Base.{
  ℕ, String, ◌≡◌, refl, sym, ap, ◌∙◌, subst, inl, inr, true, false, ◌&&◌, Option, none, some, List,
  [], ◌∷◌, arith, str_eq, ◌==◌, ==_iff, ==_refl, Bool-cases, first?, update_where, first-holds,
}
use robotics_io_t_smart_auto.Alerts.Services.Notify.{is_alive}
use robotics_io_t_smart_auto.Core.Codec.{Codec}
use robotics_io_t_smart_auto.Core.Json.{Json, Fields}
use robotics_io_t_smart_auto.Core.Realtime.{broadcast}
use robotics_io_t_smart_auto.Devices.Issue.{FreshCommands, dispatch_command-sent}
use robotics_io_t_smart_auto.Devices.Models.{Device, CommandStatus, DeviceCommand}
use robotics_io_t_smart_auto.Devices.Services.{
  new_command, put_command, publication, publish_with, try_publish, dispatch_command, advanced,
  transition_command,
}
use robotics_io_t_smart_auto.Mqtt.Handlers.{
  result_status, complete, apply_result, handle_result, dispatch, on_message,
}
use robotics_io_t_smart_auto.Mqtt.Leaves.{ends_with-leaf, ends_with-other, topic_leaf}
use robotics_io_t_smart_auto.Mqtt.Simulator.{
  command_message, command_id_of, answer_fields, on_command,
}
use robotics_io_t_smart_auto.Mqtt.Topics.{device_topic, ends_with}
use robotics_io_t_smart_auto.World.{Publication, World}

-- the dispatcher hands it to `handle_result`
dispatch-results :
    (codec : Codec) (base serial : String) (message : Option Json) (w : World)
    → dispatch codec (device_topic base serial "results") message w
      ≡ handle_result codec (device_topic base serial "results") message w
unfolding dispatch ends_with
dispatch-results codec base serial message w =
    let x = base <> ("/devices/" <> serial) in
    let topic = topic_leaf base serial "results" in
    let not_telemetry : ends_with "/telemetry" (device_topic base serial "results") ≡ false =
      ap (ends_with "/telemetry") topic
      ∙ ends_with-other "/results" "/telemetry" x refl refl refl in
    let not_status : ends_with "/status" (device_topic base serial "results") ≡ false =
      ap (ends_with "/status") topic ∙ ends_with-other "/results" "/status" x refl refl refl in
    let results : ends_with "/results" (device_topic base serial "results") ≡ true =
      ap (ends_with "/results") topic ∙ ends_with-leaf "/results" x refl in
    rw (not_telemetry, not_status, results) refl

-- the live row of a key is the row of the key, where that one is live
first-live :
    (id : ℕ) (cs : List DeviceCommand) (cmd : DeviceCommand)
    → first? (λ c. c.id == id) cs ≡ some cmd
    → is_alive cmd.base ≡ true
    → first? (λ c. is_alive c.base && c.id == id) cs ≡ some cmd
first-live id [] cmd h live = absurd (ground arith)
first-live id (c ∷ cs) cmd h live = elim (Bool-cases (c.id == id)) [
  | inl mine ↦
      let same : c ≡ cmd = ground (arith, rw mine at h) in
      rw (same, live, ap (λ x. x.id == id) (sym same) ∙ mine) refl
  | inr other ↦ ground (arith, other, first-live id cs cmd (rw other at h) live)
]

-- the row of a key after it was replaced
first-replaced :
    (id : ℕ) (cs : List DeviceCommand) (cmd new : DeviceCommand)
    → first? (λ c. c.id == id) cs ≡ some cmd
    → new.id ≡ id
    → first? (λ c. c.id == id) (update_where (λ c. c.id == id) (λ _. new) cs) ≡ some new
first-replaced id [] cmd new h e = absurd (ground arith)
first-replaced id (c ∷ cs) cmd new h e = elim (Bool-cases (c.id == id)) [
  | inl mine ↦ rw mine (rw (ap (λ i. i == id) e ∙ ==_refl id) refl)
  | inr other ↦ rw other (rw other (first-replaced id cs cmd new (rw other at h) e))
]

-- The row of a command after the answer of the simulated device.
pub record Completed (now : ℕ) (sent : DeviceCommand) (c : DeviceCommand) : Type 0 where
  pub status : c.status ≡ CommandStatus.completed
  pub completed_at : c.completed_at ≡ some now
  pub result : c.result ≡ Json.obj (Fields.field "ok" (Json.bool true) Fields.end)
  pub same_order :
      (c.device_id ≡ sent.device_id)
      × (c.command ≡ sent.command)
      × (c.payload ≡ sent.payload)
      × (c.issued_by ≡ sent.issued_by)
      × (c.sent_at ≡ sent.sent_at)
      × (c.expires_at ≡ sent.expires_at)

module _ (codec : Codec) (uuid_text : ℕ → String) where
  -- a key that is read back as it was written, and is no empty text
  pub record ReadsKeys : Type 0 where
    pub read_back : (id : ℕ) → codec.uuid_column (Json.str (uuid_text id)) ≡ some id
    pub written : (id : ℕ) → str_eq (uuid_text id) "" ≡ false

  -- the answer that the command gets
  abbrev answer_of : Publication → Fields
  answer_of p = answer_fields (command_id_of (command_message uuid_text p))

  -- what `transition_command` makes of the row
  abbrev completed_row : ℕ → DeviceCommand → DeviceCommand
  completed_row now cmd =
      advanced CommandStatus.completed
        (some (Json.obj (Fields.field "ok" (Json.bool true) Fields.end))) "" now cmd

  completed_row-Completed :
      (now : ℕ) (cmd : DeviceCommand) → Completed now cmd (completed_row now cmd)
  unfolding advanced
  completed_row-Completed now cmd = record {
    status = refl;
    completed_at = refl;
    result = refl;
    same_order = (refl, refl, refl, refl, refl, refl);
  }

  commands-transition :
      (cmd : DeviceCommand) (status : CommandStatus) (result : Option Json) (error : String)
      (w : World)
      → (transition_command cmd status result error w).commands
        ≡ put_command (advanced status result error w.now cmd) w.commands
  unfolding transition_command broadcast
  commands-transition cmd status result error w = ground arith

  -- the answer to a message, for a command that is stored
  answer_lem :
      (p : Publication) (cmd : DeviceCommand) (w : World)
      → ReadsKeys
      → first? (λ c. c.id == p.command_id) w.commands ≡ some cmd
      → is_alive cmd.base ≡ true
      → (apply_result codec (answer_of p) w).1
        ≡ transition_command cmd CommandStatus.completed
            (some (Json.obj (Fields.field "ok" (Json.bool true) Fields.end)))
            ""
            w
  unfolding result_status
  answer_lem p cmd w reads found live =
      rw (reads.written p.command_id, reads.read_back p.command_id)
        (rw (complete, first-live p.command_id w.commands cmd found live) refl)

  answer-Completed :
      (p : Publication) (cmd : DeviceCommand) (w : World)
      → ReadsKeys
      → first? (λ c. c.id == p.command_id) w.commands ≡ some cmd
      → is_alive cmd.base ≡ true
      → first? (λ c. c.id == p.command_id) (apply_result codec (answer_of p) w).1.commands
        ≡ some (completed_row w.now cmd)
  unfolding advanced
  answer-Completed p cmd w reads found live =
      let mine : cmd.id ≡ p.command_id =
        (==_iff cmd.id p.command_id).0
          (first-holds (λ c. c.id == p.command_id) w.commands cmd found) in
      ap (λ v. first? (λ c. c.id == p.command_id) v.commands) (answer_lem p cmd w reads found live)
      ∙ ap (first? (λ c. c.id == p.command_id)) (commands-transition cmd _ _ _ w)
      ∙ subst
          (λ i.
            first? (λ c. c.id == p.command_id)
              (update_where (λ c. c.id == i) (λ _. completed_row w.now cmd) w.commands)
            ≡ some (completed_row w.now cmd))
          (sym mine)
          (first-replaced p.command_id w.commands cmd (completed_row w.now cmd) found mine)

module _ (codec : Codec) (uuid_text : ℕ → String) (device : Device) (command : String)
    (payload : Json) (actor : Option ℕ) (ttl : ℕ) (w : World) where
  -- the order, and the message that it publishes
  abbrev pub order_message : Publication
  order_message = publication device (new_command device command payload actor ttl w) w

  abbrev pub ordered : DeviceCommand × World
  ordered = dispatch_command device command payload actor ttl w

  -- the device's answer to it, and the state after the bridge took it in at the instant `t`
  abbrev device_answer : String × Json
  device_answer = on_command w.base_topic device.serial (command_message uuid_text order_message)

  abbrev pub answered_at : ℕ → World
  answered_at t =
      on_message codec device_answer.0 (some device_answer.1) (record ordered.1 { now = t })

  ordered_alive :
      (answer : Option String) → w.broker_error ≡ answer → is_alive ordered.0.base ≡ true
  unfolding dispatch_command try_publish publish_with
  ordered_alive none e = rw e refl
  ordered_alive (some exc) e = rw e refl

  -- Remote control comes round: where the broker takes the message, the new key is larger than those
  -- in use, and a key is read back as it was written, the order publishes one message, and once the
  -- simulated device has answered it and the bridge has taken the answer in, at whatever instant,
  -- the stored command is COMPLETED at that instant with the device's result, and it is still the
  -- order that was sent: the same device, command, payload, user, instant of sending and deadline.
  pub control-Completed :
      (t : ℕ)
      → ReadsKeys codec uuid_text
      → FreshCommands w
      → w.broker_error ≡ none
      → (ordered.1.published ≡ w.published ++ order_message ∷ [])
        × (c : DeviceCommand) × (first? (λ c. c.id == w.next_id) (answered_at t).commands ≡ some c)
        × Completed t ordered.0 c
  unfolding on_message handle_result on_command
  control-Completed t reads fresh up =
      let (status, sent_at, stored, published) =
        dispatch_command-sent device command payload actor ttl w fresh up in
      let later = record ordered.1 { now = t } in
      let same = dispatch-results codec w.base_topic device.serial (some device_answer.1) later in
      (
        published,
        completed_row codec uuid_text t ordered.0,
        ap (λ r. first? (λ c. c.id == w.next_id) r.1.commands) same
            ∙ answer-Completed codec uuid_text order_message ordered.0 later reads stored
                (ordered_alive w.broker_error refl),
        completed_row-Completed codec uuid_text t ordered.0,
      )
