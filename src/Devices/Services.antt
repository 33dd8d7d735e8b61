-- ===== src/Devices/Services.antt =====
-- apps/devices/services.py: issuing a remote command, and advancing its lifecycle.
use robotics_io_t_smart_auto.Base.{
  ℕ, ◌+◌, String, false, Option, none, some, List, [], ◌∷◌, ◌++◌, str_eq, ◌==◌, if◌then◌else◌,
  get_or, seconds, concat, update_where, whole, flt_eq,
}
use robotics_io_t_smart_auto.Core.Json.{Json, Items, Fields}
use robotics_io_t_smart_auto.Core.Models.{new_base, touch, Action}
use robotics_io_t_smart_auto.Core.Realtime.{broadcast}
use robotics_io_t_smart_auto.Core.Services.{Entry, entry, record_audit}
use robotics_io_t_smart_auto.Devices.Models.{Device, CommandStatus, DeviceCommand}
use robotics_io_t_smart_auto.Mqtt.Topics.{command_topic}
use robotics_io_t_smart_auto.World.{Group, Payload, Publication, World}

abbrev pub default_command_ttl : ℕ
default_command_ttl = seconds 120

-- payload or {}
abbrev pub or_empty : Json → Json
or_empty Json.null = Json.obj Fields.end
or_empty (Json.bool false) = Json.obj Fields.end
or_empty (Json.num x) = if flt_eq x (whole 0) then Json.obj Fields.end else Json.num x
or_empty (Json.str s) = if str_eq s "" then Json.obj Fields.end else Json.str s
or_empty (Json.arr Items.nil) = Json.obj Fields.end
or_empty j = j

-- the row that dispatch_command creates
abbrev pub new_command : Device → String → Json → Option ℕ → ℕ → World → DeviceCommand
new_command device command payload actor ttl w = record {
  base = new_base w.next_id w.now;
  device_id = device.id;
  issued_by = actor;
  command = command;
  payload = or_empty payload;
  status = CommandStatus.queued;
  result = Json.obj Fields.end;
  error = "";
  sent_at = none;
  acked_at = none;
  completed_at = none;
  expires_at = some (w.now + ttl);
}

abbrev pub put_command : DeviceCommand → List DeviceCommand → List DeviceCommand
put_command cmd = update_where (λ c. c.id == cmd.id) (λ _. cmd)

-- publish_command of apps/mqtt/client.py
abbrev pub publication : Device → DeviceCommand → World → Publication
publication device cmd w = record {
  topic = command_topic w.base_topic device.serial;
  command_id = cmd.id;
  command = cmd.command;
  payload = cmd.payload;
}

-- the command after a publication, and after a failed one
abbrev pub sent_command : ℕ → DeviceCommand → DeviceCommand
sent_command now cmd = record cmd {
  base = touch now cmd.base;
  status = CommandStatus.sent;
  sent_at = some now;
}

abbrev pub kept_command : String → ℕ → DeviceCommand → DeviceCommand
kept_command exc now cmd = record cmd {
  base = touch now cmd.base;
  error = concat ("publish failed: " ∷ exc ∷ []);
}

-- the `try` block, by what the broker answers: SENT with its instant, or its error on a command
-- that stays QUEUED
unfoldable pub publish_with : Option String → Device → DeviceCommand → World → DeviceCommand × World
publish_with none device cmd w = (
  sent_command w.now cmd,
  record w {
    published = w.published ++ publication device cmd w ∷ [];
    commands = put_command (sent_command w.now cmd) w.commands;
  },
)
publish_with (some exc) device cmd w = (
  kept_command exc w.now cmd,
  record w { commands = put_command (kept_command exc w.now cmd) w.commands },
)

unfoldable pub try_publish : Device → DeviceCommand → World → DeviceCommand × World
unfolding publish_with
try_publish device cmd w = publish_with w.broker_error device cmd w

abbrev pub command_entry : Device → DeviceCommand → Json → Option ℕ → Entry
command_entry device cmd payload actor =
    let e =
      entry Action.command "device" (some device.id)
        (concat ("Command '" ∷ cmd.command ∷ "' issued" ∷ [])) in
    record e {
      metadata = Json.obj (
          Fields.field "command_id" (Json.num (whole cmd.id))
            (Fields.field "payload" (or_empty payload) Fields.end));
      actor = actor;
    }

-- the broadcast and the audit entry
unfoldable pub report_command : Device → DeviceCommand → Json → Option ℕ → World → World
report_command device cmd payload actor w = record_audit (command_entry device cmd payload actor) (
    broadcast (Group.device_group device.id) "device.command"
      (Payload.device_command cmd.id device.id cmd.command cmd.status) w)

-- dispatch_command
unfoldable pub dispatch_command :
    Device → String → Json → Option ℕ → ℕ → World → DeviceCommand × World
unfolding try_publish report_command
dispatch_command device command payload actor ttl w =
    let cmd = new_command device command payload actor ttl w in
    let created = record w { commands = w.commands ++ cmd ∷ []; next_id = w.next_id + 1 } in
    let (cmd', w') = try_publish device cmd created in
    (cmd', report_command device cmd' payload actor w')

-- the instants that transition_command stamps
abbrev pub stamp : CommandStatus → ℕ → DeviceCommand → DeviceCommand
stamp CommandStatus.acked now cmd = record cmd { acked_at = some now }
stamp CommandStatus.completed now cmd = record cmd { completed_at = some now }
stamp CommandStatus.failed now cmd = record cmd { completed_at = some now }
stamp _ now cmd = cmd

-- the command that transition_command saves
unfoldable pub advanced : CommandStatus → Option Json → String → ℕ → DeviceCommand → DeviceCommand
advanced status result error now cmd =
    let stamped = stamp status now (record cmd { base = touch now cmd.base; status = status }) in
    record stamped {
      result = get_or result stamped.result;
      error = if str_eq error "" then stamped.error else error;
    }

-- transition_command
unfoldable pub transition_command :
    DeviceCommand → CommandStatus → Option Json → String → World → World
unfolding advanced
transition_command cmd status result error w =
    broadcast (Group.device_group cmd.device_id) "device.command"
      (Payload.device_command cmd.id cmd.device_id cmd.command status)
      (record w { commands = put_command (advanced status result error w.now cmd) w.commands })
