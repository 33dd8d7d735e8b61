-- ===== src/Mqtt/Topics.antt =====
-- apps/mqtt/topics.py: the topic scheme. The base topic is a setting, here an argument.
use Prim.Native.Char.{Char, code}
use Prim.Native.String.{◌++◌ as ◌<>◌}
use robotics_io_t_smart_auto.Base.{
  String, Bool, ◌||◌, Option, none, some, List, [], ◌∷◌, str_eq, ◌==◌, if◌then◌else◌, concat,
}

-- f"{base()}/devices/{segment}/{leaf}"
abbrev pub device_topic : (base segment leaf : String) → String
device_topic base segment leaf = concat (base ∷ "/devices/" ∷ segment ∷ "/" ∷ leaf ∷ [])

abbrev pub telemetry_sub : String → String
telemetry_sub base = device_topic base "+" "telemetry"

abbrev pub status_sub : String → String
status_sub base = device_topic base "+" "status"

abbrev pub results_sub : String → String
results_sub base = device_topic base "+" "results"

abbrev pub command_topic : (base serial : String) → String
command_topic base serial = device_topic base serial "commands"

-- puts a character before the first part
abbrev pub onto_first : Char → List String → List String
onto_first c [] = String.◌∷◌ c "" ∷ []
onto_first c (p ∷ ps) = String.◌∷◌ c p ∷ ps

-- topic.split("/")
unfoldable pub split : String → List String
split String.[] = "" ∷ []
split (String.◌∷◌ c s) =
    let rest = split s in if code c == b'/' then "" ∷ rest else onto_first c rest

abbrev pub first_part : List String → Option String
first_part [] = none
first_part (p ∷ ps) = some p

-- parts[parts.index("devices") + 1], or None where `index` or the subscript raises
unfoldable pub after_devices : List String → Option String
after_devices [] = none
after_devices (p ∷ ps) = if str_eq p "devices" then first_part ps else after_devices ps

-- serial_from_topic
unfoldable pub serial_from_topic : String → Option String
unfolding split after_devices
serial_from_topic topic = after_devices (split topic)

-- topic.endswith(suffix)
unfoldable pub ends_with : String → String → Bool
ends_with suffix String.[] = str_eq "" suffix
ends_with suffix (String.◌∷◌ c s) = str_eq (String.◌∷◌ c s) suffix || ends_with suffix s

-- text.replace("+", segment)
unfoldable pub replace_plus : (segment text : String) → String
replace_plus segment String.[] = ""
replace_plus segment (String.◌∷◌ c s) =
    let rest = replace_plus segment s in
    if code c == b'+' then segment <> rest else String.◌∷◌ c rest
