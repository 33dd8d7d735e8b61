-- ===== src/Mqtt/Client.antt =====
-- apps/mqtt/client.py: what the bridge subscribes to, and the shared publisher. The broker's answer
-- to a connection and to a publication is an argument.
use robotics_io_t_smart_auto.Base.{
  ℕ, zero, suc, ◌+◌, String, Bool, true, Option, none, some, List, [], ◌∷◌, if◌then◌else◌,
}
use robotics_io_t_smart_auto.Mqtt.Topics.{telemetry_sub, status_sub, results_sub}

-- MQTTBridge._on_connect: the topics, each at quality of service 1
unfoldable pub on_connect : String → ℕ → List (String × ℕ)
on_connect base zero = (telemetry_sub base, 1) ∷ (status_sub base, 1) ∷ (results_sub base, 1) ∷ []
on_connect base (suc reason) = []

-- The singleton: whether a client exists, and how many connections were opened.
pub record Publisher : Type 0 where
  pub connected : Bool
  pub opened : ℕ

-- _get_publisher: a client is kept only once its connection is open
unfoldable pub get_publisher : Option String → Publisher → Option String × Publisher
get_publisher answer p = if p.connected then (none, p) else elim answer [
  | none ↦ (none, record { connected = true; opened = p.opened + 1 })
  | some exc ↦ (some exc, p)
]
