-- ===== src/Core/Realtime.antt =====
-- apps/core/realtime.py: the seam to the channel layer.
use robotics_io_t_smart_auto.Base.{String, [], ◌∷◌, ◌++◌, if◌then◌else◌}
use robotics_io_t_smart_auto.World.{Group, Payload, World}

-- broadcast(group, event_type, payload): nothing happens where no channel layer is configured
unfoldable pub broadcast : Group → String → Payload → World → World
broadcast group event payload w =
    if w.channel_layer
    then (record w {
      broadcasts = w.broadcasts ++ record { group = group; event = event; payload = payload } ∷ [];
    })
    else w
