-- ===== src/Router/Gameplay/Routing.antt =====
-- crates/router/src/lib.rs: `route_gameplay_datagram`, and the routes that it grants.
use civ6_lan_bridge.Prelude.{◌≡◌, true, ◌&&◌, ◌||◌, ◌==◌, ltb, nat_key, arith, ok}
use civ6_lan_bridge.Prelude.HashMap
use civ6_lan_bridge.Protocol.Ports.{PeerId, GameplaySessionId}
use civ6_lan_bridge.Router.State.{GameplayState, RoomRouter, Instant}
use civ6_lan_bridge.Router.Gameplay.{GameplayRoute, opposite, route_gameplay_datagram}
use civ6_lan_bridge.Router.Invariant.{Valid, satisfies, stands_at, in_room}

-- A route of a valid router that was granted at `now`.
pub record IsRoute (s : RoomRouter) (now : Instant) (source : PeerId) (route : GameplayRoute)
    : Type 0 where
  pub from : route.source_peer_id ≡ source
  pub live :
      satisfies
        (λ (g : GameplayState). ltb now g.expires_at && g.room_id == route.room_id)
        (HashMap.get s.gameplay route.session_id)
      ≡ true
  pub between :
      satisfies
        (λ (g : GameplayState).
          (g.client_peer_id == source && g.host_peer_id == route.destination_peer_id)
          || (g.host_peer_id == source && g.client_peer_id == route.destination_peer_id))
        (HashMap.get s.gameplay route.session_id)
      ≡ true
  pub source_in_room : in_room s route.room_id source ≡ true
  pub destination_stands :
      stands_at s route.room_id route.destination_peer_id route.destination_virtual_ip ≡ true

-- In a router whose tables agree, a datagram is routed only within a live session, from one of
-- its peers to the other, both in the session's room, and to the address that the destination
-- holds.
pub route_gameplay_datagram-IsRoute :
    (s : RoomRouter) (session_id : GameplaySessionId) (source : PeerId) (now : Instant)
    (route : GameplayRoute)
    → Valid s
    → (route_gameplay_datagram s session_id source now).0 ≡ ok route
    → IsRoute s now source route
unfolding route_gameplay_datagram opposite
route_gameplay_datagram-IsRoute s session_id source now route v h = record {
  from = ground arith;
  live = ground arith;
  between = ground arith;
  source_in_room = ground (arith, v.gameplay_stands session_id);
  destination_stands = ground (arith, v.gameplay_stands session_id);
}
