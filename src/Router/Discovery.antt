-- ===== src/Router/Discovery.antt =====
-- crates/router/src/lib.rs: the discovery of hosts.
pub mod Scope
use civ6_lan_bridge.Prelude.{
  ℕ, ◌+◌, Bool, true, false, not, ◌&&◌, ◌||◌, ◌==◌, ltb, leb, nat_key, if◌then◌else◌, Option, none,
  some, List, [], ◌∷◌, ◌++◌, Result, ok, err, ok_or, ◌>>=◌, ◌>>◌,
}
use civ6_lan_bridge.Prelude.HashMap
use civ6_lan_bridge.Prelude.HashSet
use civ6_lan_bridge.Prelude.HashMap.{HashMap}
use civ6_lan_bridge.Protocol.Ports.{
  RoomId, PeerId, HostSessionId, DiscoveryRequestId, VirtualIp, Civ6UdpPort, is_discovery_port,
}
use civ6_lan_bridge.Router.State.{
  Instant, HostState, DiscoveryState, RoomRouter, Outcome, RouterError, invalid_discovery_port,
  discovery_request_conflict, discovery_not_found, discovery_expired, host_not_found, host_expired,
  host_not_in_room,
}
use civ6_lan_bridge.Router.Rooms.{member_state}
use civ6_lan_bridge.Router.Hosts.{sessions_of}

pub record DiscoveryTarget : Type 0 where
  pub host_session_id : HostSessionId
  pub host_peer_id : PeerId
  pub host_virtual_ip : VirtualIp

-- The entry that `begin_discovery` leaves for the request, over the one that stands there, if the
-- two do not conflict.
unfoldable pub remember :
    RoomId → PeerId → Civ6UdpPort → Instant → Option DiscoveryState → Option DiscoveryState
remember room_id client_peer_id destination_port expires_at none = some (record {
  room_id = room_id;
  client_peer_id = client_peer_id;
  destination_port = destination_port;
  expires_at = expires_at;
})
remember room_id client_peer_id destination_port expires_at (some existing) =
    if not (existing.room_id == room_id)
      || not (existing.client_peer_id == client_peer_id)
      || not (existing.destination_port == destination_port)
    then none
    else some (record existing { expires_at = expires_at })

abbrev pub target : HostSessionId → HostState → DiscoveryTarget
target host_session_id host = record {
  host_session_id = host_session_id;
  host_peer_id = host.peer_id;
  host_virtual_ip = host.virtual_ip;
}

abbrev pub live_target : Instant → HostSessionId → Option HostState → List DiscoveryTarget
live_target now id none = []
live_target now id (some host) = if ltb now host.expires_at then target id host ∷ [] else []

-- The iterator chain of `begin_discovery` over the room's host sessions.
unfoldable pub targets : RoomRouter → Instant → List HostSessionId → List DiscoveryTarget
targets s now [] = []
targets s now (id ∷ ids) = live_target now id (HashMap.get s.hosts id) ++ targets s now ids

unfoldable pub begin_discovery :
    RoomRouter
    → RoomId
    → PeerId
    → DiscoveryRequestId
    → Civ6UdpPort
    → Instant
    → Outcome (List DiscoveryTarget)
begin_discovery s room_id client_peer_id request_id destination_port now =
    if not (is_discovery_port destination_port)
    then (err (invalid_discovery_port destination_port), s)
    else elim (member_state s room_id client_peer_id) [
      | err e ↦ (err e, s)
      | ok _ ↦
          elim (remember room_id client_peer_id destination_port (now + s.config.discovery_ttl)
            (HashMap.get s.discoveries request_id)) [
              | none ↦ (err (discovery_request_conflict request_id), s)
              | some entry ↦ (
                ok (targets s now (HashSet.to_list (sessions_of (HashMap.get s.rooms room_id)))),
                record s { discoveries = HashMap.insert s.discoveries request_id entry },
              )
            ]
    ]

unfoldable pub route_discovery_response :
    RoomRouter → DiscoveryRequestId → HostSessionId → Instant → Result RouterError PeerId
route_discovery_response s request_id host_session_id now = do
  discovery ← ok_or (HashMap.get s.discoveries request_id) (discovery_not_found request_id)
  if leb discovery.expires_at now then err (discovery_expired request_id) else do
    host ← ok_or (HashMap.get s.hosts host_session_id) (host_not_found host_session_id)
    if leb host.expires_at now
        then err (host_expired host_session_id)
        else if not (host.room_id == discovery.room_id)
        then err (host_not_in_room host_session_id discovery.room_id)
        else ok discovery.client_peer_id
