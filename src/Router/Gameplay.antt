-- ===== src/Router/Gameplay.antt =====
-- crates/router/src/lib.rs: gameplay sessions and the routing of their datagrams.
pub mod Routing
use civ6_lan_bridge.Prelude.{
  ℕ, ◌+◌, Bool, true, false, not, ◌&&◌, ◌||◌, ◌==◌, ltb, leb, nat_key, if◌then◌else◌, Option, none,
  some, List, [], ◌∷◌, Result, ok, err, ok_or, ◌>>=◌, ◌>>◌,
}
use civ6_lan_bridge.Prelude.HashMap
use civ6_lan_bridge.Prelude.HashMap.{HashMap}
use civ6_lan_bridge.Protocol.Ports.{RoomId, PeerId, HostSessionId, GameplaySessionId, VirtualIp}
use civ6_lan_bridge.Router.State.{
  Instant, PeerState, HostState, GameplayState, RoomRouter, Outcome, RouterError, host_not_found,
  host_not_in_room, host_expired, gameplay_limit_reached, gameplay_not_found,
  unauthorized_gameplay_peer,
}
use civ6_lan_bridge.Router.Rooms.{member_state}

pub record GameplayRoute : Type 0 where
  pub session_id : GameplaySessionId
  pub room_id : RoomId
  pub source_peer_id : PeerId
  pub destination_peer_id : PeerId
  pub destination_virtual_ip : VirtualIp

-- The tests of `select_host`: the states of the client and of the host that it may play with.
unfoldable pub playable :
    RoomRouter
    → RoomId
    → PeerId
    → HostSessionId
    → Instant
    → Result RouterError (PeerState × HostState)
playable s room_id client_peer_id host_session_id now = do
  client ← member_state s room_id client_peer_id
  host ← ok_or (HashMap.get s.hosts host_session_id) (host_not_found host_session_id)
  if not (host.room_id == room_id)
      then err (host_not_in_room host_session_id room_id)
      else if leb host.expires_at now
      then err (host_expired host_session_id)
      else if leb s.config.max_gameplay_sessions (HashMap.len s.gameplay)
      then err gameplay_limit_reached
      else ok (client, host)

abbrev pub new_session :
    RoomRouter → RoomId → PeerId → PeerState → HostState → Instant → GameplayState
new_session s room_id client_peer_id client host now = record {
  room_id = room_id;
  client_peer_id = client_peer_id;
  host_peer_id = host.peer_id;
  host_virtual_ip = host.virtual_ip;
  client_virtual_ip = client.virtual_ip;
  last_activity = now;
  expires_at = now + s.config.gameplay_idle_ttl;
}

-- `session_id` is the fresh `GameplaySessionId::new()`.
unfoldable pub select_host :
    RoomRouter
    → RoomId
    → PeerId
    → HostSessionId
    → GameplaySessionId
    → Instant
    → Outcome GameplaySessionId
select_host s room_id client_peer_id host_session_id session_id now =
    elim (playable s room_id client_peer_id host_session_id now) [
      | err e ↦ (err e, s)
      | ok (client, host) ↦ (
        ok session_id,
        record s {
          gameplay =
              HashMap.insert s.gameplay session_id
                (new_session s room_id client_peer_id client host now);
        },
      )
    ]

-- Where a datagram of the session goes: to the other of its two peers.
unfoldable pub opposite : GameplayState → PeerId → Option (PeerId × VirtualIp)
opposite session source_peer_id =
    if source_peer_id == session.client_peer_id
    then some (session.host_peer_id, session.host_virtual_ip)
    else if source_peer_id == session.host_peer_id
    then some (session.client_peer_id, session.client_virtual_ip)
    else none

abbrev pub keep_alive : RoomRouter → Instant → GameplayState → GameplayState
keep_alive s now session = record session {
  last_activity = now;
  expires_at = now + s.config.gameplay_idle_ttl;
}

unfoldable pub route_gameplay_datagram :
    RoomRouter → GameplaySessionId → PeerId → Instant → Outcome GameplayRoute
route_gameplay_datagram s session_id source_peer_id now = elim (HashMap.get s.gameplay session_id) [
  | none ↦ (err (gameplay_not_found session_id), s)
  | some session ↦
      if leb session.expires_at now
      then (err (gameplay_not_found session_id), s)
      else elim (opposite session source_peer_id) [
        | none ↦ (err (unauthorized_gameplay_peer source_peer_id session_id), s)
        | some (destination_peer_id, destination_virtual_ip) ↦ (
          ok (record {
            session_id = session_id;
            room_id = session.room_id;
            source_peer_id = source_peer_id;
            destination_peer_id = destination_peer_id;
            destination_virtual_ip = destination_virtual_ip;
          }),
          record s { gameplay = HashMap.modify s.gameplay session_id (keep_alive s now) },
        )
      ]
]

unfoldable pub remove_gameplay_session : RoomRouter → GameplaySessionId → Outcome (Unit {0})
remove_gameplay_session s session_id =
    if HashMap.contains_key s.gameplay session_id
    then (ok tt, record s { gameplay = HashMap.remove s.gameplay session_id })
    else (err (gameplay_not_found session_id), s)
