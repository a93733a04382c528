-- ===== src/Router/Hosts.antt =====
-- crates/router/src/lib.rs: host sessions.
use civ6_lan_bridge.Prelude.{
  ◌+◌, Bool, not, ◌||◌, ◌==◌, ltb, leb, nat_key, if◌then◌else◌, Option, none, some, List, [], ◌∷◌,
  ok, err,
}
use civ6_lan_bridge.Prelude.HashMap
use civ6_lan_bridge.Prelude.HashSet
use civ6_lan_bridge.Prelude.HashMap.{HashMap}
use civ6_lan_bridge.Prelude.HashSet.{HashSet}
use civ6_lan_bridge.Protocol.Ports.{RoomId, PeerId, HostSessionId}
use civ6_lan_bridge.Router.State.{
  Instant, RoomState, PeerState, HostState, GameplayState, RoomPeer, room_peer_key, RoomRouter,
  Outcome, host_not_found, host_not_in_room, host_expired, host_limit_reached,
}
use civ6_lan_bridge.Router.Rooms.{member_state}

abbrev pub drop_session : HostSessionId → RoomState → RoomState
drop_session id room = record room { host_sessions = HashSet.remove room.host_sessions id }

abbrev pub add_session : HostSessionId → RoomState → RoomState
add_session id room = record room { host_sessions = HashSet.insert room.host_sessions id }

-- The sessions that `remove_host` keeps.
abbrev pub not_hosted_by : HostState → GameplayState → Bool
not_hosted_by host session =
    not (session.host_peer_id == host.peer_id) || not (session.room_id == host.room_id)

abbrev pub room_peer : RoomId → PeerId → RoomPeer
room_peer room_id peer_id = record { room = room_id; peer = peer_id }

unfoldable pub remove_host : RoomRouter → HostSessionId → RoomRouter
remove_host s host_session_id = elim (HashMap.get s.hosts host_session_id) [
  | none ↦ s
  | some host ↦ record s {
    hosts = HashMap.remove s.hosts host_session_id;
    host_by_peer = HashMap.remove s.host_by_peer (room_peer host.room_id host.peer_id);
    rooms = HashMap.modify s.rooms host.room_id (drop_session host_session_id);
    gameplay = HashMap.retain s.gameplay (λ _ session. not_hosted_by host session);
  }
]

-- `for host_id in ids { self.remove_host(host_id); }`
unfoldable pub remove_hosts : RoomRouter → List HostSessionId → RoomRouter
remove_hosts s [] = s
remove_hosts s (id ∷ ids) = remove_hosts (remove_host s id) ids

-- `rooms.get(&room_id).expect(..).host_sessions`: the callers have found the room before.
abbrev pub sessions_of : Option RoomState → HashSet HostSessionId
sessions_of none = HashSet.new
sessions_of (some room) = room.host_sessions

abbrev pub refresh : RoomRouter → Instant → HostState → HostState
refresh s now host = record host { last_heartbeat = now; expires_at = now + s.config.host_ttl }

-- The end of `register_host`, where no live session of the peer stands.
unfoldable pub add_host :
    RoomRouter → RoomId → PeerId → PeerState → HostSessionId → Instant → Outcome HostSessionId
add_host s room_id peer_id peer session_id now =
    if leb s.config.max_hosts_per_room (HashSet.len (sessions_of (HashMap.get s.rooms room_id)))
    then (err (host_limit_reached room_id), s)
    else (
      ok session_id,
      record s {
        hosts = HashMap.insert s.hosts session_id (record {
          room_id = room_id;
          peer_id = peer_id;
          virtual_ip = peer.virtual_ip;
          last_heartbeat = now;
          expires_at = now + s.config.host_ttl;
        });
        host_by_peer = HashMap.insert s.host_by_peer (room_peer room_id peer_id) session_id;
        rooms = HashMap.modify s.rooms room_id (add_session session_id);
      },
    )

-- The rest of `register_host` for a peer that has hosted before. A session that is not in `hosts`
-- is removed like one that has expired.
unfoldable pub register_again :
    RoomRouter
    → RoomId
    → PeerId
    → PeerState
    → HostSessionId
    → HostSessionId
    → Instant
    → Outcome HostSessionId
register_again s room_id peer_id peer existing_id session_id now =
    elim (HashMap.get s.hosts existing_id) [
      | none ↦ add_host (remove_host s existing_id) room_id peer_id peer session_id now
      | some existing ↦
          if ltb now existing.expires_at
          then (
            ok existing_id,
            record s { hosts = HashMap.modify s.hosts existing_id (refresh s now) },
          )
          else add_host (remove_host s existing_id) room_id peer_id peer session_id now
    ]

-- `session_id` is the fresh `HostSessionId::new()`.
unfoldable pub register_host :
    RoomRouter → RoomId → PeerId → HostSessionId → Instant → Outcome HostSessionId
register_host s room_id peer_id session_id now = elim (member_state s room_id peer_id) [
  | err e ↦ (err e, s)
  | ok peer ↦ elim (HashMap.get s.host_by_peer (room_peer room_id peer_id)) [
    | none ↦ add_host s room_id peer_id peer session_id now
    | some existing_id ↦ register_again s room_id peer_id peer existing_id session_id now
  ]
]

unfoldable pub heartbeat_host : RoomRouter → HostSessionId → Instant → Outcome (Unit {0})
heartbeat_host s host_session_id now = elim (HashMap.get s.hosts host_session_id) [
  | none ↦ (err (host_not_found host_session_id), s)
  | some host ↦
      if leb host.expires_at now
      then (err (host_expired host_session_id), s)
      else (ok tt, record s { hosts = HashMap.modify s.hosts host_session_id (refresh s now) })
]

unfoldable pub heartbeat_host_for_room :
    RoomRouter → RoomId → PeerId → HostSessionId → Instant → Outcome (Unit {0})
heartbeat_host_for_room s room_id peer_id host_session_id now =
    elim (HashMap.get s.hosts host_session_id) [
      | none ↦ (err (host_not_found host_session_id), s)
      | some host ↦
          if not (host.room_id == room_id) || not (host.peer_id == peer_id)
          then (err (host_not_in_room host_session_id room_id), s)
          else heartbeat_host s host_session_id now
    ]

unfoldable pub unregister_host : RoomRouter → HostSessionId → Outcome (Unit {0})
unregister_host s host_session_id =
    if not (HashMap.contains_key s.hosts host_session_id)
    then (err (host_not_found host_session_id), s)
    else (ok tt, remove_host s host_session_id)
