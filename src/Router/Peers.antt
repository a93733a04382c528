-- ===== src/Router/Peers.antt =====
-- crates/router/src/lib.rs: joining, resuming and leaving a room.
pub mod Recovery
pub mod Membership
use civ6_lan_bridge.Prelude.{
  ℕ, ◌+◌, ◌-◌, ◌^◌, min, max, Bool, true, false, not, ◌&&◌, ◌||◌, ◌==◌, ltb, leb, nat_key,
  if◌then◌else◌, Option, none, some, is_some, List, [], ◌∷◌, Result, ok, err, ok_or, ◌>>=◌, ◌>>◌,
}
use civ6_lan_bridge.Prelude.HashMap
use civ6_lan_bridge.Prelude.HashSet
use civ6_lan_bridge.Prelude.HashMap.{HashMap}
use civ6_lan_bridge.Protocol.Ports.{RoomId, PeerId, VirtualIp}
use civ6_lan_bridge.Router.State.{
  Instant, RoomState, PeerState, HostState, DiscoveryState, GameplayState, RoomRouter, Outcome,
  room_not_found, room_peer_limit_reached, peer_limit_reached, peer_already_in_room,
  virtual_ip_in_use, peer_not_found, peer_not_in_room, peer_disconnected, peer_grace_expired,
}
use civ6_lan_bridge.Router.Rooms.{PeerSnapshot, snapshot_of}
use civ6_lan_bridge.Router.Hosts.{remove_hosts}

abbrev pub add_member : PeerId → RoomState → RoomState
add_member peer_id room = record room { members = HashSet.insert room.members peer_id }

abbrev pub drop_member : PeerId → RoomState → RoomState
drop_member peer_id room = record room { members = HashSet.remove room.members peer_id }

abbrev pub new_peer : RoomId → VirtualIp → Instant → PeerState
new_peer room_id virtual_ip now = record {
  room_id = room_id;
  virtual_ip = virtual_ip;
  last_seen = now;
  disconnected_at = none;
  connection_epoch = 1;
}

-- `now` is `Instant::now()`. The source looks the room up again, mutably, before it
-- changes it; the room is still there.
unfoldable pub join_room : RoomRouter → RoomId → PeerId → VirtualIp → Instant → Outcome (Unit {0})
join_room s room_id peer_id virtual_ip now = elim (HashMap.get s.rooms room_id) [
  | none ↦ (err (room_not_found room_id), s)
  | some room ↦
      if leb s.config.max_peers_per_room (HashSet.len room.members)
      then (err (room_peer_limit_reached room_id), s)
      else if leb s.config.max_total_peers (HashMap.len s.peers)
      then (err peer_limit_reached, s)
      else if HashMap.contains_key s.peers peer_id
      then (err (peer_already_in_room peer_id), s)
      else if HashMap.contains_key s.virtual_ips virtual_ip
      then (err (virtual_ip_in_use virtual_ip), s)
      else (
        ok tt,
        record s {
          rooms = HashMap.modify s.rooms room_id (add_member peer_id);
          peers = HashMap.insert s.peers peer_id (new_peer room_id virtual_ip now);
          virtual_ips = HashMap.insert s.virtual_ips virtual_ip peer_id;
        },
      )
]

unfoldable pub restore_peer :
    RoomRouter → RoomId → PeerId → VirtualIp → Instant → Outcome (Unit {0})
unfolding join_room
restore_peer s room_id peer_id virtual_ip now = join_room s room_id peer_id virtual_ip now

abbrev pub see : Instant → PeerState → PeerState
see now peer = record peer { last_seen = now }

unfoldable pub mark_peer_seen : RoomRouter → PeerId → Instant → Outcome (Unit {0})
mark_peer_seen s peer_id now = elim (HashMap.get s.peers peer_id) [
  | none ↦ (err (peer_not_found peer_id), s)
  | some peer ↦
      if is_some peer.disconnected_at
      then (err (peer_disconnected peer_id), s)
      else (ok tt, record s { peers = HashMap.modify s.peers peer_id (see now) })
]

abbrev pub u64_max : ℕ
u64_max = 2 ^ 64 - 1

-- `connection_epoch.saturating_add(1).max(1)`
abbrev pub next_epoch : ℕ → ℕ
next_epoch epoch = max (min (epoch + 1) u64_max) 1

-- What `resume_peer` makes of the peer; `none` if its grace period is over.
unfoldable pub resume_state : ℕ → Instant → PeerState → Option PeerState
resume_state grace now peer = elim peer.disconnected_at [
  | none ↦ some (record peer { last_seen = now })
  | some disconnected_at ↦
      if leb (disconnected_at + grace) now
      then none
      else some (record peer {
        connection_epoch = next_epoch peer.connection_epoch;
        disconnected_at = none;
        last_seen = now;
      })
]

unfoldable pub resume_peer : RoomRouter → RoomId → PeerId → Instant → Outcome PeerSnapshot
resume_peer s room_id peer_id now = elim (HashMap.get s.peers peer_id) [
  | none ↦ (err (peer_not_found peer_id), s)
  | some peer ↦
      if not (peer.room_id == room_id)
      then (err (peer_not_in_room peer_id room_id), s)
      else elim (resume_state s.config.peer_grace_ttl now peer) [
        | none ↦ (err (peer_grace_expired peer_id), s)
        | some resumed ↦ (
          ok (snapshot_of peer_id resumed),
          record s { peers = HashMap.modify s.peers peer_id (λ _. resumed) },
        )
      ]
]

-- What of the hosts, sessions and requests `leave_room` removes.
abbrev pub hosts_of : RoomId → PeerId → HostState → Bool
hosts_of room_id peer_id host = host.room_id == room_id && host.peer_id == peer_id

abbrev pub plays_in : RoomId → PeerId → GameplayState → Bool
plays_in room_id peer_id session =
    session.room_id == room_id
    && (session.client_peer_id == peer_id || session.host_peer_id == peer_id)

abbrev pub asks_in : RoomId → PeerId → DiscoveryState → Bool
asks_in room_id peer_id discovery =
    discovery.room_id == room_id && discovery.client_peer_id == peer_id

unfoldable pub drop_hosts : RoomRouter → RoomId → PeerId → RoomRouter
drop_hosts s room_id peer_id =
    remove_hosts s (HashMap.keys_where s.hosts (λ _ host. hosts_of room_id peer_id host))

unfoldable pub drop_gameplay : RoomRouter → RoomId → PeerId → RoomRouter
drop_gameplay s room_id peer_id = record s {
  gameplay =
      HashMap.remove_all s.gameplay
        (HashMap.keys_where s.gameplay (λ _ session. plays_in room_id peer_id session));
}

unfoldable pub drop_discoveries : RoomRouter → RoomId → PeerId → RoomRouter
drop_discoveries s room_id peer_id = record s {
  discoveries =
      HashMap.remove_all s.discoveries
        (HashMap.keys_where s.discoveries (λ _ discovery. asks_in room_id peer_id discovery));
}

-- The source expects the peer to be there, and would panic if it were not; it always is in a
-- router that its own methods made.
abbrev pub release_ip : HashMap VirtualIp PeerId → Option PeerState → HashMap VirtualIp PeerId
release_ip virtual_ips none = virtual_ips
release_ip virtual_ips (some peer) = HashMap.remove virtual_ips peer.virtual_ip

unfoldable pub drop_peer : RoomRouter → RoomId → PeerId → RoomRouter
drop_peer s room_id peer_id = record s {
  rooms = HashMap.modify s.rooms room_id (drop_member peer_id);
  peers = HashMap.remove s.peers peer_id;
  virtual_ips = release_ip s.virtual_ips (HashMap.get s.peers peer_id);
}

-- The four parts of `leave_room` behind its tests, in their order.
unfoldable pub evict : RoomRouter → RoomId → PeerId → RoomRouter
evict s room_id peer_id =
    drop_peer
      (drop_discoveries (drop_gameplay (drop_hosts s room_id peer_id) room_id peer_id) room_id
        peer_id)
      room_id peer_id

unfoldable pub leave_room : RoomRouter → RoomId → PeerId → Outcome (Unit {0})
leave_room s room_id peer_id = elim (HashMap.get s.rooms room_id) [
  | none ↦ (err (room_not_found room_id), s)
  | some room ↦
      if not (HashSet.contains room.members peer_id)
      then (err (peer_not_in_room peer_id room_id), s)
      else (ok tt, evict s room_id peer_id)
]
