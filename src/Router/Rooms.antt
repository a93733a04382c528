-- ===== src/Router/Rooms.antt =====
-- crates/router/src/lib.rs: rooms and what is read of the state.
use civ6_lan_bridge.Prelude.{
  ℕ, Bool, not, ◌||◌, ◌==◌, ltb, leb, nat_key, list_key, if◌then◌else◌, is_some, Option, none, some,
  Result, ok, err, ok_or, ◌>>=◌, ◌>>◌,
}
use civ6_lan_bridge.Prelude.HashMap
use civ6_lan_bridge.Prelude.HashSet
use civ6_lan_bridge.Prelude.HashMap.{HashMap}
use civ6_lan_bridge.Protocol.Ports.{
  RoomId, PeerId, HostSessionId, GameplaySessionId, VirtualIp, max_civ6_datagram_size,
}
use civ6_lan_bridge.Protocol.RoomCode.{RoomCode}
use civ6_lan_bridge.Router.State.{
  RoomState, PeerState, RoomRouter, Outcome, RouterError, room_not_found, duplicate_room_code,
  duplicate_room_id, room_not_empty, room_limit_reached, peer_not_in_room, peer_not_found,
  host_not_found, gameplay_not_found, datagram_too_large,
}

pub record RoomSnapshot : Type 0 where
  pub room_id : RoomId
  pub code : RoomCode
  pub member_count : ℕ
  pub host_count : ℕ

pub record HostSnapshot : Type 0 where
  pub host_session_id : HostSessionId
  pub room_id : RoomId
  pub peer_id : PeerId
  pub virtual_ip : VirtualIp

pub record PeerSnapshot : Type 0 where
  pub room_id : RoomId
  pub peer_id : PeerId
  pub virtual_ip : VirtualIp
  pub connection_epoch : ℕ

pub record GameplaySnapshot : Type 0 where
  pub session_id : GameplaySessionId
  pub room_id : RoomId
  pub client_peer_id : PeerId
  pub host_peer_id : PeerId
  pub client_virtual_ip : VirtualIp
  pub host_virtual_ip : VirtualIp

pub record RouterStats : Type 0 where
  pub active_rooms : ℕ
  pub active_peers : ℕ
  pub suspended_peers : ℕ
  pub active_hosts : ℕ
  pub active_gameplay_sessions : ℕ

abbrev pub new_room : RoomCode → RoomState
new_room code = record { code = code; members = HashSet.new; host_sessions = HashSet.new }

unfoldable pub create_room_with_id : RoomRouter → RoomId → RoomCode → Outcome (Unit {0})
create_room_with_id s room_id code =
    if leb s.config.max_rooms (HashMap.len s.rooms)
    then (err room_limit_reached, s)
    else if HashMap.contains_key s.rooms_by_code code
    then (err (duplicate_room_code code), s)
    else if HashMap.contains_key s.rooms room_id
    then (err (duplicate_room_id room_id), s)
    else (
      ok tt,
      record s {
        rooms = HashMap.insert s.rooms room_id (new_room code);
        rooms_by_code = HashMap.insert s.rooms_by_code code room_id;
      },
    )

-- `room_id` is the fresh `RoomId::new()`.
unfoldable pub create_room : RoomRouter → RoomId → RoomCode → Outcome RoomId
create_room s room_id code =
    let (result, s') = create_room_with_id s room_id code in (do result; ok room_id, s')

unfoldable pub remove_empty_room : RoomRouter → RoomId → Outcome (Unit {0})
remove_empty_room s room_id = elim (HashMap.get s.rooms room_id) [
  | none ↦ (err (room_not_found room_id), s)
  | some room ↦
      if not (HashSet.is_empty room.members) || not (HashSet.is_empty room.host_sessions)
      then (err (room_not_empty room_id), s)
      else (
        ok tt,
        record s {
          rooms = HashMap.remove s.rooms room_id;
          rooms_by_code = HashMap.remove s.rooms_by_code room.code;
        },
      )
]

unfoldable pub room_id_for_code : RoomRouter → RoomCode → Option RoomId
room_id_for_code s code = HashMap.get s.rooms_by_code code

unfoldable pub room_code : RoomRouter → RoomId → Result RouterError RoomCode
room_code s room_id = do
  room ← ok_or (HashMap.get s.rooms room_id) (room_not_found room_id)
  ok room.code

unfoldable pub room_snapshot : RoomRouter → RoomId → Result RouterError RoomSnapshot
room_snapshot s room_id = do
  room ← ok_or (HashMap.get s.rooms room_id) (room_not_found room_id)
  ok (record {
    room_id = room_id;
    code = room.code;
    member_count = HashSet.len room.members;
    host_count = HashSet.len room.host_sessions;
  })

unfoldable pub host_count : RoomRouter → RoomId → Result RouterError ℕ
host_count s room_id = do
  room ← ok_or (HashMap.get s.rooms room_id) (room_not_found room_id)
  ok (HashSet.len room.host_sessions)

abbrev pub field_of {ℓ κ} : {A : Type ℓ} {B : Type κ} → (A → B) → Option A → Option B
field_of f none = none
field_of f (some a) = some (f a)

unfoldable pub room_for_peer : RoomRouter → PeerId → Option RoomId
room_for_peer s peer_id =
    field_of (λ (peer : PeerState). peer.room_id) (HashMap.get s.peers peer_id)

unfoldable pub peer_virtual_ip : RoomRouter → PeerId → Option VirtualIp
peer_virtual_ip s peer_id =
    field_of (λ (peer : PeerState). peer.virtual_ip) (HashMap.get s.peers peer_id)

unfoldable pub peer_for_virtual_ip : RoomRouter → VirtualIp → Option PeerId
peer_for_virtual_ip s virtual_ip = HashMap.get s.virtual_ips virtual_ip

unfoldable pub is_virtual_ip_available : RoomRouter → VirtualIp → Bool
is_virtual_ip_available s virtual_ip = not (HashMap.contains_key s.virtual_ips virtual_ip)

unfoldable pub peer_connection_epoch : RoomRouter → PeerId → Result RouterError ℕ
peer_connection_epoch s peer_id = do
  peer ← ok_or (HashMap.get s.peers peer_id) (peer_not_found peer_id)
  ok peer.connection_epoch

abbrev pub snapshot_of : PeerId → PeerState → PeerSnapshot
snapshot_of peer_id peer = record {
  room_id = peer.room_id;
  peer_id = peer_id;
  virtual_ip = peer.virtual_ip;
  connection_epoch = peer.connection_epoch;
}

unfoldable pub peer_snapshot : RoomRouter → PeerId → Result RouterError PeerSnapshot
peer_snapshot s peer_id = do
  peer ← ok_or (HashMap.get s.peers peer_id) (peer_not_found peer_id)
  ok (snapshot_of peer_id peer)

unfoldable pub host_snapshot : RoomRouter → HostSessionId → Result RouterError HostSnapshot
host_snapshot s host_session_id = do
  host ← ok_or (HashMap.get s.hosts host_session_id) (host_not_found host_session_id)
  ok (record {
    host_session_id = host_session_id;
    room_id = host.room_id;
    peer_id = host.peer_id;
    virtual_ip = host.virtual_ip;
  })

unfoldable pub gameplay_snapshot :
    RoomRouter → GameplaySessionId → Result RouterError GameplaySnapshot
gameplay_snapshot s session_id = do
  session ← ok_or (HashMap.get s.gameplay session_id) (gameplay_not_found session_id)
  ok (record {
    session_id = session_id;
    room_id = session.room_id;
    client_peer_id = session.client_peer_id;
    host_peer_id = session.host_peer_id;
    client_virtual_ip = session.client_virtual_ip;
    host_virtual_ip = session.host_virtual_ip;
  })

unfoldable pub stats : RoomRouter → RouterStats
stats s = record {
  active_rooms = HashMap.len s.rooms;
  active_peers = HashMap.len s.peers;
  suspended_peers =
      HashMap.count_where s.peers (λ (peer : PeerState). is_some peer.disconnected_at);
  active_hosts = HashMap.len s.hosts;
  active_gameplay_sessions = HashMap.len s.gameplay;
}

-- The peer, if it is a member of the room.
unfoldable pub member_state : RoomRouter → RoomId → PeerId → Result RouterError PeerState
member_state s room_id peer_id = do
  room ← ok_or (HashMap.get s.rooms room_id) (room_not_found room_id)
  if not (HashSet.contains room.members peer_id) then err (peer_not_in_room peer_id room_id) else do
    peer ← ok_or (HashMap.get s.peers peer_id) (peer_not_in_room peer_id room_id)
    if not (peer.room_id == room_id) then err (peer_not_in_room peer_id room_id) else ok peer

unfoldable pub validate_payload : RoomRouter → ℕ → Result RouterError (Unit {0})
validate_payload s payload_len =
    if ltb max_civ6_datagram_size payload_len || ltb s.config.safe_payload_size payload_len
    then err (datagram_too_large payload_len)
    else ok tt
