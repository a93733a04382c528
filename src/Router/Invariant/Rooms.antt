-- ===== src/Router/Invariant/Rooms.antt =====
-- crates/router/src/lib.rs: the invariant and `new`, `create_room`, `remove_empty_room`.
use civ6_lan_bridge.Prelude.{
  ◌≡◌, inl, inr, true, nat_key, list_key, none, some, arith, Option-cases, ==-refl,
}
use civ6_lan_bridge.Prelude.HashMap
use civ6_lan_bridge.Prelude.HashSet
use civ6_lan_bridge.Protocol.Ports.{RoomId, PeerId, HostSessionId}
use civ6_lan_bridge.Protocol.RoomCode.{RoomCode}
use civ6_lan_bridge.Router.State.{
  RoomState, PeerState, HostState, DiscoveryState, GameplayState, room_peer_key, RoomRouter,
  RouterConfig, new,
}
use civ6_lan_bridge.Router.Hosts.{room_peer}
use civ6_lan_bridge.Router.Rooms.{create_room_with_id, create_room, remove_empty_room, new_room}
use civ6_lan_bridge.Router.Invariant.{Valid}

-- A new router has empty tables.
pub new-Valid : (config : RouterConfig) → Valid (new config)
unfolding new
new-Valid config = record {
  members_agree =
      λ r p. ground (arith, HashMap.get-new {V = RoomState} r, HashMap.get-new {V = PeerState} p);
  ips_agree =
      λ ip p. ground (arith, HashMap.get-new {V = PeerId} ip, HashMap.get-new {V = PeerState} p);
  codes_agree =
      λ c r. ground (arith, HashMap.get-new {V = RoomId} c, HashMap.get-new {V = RoomState} r);
  sessions_agree =
      λ r h. ground (arith, HashMap.get-new {V = RoomState} r, HashMap.get-new {V = HostState} h);
  hosts_agree = λ r p h. ground (
    arith,
    HashMap.get-new {V = HostSessionId} (room_peer r p),
    HashMap.get-new {V = HostState} h,
  );
  hosts_stand = λ h. ground (arith, HashMap.get-new {V = HostState} h);
  gameplay_stands = λ g. ground (arith, HashMap.get-new {V = GameplayState} g);
  discoveries_stand = λ d. ground (arith, HashMap.get-new {V = DiscoveryState} d);
}

abbrev created : RoomRouter → RoomId → RoomCode → RoomRouter
created s room_id code = record s {
  rooms = HashMap.insert s.rooms room_id (new_room code);
  rooms_by_code = HashMap.insert s.rooms_by_code code room_id;
}

module _ (s : RoomRouter) (room_id : RoomId) (code : RoomCode) (v : Valid s)
    (fresh : HashMap.get s.rooms room_id ≡ none)
    (free : HashMap.get s.rooms_by_code code ≡ none) where
  created-Valid : Valid (created s room_id code)
  created-Valid = record {
    members_agree = λ r p. ground (
      arith,
      fresh,
      HashMap.get-insert s.rooms room_id (new_room code) r,
      HashSet.contains-new p,
      v.members_agree r p,
    );
    ips_agree = v.ips_agree;
    codes_agree = λ c r. ground (
      arith,
      fresh,
      free,
      HashMap.get-insert s.rooms room_id (new_room code) r,
      HashMap.get-insert s.rooms_by_code code room_id c,
      v.codes_agree c r,
    );
    sessions_agree = λ r h. ground (
      arith,
      fresh,
      HashMap.get-insert s.rooms room_id (new_room code) r,
      HashSet.contains-new h,
      v.sessions_agree r h,
    );
    hosts_agree = v.hosts_agree;
    hosts_stand = v.hosts_stand;
    gameplay_stands = v.gameplay_stands;
    discoveries_stand = v.discoveries_stand;
  }

-- `create_room_with_id` keeps the tables in agreement, also where it refuses the room.
pub create_room_with_id-Valid :
    (s : RoomRouter) (room_id : RoomId) (code : RoomCode)
    → Valid s
    → Valid (create_room_with_id s room_id code).1
unfolding create_room_with_id
create_room_with_id-Valid s room_id code v = ground (arith, created-Valid s room_id code v)

pub create_room-Valid :
    (s : RoomRouter) (room_id : RoomId) (code : RoomCode)
    → Valid s
    → Valid (create_room s room_id code).1
unfolding create_room
create_room-Valid s room_id code v = create_room_with_id-Valid s room_id code v

abbrev emptied : RoomRouter → RoomId → RoomState → RoomRouter
emptied s room_id room = record s {
  rooms = HashMap.remove s.rooms room_id;
  rooms_by_code = HashMap.remove s.rooms_by_code room.code;
}

module _ (s : RoomRouter) (room_id : RoomId) (v : Valid s) (room : RoomState)
    (found : HashMap.get s.rooms room_id ≡ some room)
    (no_members : HashSet.is_empty room.members ≡ true)
    (no_sessions : HashSet.is_empty room.host_sessions ≡ true) where
  emptied-Valid : Valid (emptied s room_id room)
  emptied-Valid = record {
    members_agree = λ r p. ground (
      arith,
      found,
      HashMap.get-remove s.rooms room_id r,
      HashSet.contains_of_is_empty room.members p no_members,
      v.members_agree r p,
    );
    ips_agree = v.ips_agree;
    codes_agree = λ c r. ground (
      arith,
      found,
      HashMap.get-remove s.rooms room_id r,
      HashMap.get-remove s.rooms_by_code room.code c,
      ==-refl room.code,
      v.codes_agree c r,
      v.codes_agree c room_id,
      v.codes_agree room.code room_id,
    );
    sessions_agree = λ r h. ground (
      arith,
      found,
      HashMap.get-remove s.rooms room_id r,
      HashSet.contains_of_is_empty room.host_sessions h no_sessions,
      v.sessions_agree r h,
    );
    hosts_agree = v.hosts_agree;
    hosts_stand = v.hosts_stand;
    gameplay_stands = v.gameplay_stands;
    discoveries_stand = v.discoveries_stand;
  }

-- `remove_empty_room` keeps the tables in agreement, also where it refuses to remove the room.
pub remove_empty_room-Valid :
    (s : RoomRouter) (room_id : RoomId) → Valid s → Valid (remove_empty_room s room_id).1
unfolding remove_empty_room
remove_empty_room-Valid s room_id v = elim (Option-cases (HashMap.get s.rooms room_id)) [
  | inl e ↦ rw (e, remove_empty_room) v
  | inr (room, e) ↦ rw (e, remove_empty_room) (ground (arith, emptied-Valid s room_id v room e))
]
