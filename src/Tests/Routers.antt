-- ===== src/Tests/Routers.antt =====
-- The theorems on the router at the room of the tests.
use civ6_lan_bridge.Prelude.{
  ℕ, ◌<◌, ◌≡◌, ◌↔◌, ◌⊎◌, refl, arith, true, ◌&&◌, ◌==◌, nat_key, none, some, ok, [], ◌∷◌,
  ℕ_discrete, ◌+◌,
}
use civ6_lan_bridge.Prelude.HashMap
use civ6_lan_bridge.Prelude.HashSet
use civ6_lan_bridge.Router.State.{
  RoomRouter, RoomState, PeerState, HostState, DiscoveryState, GameplayState, new,
}
use civ6_lan_bridge.Router.Rooms.{
  create_room_with_id, member_state, peer_for_virtual_ip, snapshot_of,
}
use civ6_lan_bridge.Router.Hosts.{register_host, add_host, remove_hosts}
use civ6_lan_bridge.Router.Peers.{join_room, leave_room, mark_peer_seen, resume_peer}
use civ6_lan_bridge.Router.Peers.Membership.{
  join_room_iff, join_room_places, leave_room_clears, Gone,
}
use civ6_lan_bridge.Router.Peers.Recovery.{resume_peer_reconnects}
use civ6_lan_bridge.Router.Discovery.{
  begin_discovery, remember, targets, target, route_discovery_response,
}
use civ6_lan_bridge.Router.Discovery.Scope.{
  begin_discovery_scope, route_discovery_response_iff, aims_at, is_live,
}
use civ6_lan_bridge.Router.Gameplay.{
  GameplayRoute, select_host, playable, opposite, route_gameplay_datagram,
}
use civ6_lan_bridge.Router.Gameplay.Routing.{IsRoute, route_gameplay_datagram-IsRoute}
use civ6_lan_bridge.Router.Expiry.{expire, disconnect_peer, forget}
use civ6_lan_bridge.Router.Expiry.Fresh.{Live, expire-Live}
use civ6_lan_bridge.Router.Invariant.{Valid, satisfies, stands_at, has_member, has_ip}
use civ6_lan_bridge.Router.Invariant.Reachable.{Reachable-Valid}
use civ6_lan_bridge.Protocol.Ports.{is_discovery_port}
use civ6_lan_bridge.Tests.{
  code, client_ip, host_ip, one_room, with_client, asking, asking-Reachable, asking-Valid,
  one_room-Valid,
}

abbrev room_state : RoomState
room_state = record { code = code; members = HashSet.new; host_sessions = HashSet.new }

abbrev client : PeerState
client = record {
  room_id = 7;
  virtual_ip = client_ip;
  last_seen = 0;
  disconnected_at = none;
  connection_epoch = 1;
}

abbrev host : HostState
host = record {
  room_id = 7;
  peer_id = 2;
  virtual_ip = host_ip;
  last_heartbeat = 0;
  expires_at = 15;
}

abbrev session : GameplayState
session = record {
  room_id = 7;
  client_peer_id = 1;
  host_peer_id = 2;
  host_virtual_ip = host_ip;
  client_virtual_ip = client_ip;
  last_activity = 1;
  expires_at = 31;
}

abbrev request : DiscoveryState
request = record { room_id = 7; client_peer_id = 1; destination_port = 62900; expires_at = 6 }

host_stands : HashMap.get asking.hosts 50 ≡ some host
unfolding new create_room_with_id join_room register_host add_host member_state select_host playable
    begin_discovery remember targets is_discovery_port HashMap.get HashMap.lookup HashMap.insert
    HashMap.without HashMap.modify HashMap.new HashMap.len HashSet.new HashSet.insert
    HashSet.contains HashSet.to_list HashMap.keys_where ℕ_discrete
host_stands = refl

session_stands : HashMap.get asking.gameplay 90 ≡ some session
unfolding new create_room_with_id join_room register_host add_host member_state select_host playable
    begin_discovery remember targets is_discovery_port HashMap.get HashMap.lookup HashMap.insert
    HashMap.without HashMap.modify HashMap.new HashMap.len HashSet.new HashSet.insert
    HashSet.contains HashSet.to_list HashMap.keys_where ℕ_discrete
session_stands = refl

request_stands : HashMap.get asking.discoveries 70 ≡ some request
unfolding new create_room_with_id join_room register_host add_host member_state select_host playable
    begin_discovery remember targets is_discovery_port HashMap.get HashMap.lookup HashMap.insert
    HashMap.without HashMap.modify HashMap.new HashMap.len HashSet.new HashSet.insert
    HashSet.contains HashSet.to_list HashMap.keys_where ℕ_discrete
request_stands = refl

client_stands : HashMap.get asking.peers 1 ≡ some client
unfolding new create_room_with_id join_room register_host add_host member_state select_host playable
    begin_discovery remember targets is_discovery_port HashMap.get HashMap.lookup HashMap.insert
    HashMap.without HashMap.modify HashMap.new HashMap.len HashSet.new HashSet.insert
    HashSet.contains HashSet.to_list HashMap.keys_where ℕ_discrete
client_stands = refl

client_is_member : member_state asking 7 1 ≡ ok client
unfolding new create_room_with_id join_room register_host add_host member_state select_host playable
    begin_discovery remember targets is_discovery_port HashMap.get HashMap.lookup HashMap.insert
    HashMap.without HashMap.modify HashMap.new HashMap.len HashSet.new HashSet.insert
    HashSet.contains HashSet.to_list HashMap.keys_where ℕ_discrete
client_is_member = refl

room_stands : HashMap.get one_room.rooms 7 ≡ some room_state
unfolding new create_room_with_id join_room register_host add_host member_state select_host playable
    begin_discovery remember targets is_discovery_port HashMap.get HashMap.lookup HashMap.insert
    HashMap.without HashMap.modify HashMap.new HashMap.len HashSet.new HashSet.insert
    HashSet.contains HashSet.to_list HashMap.keys_where ℕ_discrete
room_stands = refl

joined : (join_room one_room 7 1 client_ip 0).0 ≡ ok tt
unfolding new create_room_with_id join_room register_host add_host member_state select_host playable
    begin_discovery remember targets is_discovery_port HashMap.get HashMap.lookup HashMap.insert
    HashMap.without HashMap.modify HashMap.new HashMap.len HashSet.new HashSet.insert
    HashSet.contains HashSet.to_list HashMap.keys_where ℕ_discrete
joined = refl

left : (leave_room asking 7 2).0 ≡ ok tt
unfolding new create_room_with_id join_room register_host add_host member_state select_host playable
    begin_discovery remember targets is_discovery_port HashMap.get HashMap.lookup HashMap.insert
    HashMap.without HashMap.modify HashMap.new HashMap.len HashSet.new HashSet.insert
    HashSet.contains HashSet.to_list HashMap.keys_where ℕ_discrete leave_room
left = refl

-- The route of the client's datagram
abbrev to_the_host : GameplayRoute
to_the_host = record {
  session_id = 90;
  room_id = 7;
  source_peer_id = 1;
  destination_peer_id = 2;
  destination_virtual_ip = host_ip;
}

routed : (route_gameplay_datagram asking 90 1 2).0 ≡ ok to_the_host
unfolding new create_room_with_id join_room register_host add_host member_state select_host playable
    begin_discovery remember targets is_discovery_port HashMap.get HashMap.lookup HashMap.insert
    HashMap.without HashMap.modify HashMap.new HashMap.len HashSet.new HashSet.insert
    HashSet.contains HashSet.to_list HashMap.keys_where ℕ_discrete route_gameplay_datagram opposite
routed = refl

found : (begin_discovery asking 7 1 71 62901 2).0 ≡ ok (target 50 host ∷ [])
unfolding new create_room_with_id join_room register_host add_host member_state select_host playable
    begin_discovery remember targets is_discovery_port HashMap.get HashMap.lookup HashMap.insert
    HashMap.without HashMap.modify HashMap.new HashMap.len HashSet.new HashSet.insert
    HashSet.contains HashSet.to_list HashMap.keys_where ℕ_discrete
found = refl

Reachable-Valid_example : Valid asking
Reachable-Valid_example = Reachable-Valid asking-Reachable

expire-Live_example : Live 6 (expire asking 6).1
expire-Live_example = expire-Live asking 6

leave_room_clears_example : Gone (leave_room asking 7 2).1 2
leave_room_clears_example = leave_room_clears asking 7 2 asking-Valid left

begin_discovery_scope_example :
    aims_at 50 (target 50 host ∷ [])
    ≡ satisfies (λ (h : HostState). h.room_id == 7 && is_live 2 h) (HashMap.get asking.hosts 50)
begin_discovery_scope_example =
    begin_discovery_scope asking 7 1 71 62901 2 (target 50 host ∷ []) asking-Valid found 50

route_gameplay_datagram-IsRoute_example : IsRoute asking 2 1 to_the_host
route_gameplay_datagram-IsRoute_example =
    route_gameplay_datagram-IsRoute asking 90 1 2 to_the_host asking-Valid routed

route_discovery_response_iff_example : (route_discovery_response asking 70 50 2 ≡ ok 1) ↔ (
    (2 < 6) × (2 < 15) × (host.room_id ≡ request.room_id) × (◌≡◌ {A = ℕ} 1 request.client_peer_id))
route_discovery_response_iff_example =
    route_discovery_response_iff asking 70 50 2 request host 1 request_stands host_stands

port_is_discovery : is_discovery_port 62901 ≡ true
unfolding new create_room_with_id join_room register_host add_host member_state select_host playable
    begin_discovery remember targets is_discovery_port HashMap.get HashMap.lookup HashMap.insert
    HashMap.without HashMap.modify HashMap.new HashMap.len HashSet.new HashSet.insert
    HashSet.contains HashSet.to_list HashMap.keys_where ℕ_discrete
port_is_discovery = refl

join_room_iff_example :
    (((join_room one_room 7 1 client_ip 0).0 ≡ ok tt) ↔ (
      (HashSet.len room_state.members < one_room.config.max_peers_per_room)
      × (HashMap.len one_room.peers < one_room.config.max_total_peers)
      × (HashMap.get one_room.peers 1 ≡ none)
      × (HashMap.get one_room.virtual_ips client_ip ≡ none)))
    × (((join_room one_room 7 1 client_ip 0).0 ≡ ok tt)
        ⊎ ((join_room one_room 7 1 client_ip 0).1 ≡ one_room))
join_room_iff_example = join_room_iff one_room 7 1 client_ip 0 room_state room_stands

join_room_places_example :
    (stands_at with_client 7 1 client_ip ≡ true)
    × (has_member with_client 7 1 ≡ true)
    × (peer_for_virtual_ip with_client client_ip ≡ some 1)
    × ((other : ℕ) → has_ip with_client other client_ip ≡ (1 == other))
join_room_places_example = join_room_places one_room 7 1 client_ip 0 one_room-Valid joined

abbrev suspended : PeerState
suspended = record client { disconnected_at = some 20 }

abbrev disconnected : RoomRouter
disconnected = disconnect_peer with_client 1 20

client_is_suspended : HashMap.get disconnected.peers 1 ≡ some suspended
unfolding new create_room_with_id join_room register_host add_host member_state select_host playable
    begin_discovery remember targets is_discovery_port HashMap.get HashMap.lookup HashMap.insert
    HashMap.without HashMap.modify HashMap.new HashMap.len HashSet.new HashSet.insert
    HashSet.contains HashSet.to_list HashMap.keys_where ℕ_discrete disconnect_peer forget
    remove_hosts HashMap.keys_of
client_is_suspended = refl

grace : 30 < 20 + disconnected.config.peer_grace_ttl
unfolding new create_room_with_id join_room register_host add_host member_state select_host playable
    begin_discovery remember targets is_discovery_port HashMap.get HashMap.lookup HashMap.insert
    HashMap.without HashMap.modify HashMap.new HashMap.len HashSet.new HashSet.insert
    HashSet.contains HashSet.to_list HashMap.keys_where ℕ_discrete disconnect_peer forget
    remove_hosts HashMap.keys_of
grace = omega arith

resume_peer_reconnects_example :
    (resumed : PeerState) × ((resume_peer disconnected 7 1 30).0 ≡ ok (snapshot_of 1 resumed))
    × (HashMap.get (resume_peer disconnected 7 1 30).1.peers 1 ≡ some resumed)
    × (resumed.connection_epoch ≡ 2)
    × (resumed.virtual_ip ≡ client_ip)
    × ((mark_peer_seen (resume_peer disconnected 7 1 30).1 1 30).0 ≡ ok tt)
resume_peer_reconnects_example =
    resume_peer_reconnects disconnected 1 30 20 suspended client_is_suspended refl grace
      (omega arith)
