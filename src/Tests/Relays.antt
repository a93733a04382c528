-- ===== src/Tests/Relays.antt =====
-- The theorems on the server's parts at the room of the tests.
use civ6_lan_bridge.Prelude.{
  ℕ, ◌+◌, ◌-◌, ◌≤◌, ◌<◌, ◌≡◌, ◌≢◌, ◌↔◌, ◌⊎◌, refl, arith, true, false, nat_key, list_key, none,
  some, ok, err, List, [], ◌∷◌, length, min, ℕ_discrete,
}
use civ6_lan_bridge.Prelude.HashMap
use civ6_lan_bridge.Prelude.HashSet
use civ6_lan_bridge.Protocol.Relay.{
  RelayMessage, RelayEnvelopeMeta, gameplay_packet, gameplay_to_peer,
}
use civ6_lan_bridge.Router.State.{PeerState, HostState, new}
use civ6_lan_bridge.Router.Rooms.{
  create_room_with_id, member_state, peer_virtual_ip, validate_payload, peer_for_virtual_ip,
  peer_connection_epoch,
}
use civ6_lan_bridge.Router.Hosts.{register_host, add_host}
use civ6_lan_bridge.Router.Peers.{join_room, mark_peer_seen}
use civ6_lan_bridge.Router.Discovery.{begin_discovery, remember, targets}
use civ6_lan_bridge.Router.Gameplay.{select_host, playable, opposite, route_gameplay_datagram}
use civ6_lan_bridge.Router.Dispatch.{dispatch, dispatch_gameplay}
use civ6_lan_bridge.Router.Invariant.{Valid, in_room}
use civ6_lan_bridge.Protocol.Ports.{is_discovery_port}
use civ6_lan_bridge.Server.Metrics.{
  default_metrics, record_received, record_sequence, new_sequence, duplicate, reordered,
}
use civ6_lan_bridge.Server.Metrics.Replay.{record_sequence_replay, Bounded}
use civ6_lan_bridge.Server.RateLimiter.{
  RateWindow, FixedWindowRateLimiter, new_limiter, allow, open_window,
}
use civ6_lan_bridge.Server.RateLimiter.Windows.{allowed, asked, allowed-min}
use civ6_lan_bridge.Server.State.{
  AppState, Prefix, allocate_virtual_ip, PersistedState, restore_persisted_state,
}
use civ6_lan_bridge.Server.State.Allocation.{IsFirst, allocate_virtual_ip-IsFirst}
use civ6_lan_bridge.Server.State.Restart.{AllOpen, AllStand, restore_persisted_state_lem}
use civ6_lan_bridge.Server.Relay.{
  Clocks, OutboundDatagram, act, route_message, carry, authenticate, receive, action_to_datagrams,
  handle_datagram, limit_source, admit, duplicate_sequence, relay_destination,
}
use civ6_lan_bridge.Server.Relay.Isolation.{StaysIn, route_message_isolation}
use civ6_lan_bridge.Server.Relay.Guards.{authenticate_iff, Answered, receive_admits}
use civ6_lan_bridge.Server.Relay.Replays.{Turn, carry_all, carry_replay}
use civ6_lan_bridge.Server.Relay.Turn.{Socket}
use civ6_lan_bridge.Tests.{client_ip, host_ip, asking, asking-Valid}
use civ6_lan_bridge.Tests.Packets.{uuid_bytes, encoded}

abbrev meta : RelayEnvelopeMeta
meta = record { sequence = 5; connection_epoch = 1; sent_at_ms = 1000; path_id = some 1 }

abbrev play : RelayMessage
play = gameplay_packet 90 62056 (1 ∷ 2 ∷ 3 ∷ [])

abbrev clocks : Clocks
clocks = record { arrival = 2; now = 2; unix_ms = 2000 }

abbrev prefix : Prefix
prefix = record { first = 10; second = 240; third = 0 }

abbrev state : AppState
state = record {
  router = asking;
  bearer_token = [];
  database = false;
  wireguard = none;
  peer_keys = HashMap.new;
  users = HashMap.new;
  client_sessions = HashMap.new;
  metrics = default_metrics 0;
  api_rate_limiter = new_limiter 120 1;
  udp_rate_limiter = new_limiter 2000 1;
  virtual_ip_prefix = prefix;
}

abbrev first_out : OutboundDatagram
first_out = record {
  destination = relay_destination host_ip 32000;
  message = gameplay_to_peer 90 client_ip 62056 (1 ∷ 2 ∷ 3 ∷ []);
  meta = meta;
}

abbrev out : List OutboundDatagram
out = first_out ∷ []

routed : (route_message asking 32000 1 meta play 2).0 ≡ ok out
unfolding new create_room_with_id join_room register_host add_host member_state select_host playable
    begin_discovery remember targets is_discovery_port HashMap.get HashMap.lookup HashMap.insert
    HashMap.without HashMap.modify HashMap.new HashMap.len HashSet.new HashSet.insert
    HashSet.contains HashSet.to_list HashMap.keys_where ℕ_discrete route_message act dispatch
    dispatch_gameplay validate_payload route_gameplay_datagram opposite action_to_datagrams
    peer_virtual_ip
routed = refl

is_member : in_room asking 7 1 ≡ true
unfolding new create_room_with_id join_room register_host add_host member_state select_host playable
    begin_discovery remember targets is_discovery_port HashMap.get HashMap.lookup HashMap.insert
    HashMap.without HashMap.modify HashMap.new HashMap.len HashSet.new HashSet.insert
    HashSet.contains HashSet.to_list HashMap.keys_where ℕ_discrete
is_member = refl

route_message_isolation_example : StaysIn asking 7 out
route_message_isolation_example =
    route_message_isolation asking 7 32000 1 meta play 2 out asking-Valid is_member routed

-- Any function can stand for the hash.
abbrev fingerprint : List ℕ → ℕ
fingerprint packet = length packet

fresh : (record_sequence state.metrics 1 5).0 ≡ new_sequence
unfolding record_sequence default_metrics HashMap.get HashMap.lookup HashMap.new ℕ_discrete
fresh = refl

carried : (carry state 32000 1 meta play clocks).0 ≡ ok out
unfolding new create_room_with_id join_room register_host add_host member_state select_host playable
    begin_discovery remember targets is_discovery_port HashMap.get HashMap.lookup HashMap.insert
    HashMap.without HashMap.modify HashMap.new HashMap.len HashSet.new HashSet.insert
    HashSet.contains HashSet.to_list HashMap.keys_where ℕ_discrete route_message act dispatch
    dispatch_gameplay validate_payload route_gameplay_datagram opposite action_to_datagrams
    peer_virtual_ip carry mark_peer_seen record_sequence default_metrics
carried = refl

abbrev other : Turn
other = record { peer = 2; meta = meta; message = play; clocks = clocks }

room_left :
    HashMap.len (carry state 32000 1 meta play clocks).1.metrics.sequence_tracker + 1 ≤ 65536
unfolding new create_room_with_id join_room register_host add_host member_state select_host playable
    begin_discovery remember targets is_discovery_port HashMap.get HashMap.lookup HashMap.insert
    HashMap.without HashMap.modify HashMap.new HashMap.len HashSet.new HashSet.insert
    HashSet.contains HashSet.to_list HashMap.keys_where ℕ_discrete route_message act dispatch
    dispatch_gameplay validate_payload route_gameplay_datagram opposite action_to_datagrams
    peer_virtual_ip carry mark_peer_seen record_sequence default_metrics
room_left = omega arith

carry_replay_example :
    (carry
      (carry_all 32000 (other ∷ []) (carry state 32000 1 meta play clocks).1)
      32000
      1
      meta
      play
      clocks).0
    ≡ err (duplicate_sequence 5)
carry_replay_example =
    carry_replay state 32000 1 meta play clocks clocks out (other ∷ []) fresh carried
      (omega arith, tt) room_left

received :
    (receive uuid_bytes fingerprint state 32000
      (relay_destination client_ip 32000)
      encoded.0
      clocks).0
    ≡ out
unfolding new create_room_with_id join_room register_host add_host member_state select_host playable
    begin_discovery remember targets is_discovery_port HashMap.get HashMap.lookup HashMap.insert
    HashMap.without HashMap.modify HashMap.new HashMap.len HashSet.new HashSet.insert
    HashSet.contains HashSet.to_list HashMap.keys_where ℕ_discrete route_message act dispatch
    dispatch_gameplay validate_payload route_gameplay_datagram opposite action_to_datagrams
    peer_virtual_ip carry mark_peer_seen record_sequence default_metrics receive handle_datagram
    limit_source admit authenticate peer_for_virtual_ip peer_connection_epoch record_received
    new_limiter allow open_window HashMap.retain HashMap.filter
received = rw (encoded.2, receive, handle_datagram) refl

receive_admits_example :
    Answered uuid_bytes
      (record state {
        metrics = record_received fingerprint state.metrics encoded.0 clocks.arrival;
      })
      (relay_destination client_ip 32000)
      encoded.0
      clocks
receive_admits_example =
    receive_admits uuid_bytes fingerprint state 32000 (relay_destination client_ip 32000) encoded.0
      clocks first_out [] received

-- A socket that sends everything
abbrev socket : Socket
socket = record { Outside = Unit; send_to = λ packet address outside. (true, outside) }

abbrev client : PeerState
client = record {
  room_id = 7;
  virtual_ip = client_ip;
  last_seen = 0;
  disconnected_at = none;
  connection_epoch = 1;
}

abbrev host : HostState
host = record {
  room_id = 7;
  peer_id = 2;
  virtual_ip = host_ip;
  last_heartbeat = 0;
  expires_at = 15;
}

client_stands : HashMap.get asking.peers 1 ≡ some client
unfolding new create_room_with_id join_room register_host add_host member_state select_host playable
    begin_discovery remember targets is_discovery_port HashMap.get HashMap.lookup HashMap.insert
    HashMap.without HashMap.modify HashMap.new HashMap.len HashSet.new HashSet.insert
    HashSet.contains HashSet.to_list HashMap.keys_where ℕ_discrete
client_stands = refl

host_stands : HashMap.get asking.hosts 50 ≡ some host
unfolding new create_room_with_id join_room register_host add_host member_state select_host playable
    begin_discovery remember targets is_discovery_port HashMap.get HashMap.lookup HashMap.insert
    HashMap.without HashMap.modify HashMap.new HashMap.len HashSet.new HashSet.insert
    HashSet.contains HashSet.to_list HashMap.keys_where ℕ_discrete
host_stands = refl

authenticate_iff_example : (authenticate asking client_ip meta ≡ ok 1) ↔ (
    (HashMap.get asking.virtual_ips client_ip ≡ some 1)
    × ((meta.connection_epoch ≡ 0) ⊎ (meta.connection_epoch ≡ client.connection_epoch)))
authenticate_iff_example = authenticate_iff asking client_ip meta 1 client client_stands

default-Bounded : Bounded (default_metrics 0)
unfolding default_metrics HashMap.new HashMap.len
default-Bounded = record { seen = omega arith; tracked = omega arith }

record_sequence_replay_example :
    ((record_sequence (record_sequence state.metrics 1 5).1 1 5).0 ≡ duplicate)
    × (◌<◌ 3 5
        → ◌≢◌ {A = ℕ} 3 0
        → (record_sequence (record_sequence state.metrics 1 5).1 1 3).0 ≡ reordered)
    × (5 < 3 → (record_sequence (record_sequence state.metrics 1 5).1 1 3).0 ≡ new_sequence)
record_sequence_replay_example = record_sequence_replay state.metrics 1 5 3 fresh

-- A limiter of two requests in ten seconds, and one request of key 3 at time 1.
abbrev limiter : FixedWindowRateLimiter ℕ
limiter = (allow (new_limiter {K = ℕ} 2 10) 3 1).1

abbrev requests : List (ℕ × ℕ)
requests = (3, 2) ∷ (4, 3) ∷ (3, 4) ∷ []

abbrev opened : RateWindow
opened = record { started_at = 1; count = 1 }

limiter_entry : HashMap.get limiter.entries 3 ≡ some opened
unfolding new_limiter allow open_window HashMap.get HashMap.lookup HashMap.insert HashMap.without
    HashMap.retain HashMap.filter HashMap.new ℕ_discrete
limiter_entry = refl

limiter-window : limiter.window ≡ 10
unfolding new_limiter allow open_window HashMap.get HashMap.lookup HashMap.insert HashMap.without
    HashMap.retain HashMap.filter HashMap.new ℕ_discrete
limiter-window = refl

allowed-min_example : allowed limiter 3 requests ≡ min (asked 3 requests) (limiter.limit - 1)
allowed-min_example = allowed-min limiter 3 opened requests limiter_entry (
  omega (arith, limiter-window),
  (omega (arith, limiter-window), (omega (arith, limiter-window), tt)),
)

allocate_virtual_ip-IsFirst_example :
    IsFirst asking prefix 2 255 (allocate_virtual_ip asking prefix)
allocate_virtual_ip-IsFirst_example = allocate_virtual_ip-IsFirst asking prefix

abbrev persisted : PersistedState
persisted = record {
  rooms = record { room_id = 8; room_code = b'A' ∷ b'A' ∷ b'A' ∷ b'A' ∷ b'A' ∷ b'A' ∷ [] } ∷ [];
  peers =
      record { peer_id = 3; room_id = 8; virtual_ip = 3; wireguard_public_key = b'k' ∷ [] } ∷ [];
}

restore_persisted_state_lem_example :
    Valid (restore_persisted_state state persisted 9).1.router
    × ((restore_persisted_state state persisted 9).0 ≡ ok tt
        → AllOpen (restore_persisted_state state persisted 9).1.router persisted.rooms
          × AllStand (restore_persisted_state state persisted 9).1.router persisted.peers)
restore_persisted_state_lem_example = restore_persisted_state_lem state persisted 9 asking-Valid
