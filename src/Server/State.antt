-- ===== src/Server/State.antt =====
-- server/src/state.rs: `AppState`, the restart of a server from its database, and the allocation
-- of virtual addresses. The locks are held by one task at a time, so that a call is one step.
pub mod Allocation
pub mod Restart
use civ6_lan_bridge.Prelude.{
  ℕ, zero, suc, ◌+◌, ◌*◌, Bool, true, false, if◌then◌else◌, nat_key, list_key, Option, none, some,
  List, [], ◌∷◌, Result, ok, err,
}
use civ6_lan_bridge.Prelude.HashMap
use civ6_lan_bridge.Prelude.HashMap.{HashMap}
use civ6_lan_bridge.Protocol.Ports.{RoomId, PeerId, VirtualIp}
use civ6_lan_bridge.Protocol.RoomCode.{RoomCode}
use civ6_lan_bridge.Protocol.Relay.Codec.{ipv4_new}
use civ6_lan_bridge.Router.State.{
  Instant, Duration, RoomRouter, Outcome, default_config, RouterError,
}
use civ6_lan_bridge.Router.State
use civ6_lan_bridge.Router.Rooms.{create_room_with_id, is_virtual_ip_available}
use civ6_lan_bridge.Router.Peers.{restore_peer}
use civ6_lan_bridge.Server.Metrics.{RelayMetrics, default_metrics}
use civ6_lan_bridge.Server.WireGuard.{WireGuardManager}
use civ6_lan_bridge.Server.RateLimiter.{FixedWindowRateLimiter, new_limiter}

abbrev api_requests_per_second : ℕ
api_requests_per_second = 120

abbrev udp_packets_per_second : ℕ
udp_packets_per_second = 2000

-- The three bytes that every virtual address starts with.
pub record Prefix : Type 0 where
  pub first : ℕ
  pub second : ℕ
  pub third : ℕ

-- The text of a hash, as the `argon2` crate writes it
pub record UserAccount : Type 0 where
  pub password_hash : List ℕ

pub record ClientSession : Type 0 where
  pub expires_at : Instant

-- Of a database that is configured, what the program keeps is its connection; of `wg`, the
-- interface's name. A string is the list of its code points. The UDP limiter's key is the source
-- address.
pub record AppState : Type 0 where
  pub router : RoomRouter
  pub bearer_token : List ℕ
  pub database : Bool
  pub wireguard : Option WireGuardManager
  pub peer_keys : HashMap PeerId (List ℕ)
  pub users : HashMap (List ℕ) UserAccount
  pub client_sessions : HashMap (List ℕ) ClientSession
  pub metrics : RelayMetrics
  pub api_rate_limiter : FixedWindowRateLimiter (List ℕ)
  pub udp_rate_limiter : FixedWindowRateLimiter VirtualIp
  pub virtual_ip_prefix : Prefix

-- 30 days, in seconds
abbrev pub client_session_ttl : Duration
client_session_ttl = 30 * 24 * 60 * 60

-- `AppState::new`, with durations in seconds
unfoldable new_state : List ℕ → Instant → AppState
new_state bearer_token now = record {
  router = State.new default_config;
  bearer_token = bearer_token;
  database = false;
  wireguard = none;
  peer_keys = HashMap.new;
  users = HashMap.new;
  client_sessions = HashMap.new;
  metrics = default_metrics now;
  api_rate_limiter = new_limiter api_requests_per_second 1;
  udp_rate_limiter = new_limiter udp_packets_per_second 1;
  virtual_ip_prefix = record { first = 10; second = 240; third = 0 };
}

unfoldable with_database : AppState → AppState
with_database app = record app { database = true }

unfoldable with_wireguard : WireGuardManager → AppState → AppState
with_wireguard manager app = record app { wireguard = some manager }

unfoldable with_virtual_ip_prefix : Prefix → AppState → AppState
with_virtual_ip_prefix prefix app = record app { virtual_ip_prefix = prefix }

-- server/src/db.rs: what is read from the database
pub record PersistedRoom : Type 0 where
  pub room_id : RoomId
  pub room_code : RoomCode

pub record PersistedPeer : Type 0 where
  pub peer_id : PeerId
  pub room_id : RoomId
  pub virtual_ip : VirtualIp
  pub wireguard_public_key : List ℕ

pub record PersistedState : Type 0 where
  pub rooms : List PersistedRoom
  pub peers : List PersistedPeer

unfoldable pub restore_rooms : RoomRouter → List PersistedRoom → Outcome (Unit {0})
restore_rooms s [] = (ok tt, s)
restore_rooms s (room ∷ rooms) =
    let (result, t) = create_room_with_id s room.room_id room.room_code in
    elim result [ err e ↦ (err e, t) | ok _ ↦ restore_rooms t rooms ]

-- The second loop; the third value is `peer_keys`.
unfoldable pub restore_peers :
    RoomRouter
    → HashMap PeerId (List ℕ)
    → List PersistedPeer
    → Instant
    → Outcome (Unit {0}) × HashMap PeerId (List ℕ)
restore_peers s keys [] now = ((ok tt, s), keys)
restore_peers s keys (peer ∷ peers) now =
    let (result, t) = restore_peer s peer.room_id peer.peer_id peer.virtual_ip now in
    elim result [
      | err e ↦ ((err e, t), keys)
      | ok _ ↦
          restore_peers t (HashMap.insert keys peer.peer_id peer.wireguard_public_key) peers now
    ]

unfoldable pub restore_persisted_state :
    AppState → PersistedState → Instant → Result RouterError (Unit {0}) × AppState
restore_persisted_state st persisted now =
    let (result, t) = restore_rooms st.router persisted.rooms in
    elim result [
      | err e ↦ (err e, record st { router = t })
      | ok _ ↦
          let ((result', u), keys) = restore_peers t st.peer_keys persisted.peers now in
          (result', record st { router = u; peer_keys = keys })
    ]

abbrev pub candidate : Prefix → ℕ → VirtualIp
candidate prefix last_octet = ipv4_new prefix.first prefix.second prefix.third last_octet

-- `find` over the `count` octets that start at `octet`
unfoldable pub find_available : RoomRouter → Prefix → (octet count : ℕ) → Option VirtualIp
find_available s prefix octet zero = none
find_available s prefix octet (suc count) =
    let rest = find_available s prefix (octet + 1) count in
    if is_virtual_ip_available s (candidate prefix octet)
    then some (candidate prefix octet)
    else rest

-- The octets `2..=254`
unfoldable pub allocate_virtual_ip : RoomRouter → Prefix → Option VirtualIp
allocate_virtual_ip s prefix = find_available s prefix 2 253
