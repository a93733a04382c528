-- ===== src/Router/State.antt =====
-- crates/router/src/lib.rs: the configuration, the errors and the state of `RoomRouter`.
-- `Instant` and `Duration` are numbers of one unit of time, which `Instant::now()` counts.
use civ6_lan_bridge.Prelude.{ℕ, Option, Result, ap, ◌≡◌, ℕ_discrete, Key, nat_key, list_key}
use civ6_lan_bridge.Prelude.HashMap
use civ6_lan_bridge.Prelude.HashMap.{HashMap}
use civ6_lan_bridge.Prelude.HashSet.{HashSet}
use civ6_lan_bridge.Protocol.Ports.{
  RoomId, PeerId, HostSessionId, DiscoveryRequestId, GameplaySessionId, VirtualIp, Civ6UdpPort,
}
use civ6_lan_bridge.Protocol.RoomCode.{RoomCode}
use civ6_lan_bridge.Protocol.Relay.{default_safe_relay_payload_size}

abbrev pub Instant : Type 0
Instant = ℕ

abbrev pub Duration : Type 0
Duration = ℕ

pub record RouterConfig : Type 0 where
  pub host_ttl : Duration
  pub discovery_ttl : Duration
  pub gameplay_idle_ttl : Duration
  pub peer_ttl : Duration
  pub peer_grace_ttl : Duration
  pub safe_payload_size : ℕ
  pub max_rooms : ℕ
  pub max_peers_per_room : ℕ
  pub max_total_peers : ℕ
  pub max_hosts_per_room : ℕ
  pub max_gameplay_sessions : ℕ

-- `RouterConfig::default`, in seconds
abbrev pub default_config : RouterConfig
default_config = record {
  host_ttl = 15;
  discovery_ttl = 5;
  gameplay_idle_ttl = 30;
  peer_ttl = 15;
  peer_grace_ttl = 45;
  safe_payload_size = default_safe_relay_payload_size;
  max_rooms = 1024;
  max_peers_per_room = 64;
  max_total_peers = 4096;
  max_hosts_per_room = 64;
  max_gameplay_sessions = 4096;
}

pub data RouterError : Type 0 where
  room_not_found : RoomId → RouterError
  duplicate_room_code : RoomCode → RouterError
  duplicate_room_id : RoomId → RouterError
  room_not_empty : RoomId → RouterError
  room_limit_reached : RouterError
  room_peer_limit_reached : RoomId → RouterError
  peer_limit_reached : RouterError
  peer_already_in_room : PeerId → RouterError
  peer_not_in_room : PeerId → RoomId → RouterError
  peer_not_found : PeerId → RouterError
  virtual_ip_in_use : VirtualIp → RouterError
  host_not_found : HostSessionId → RouterError
  host_not_in_room : HostSessionId → RoomId → RouterError
  host_expired : HostSessionId → RouterError
  host_limit_reached : RoomId → RouterError
  peer_disconnected : PeerId → RouterError
  peer_grace_expired : PeerId → RouterError
  discovery_not_found : DiscoveryRequestId → RouterError
  discovery_expired : DiscoveryRequestId → RouterError
  discovery_request_conflict : DiscoveryRequestId → RouterError
  gameplay_not_found : GameplaySessionId → RouterError
  unauthorized_gameplay_peer : PeerId → GameplaySessionId → RouterError
  gameplay_limit_reached : RouterError
  invalid_discovery_port : ℕ → RouterError
  invalid_gameplay_port : ℕ → RouterError
  datagram_too_large : ℕ → RouterError

pub record RoomState : Type 0 where
  pub code : RoomCode
  pub members : HashSet PeerId
  pub host_sessions : HashSet HostSessionId

pub record PeerState : Type 0 where
  pub room_id : RoomId
  pub virtual_ip : VirtualIp
  pub last_seen : Instant
  pub disconnected_at : Option Instant
  pub connection_epoch : ℕ

pub record HostState : Type 0 where
  pub room_id : RoomId
  pub peer_id : PeerId
  pub virtual_ip : VirtualIp
  pub last_heartbeat : Instant
  pub expires_at : Instant

pub record DiscoveryState : Type 0 where
  pub room_id : RoomId
  pub client_peer_id : PeerId
  pub destination_port : Civ6UdpPort
  pub expires_at : Instant

pub record GameplayState : Type 0 where
  pub room_id : RoomId
  pub client_peer_id : PeerId
  pub host_peer_id : PeerId
  pub host_virtual_ip : VirtualIp
  pub client_virtual_ip : VirtualIp
  pub last_activity : Instant
  pub expires_at : Instant

-- The key `(RoomId, PeerId)` of `host_by_peer`
pub record RoomPeer : Type 0 where
  pub room : RoomId
  pub peer : PeerId

pub room-≢ : (a b : RoomPeer) → ¬ (a.room ≡ b.room) → ¬ (a ≡ b)
room-≢ a b n e = n (ap (λ (k : RoomPeer). k.room) e)

pub peer-≢ : (a b : RoomPeer) → ¬ (a.peer ≡ b.peer) → ¬ (a ≡ b)
peer-≢ a b n e = n (ap (λ (k : RoomPeer). k.peer) e)

unfoldable pub RoomPeer-discrete : Discrete RoomPeer
RoomPeer-discrete a b = elim (ℕ_discrete a.room b.room) [
  | no n ↦ no (room-≢ a b n)
  | yes p ↦ elim (ℕ_discrete a.peer b.peer) [
    | no n ↦ no (peer-≢ a b n)
    | yes q ↦ yes (λ i. record { room = p i; peer = q i })
  ]
]

instance abbrev pub room_peer_key : Key RoomPeer
room_peer_key = record { decide = RoomPeer-discrete }

pub record RoomRouter : Type 0 where
  pub config : RouterConfig
  pub rooms : HashMap RoomId RoomState
  pub rooms_by_code : HashMap RoomCode RoomId
  pub peers : HashMap PeerId PeerState
  pub virtual_ips : HashMap VirtualIp PeerId
  pub hosts : HashMap HostSessionId HostState
  pub host_by_peer : HashMap RoomPeer HostSessionId
  pub discoveries : HashMap DiscoveryRequestId DiscoveryState
  pub gameplay : HashMap GameplaySessionId GameplayState

-- What a method with `&mut self` gives: its result, and the router that it leaves behind, after
-- an error too.
abbrev pub Outcome : Type 0 → Type 0
Outcome A = Result RouterError A × RoomRouter

-- `RoomRouter::new`
unfoldable pub new : RouterConfig → RoomRouter
new config = record {
  config = config;
  rooms = HashMap.new;
  rooms_by_code = HashMap.new;
  peers = HashMap.new;
  virtual_ips = HashMap.new;
  hosts = HashMap.new;
  host_by_peer = HashMap.new;
  discoveries = HashMap.new;
  gameplay = HashMap.new;
}
