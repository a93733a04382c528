-- ===== src/Router/Invariant.antt =====
-- crates/router/src/lib.rs: what is to hold of the tables of a `RoomRouter` between two calls.
pub mod Rooms
pub mod Joins
pub mod Removal
pub mod Hosts
pub mod Sessions
pub mod Dropping
pub mod Leaving
pub mod Expiring
pub mod Reachable
use civ6_lan_bridge.Prelude.{
  ℕ, ◌≤◌, ◌≡◌, Bool, true, false, ◌&&◌, ◌==◌, nat_key, list_key, Option, none, some, refl, arith,
}
use civ6_lan_bridge.Prelude.HashMap
use civ6_lan_bridge.Prelude.HashSet
use civ6_lan_bridge.Protocol.Ports.{
  RoomId, PeerId, HostSessionId, DiscoveryRequestId, GameplaySessionId, VirtualIp,
}
use civ6_lan_bridge.Protocol.RoomCode.{RoomCode}
use civ6_lan_bridge.Router.State.{
  RoomState, PeerState, HostState, DiscoveryState, GameplayState, room_peer_key, RoomRouter,
}
use civ6_lan_bridge.Router.Hosts.{room_peer}

abbrev pub satisfies {ℓ} : {A : Type ℓ} → (A → Bool) → Option A → Bool
satisfies f none = false
satisfies f (some a) = f a

abbrev pub holds_for {ℓ} : {A : Type ℓ} → (A → Bool) → Option A → Bool
holds_for f none = true
holds_for f (some a) = f a

-- The room counts the peer as a member; the peer's state names the room.
abbrev pub has_member : RoomRouter → RoomId → PeerId → Bool
has_member s r p =
    satisfies (λ (room : RoomState). HashSet.contains room.members p) (HashMap.get s.rooms r)

abbrev pub in_room : RoomRouter → RoomId → PeerId → Bool
in_room s r p = satisfies (λ (peer : PeerState). peer.room_id == r) (HashMap.get s.peers p)

-- The address belongs to the peer, by the table of addresses and by the peer's state.
abbrev pub ip_leads_to : RoomRouter → VirtualIp → PeerId → Bool
ip_leads_to s ip p = satisfies (λ q. q == p) (HashMap.get s.virtual_ips ip)

abbrev pub has_ip : RoomRouter → PeerId → VirtualIp → Bool
has_ip s p ip = satisfies (λ (peer : PeerState). peer.virtual_ip == ip) (HashMap.get s.peers p)

abbrev pub code_leads_to : RoomRouter → RoomCode → RoomId → Bool
code_leads_to s c r = satisfies (λ q. q == r) (HashMap.get s.rooms_by_code c)

abbrev pub has_code : RoomRouter → RoomId → RoomCode → Bool
has_code s r c = satisfies (λ (room : RoomState). room.code == c) (HashMap.get s.rooms r)

abbrev pub lists_session : RoomRouter → RoomId → HostSessionId → Bool
lists_session s r h =
    satisfies (λ (room : RoomState). HashSet.contains room.host_sessions h) (HashMap.get s.rooms r)

abbrev pub hosted_in : RoomRouter → HostSessionId → RoomId → Bool
hosted_in s h r = satisfies (λ (host : HostState). host.room_id == r) (HashMap.get s.hosts h)

abbrev pub peer_leads_to : RoomRouter → RoomId → PeerId → HostSessionId → Bool
peer_leads_to s r p h = satisfies (λ q. q == h) (HashMap.get s.host_by_peer (room_peer r p))

abbrev pub hosted_by : RoomRouter → HostSessionId → RoomId → PeerId → Bool
hosted_by s h r p =
    satisfies (λ (host : HostState). host.room_id == r && host.peer_id == p) (HashMap.get s.hosts h)

-- The peer is in the room, under the address.
abbrev pub stands_at : RoomRouter → RoomId → PeerId → VirtualIp → Bool
stands_at s r p ip =
    satisfies (λ (peer : PeerState). peer.room_id == r && peer.virtual_ip == ip)
      (HashMap.get s.peers p)

abbrev pub host_stands : RoomRouter → HostState → Bool
host_stands s host = stands_at s host.room_id host.peer_id host.virtual_ip

abbrev pub session_stands : RoomRouter → GameplayState → Bool
session_stands s g =
    stands_at s g.room_id g.client_peer_id g.client_virtual_ip
    && stands_at s g.room_id g.host_peer_id g.host_virtual_ip

abbrev pub discovery_stands : RoomRouter → DiscoveryState → Bool
discovery_stands s d = in_room s d.room_id d.client_peer_id

-- The tables describe one state of affairs: members and peers, addresses and peers, codes and
-- rooms, sessions of rooms and hosts, and peers that host and hosts determine one another; hosts,
-- gameplay sessions and discovery requests belong to peers that are in their room, at the
-- addresses that they were given.
pub record Valid (s : RoomRouter) : Type 0 where
  pub members_agree : (r : RoomId) (p : PeerId) → has_member s r p ≡ in_room s r p
  pub ips_agree : (ip : VirtualIp) (p : PeerId) → ip_leads_to s ip p ≡ has_ip s p ip
  pub codes_agree : (c : RoomCode) (r : RoomId) → code_leads_to s c r ≡ has_code s r c
  pub sessions_agree : (r : RoomId) (h : HostSessionId) → lists_session s r h ≡ hosted_in s h r
  pub hosts_agree :
      (r : RoomId) (p : PeerId) (h : HostSessionId) → peer_leads_to s r p h ≡ hosted_by s h r p
  pub hosts_stand : (h : HostSessionId) → holds_for (host_stands s) (HashMap.get s.hosts h) ≡ true
  pub gameplay_stands :
      (g : GameplaySessionId) → holds_for (session_stands s) (HashMap.get s.gameplay g) ≡ true
  pub discoveries_stand :
      (d : DiscoveryRequestId) → holds_for (discovery_stands s) (HashMap.get s.discoveries d) ≡ true

pub holds_for_mono {ℓ} :
    {A : Type ℓ} (f g : A → Bool) (o : Option A)
    → ((a : A) → f a ≡ true → g a ≡ true)
    → holds_for f o ≡ true
    → holds_for g o ≡ true
holds_for_mono f g none keep h = refl
holds_for_mono f g (some a) keep h = keep a h

-- Where every peer that stands in its room still does, so do the hosts, the sessions and the
-- requests, each by one of the three.
module _ (s t : RoomRouter)
    (keep : (r : RoomId) (p : PeerId) (ip : VirtualIp)
      → stands_at s r p ip ≡ true
      → stands_at t r p ip ≡ true) where
  pub host_stands_mono : (host : HostState) → host_stands s host ≡ true → host_stands t host ≡ true
  host_stands_mono host h = keep host.room_id host.peer_id host.virtual_ip h

  pub session_stands_mono :
      (g : GameplayState) → session_stands s g ≡ true → session_stands t g ≡ true
  session_stands_mono g h = ground (
    arith,
    keep g.room_id g.client_peer_id g.client_virtual_ip,
    keep g.room_id g.host_peer_id g.host_virtual_ip,
  )
