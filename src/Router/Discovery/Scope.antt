-- ===== src/Router/Discovery/Scope.antt =====
-- crates/router/src/lib.rs: whom `begin_discovery` and `route_discovery_response` reach.
use civ6_lan_bridge.Prelude.{
  ℕ, ◌<◌, ◌≡◌, ◌≢◌, ◌⊎◌, ◌↔◌, refl, Bool, true, ◌&&◌, ◌||◌, ◌==◌, ltb, nat_key, Option, none, some,
  arith, ok, err, List, [], ◌∷◌, ◌++◌, elem, map,
}
use civ6_lan_bridge.Prelude.HashMap
use civ6_lan_bridge.Prelude.HashSet
use civ6_lan_bridge.Protocol.Ports.{
  RoomId, PeerId, HostSessionId, DiscoveryRequestId, Civ6UdpPort, is_discovery_port,
}
use civ6_lan_bridge.Router.State.{
  RoomState, PeerState, HostState, DiscoveryState, RoomRouter, Instant, discovery_request_conflict,
}
use civ6_lan_bridge.Router.Rooms.{member_state}
use civ6_lan_bridge.Router.Hosts.{sessions_of}
use civ6_lan_bridge.Router.Discovery.{
  DiscoveryTarget, live_target, targets, remember, begin_discovery, route_discovery_response,
}
use civ6_lan_bridge.Router.Invariant.{Valid, satisfies}

-- The target is the session's host, as the table has it.
abbrev pub is_target : DiscoveryTarget → HostSessionId → HostState → Bool
is_target t h host =
    t.host_session_id == h
    && (t.host_peer_id == host.peer_id && t.host_virtual_ip == host.virtual_ip)

abbrev pub aims_at : HostSessionId → List DiscoveryTarget → Bool
aims_at h ts = elem h (map (λ (t : DiscoveryTarget). t.host_session_id) ts)

abbrev pub is_live : Instant → HostState → Bool
is_live now host = ltb now host.expires_at

elem-append : (h : ℕ) (xs ys : List ℕ) → elem h (xs ++ ys) ≡ (elem h xs || elem h ys)
elem-append h [] ys = refl
elem-append h (x ∷ xs) ys = ground (arith, elem-append h xs ys)

aims_at-append :
    (h : HostSessionId) (ts us : List DiscoveryTarget)
    → aims_at h (ts ++ us) ≡ (aims_at h ts || aims_at h us)
aims_at-append h [] us = refl
aims_at-append h (t ∷ ts) us = ground (arith, aims_at-append h ts us)

aims_at-live_target :
    (now : Instant) (h id : HostSessionId) (o : Option HostState)
    → aims_at h (live_target now id o) ≡ (id == h && satisfies (is_live now) o)
aims_at-live_target now h id none = ground arith
aims_at-live_target now h id (some host) = ground arith

aims_at-targets :
    (s : RoomRouter) (now : Instant) (ids : List HostSessionId) (h : HostSessionId)
    → aims_at h (targets s now ids)
      ≡ (elem h ids && satisfies (is_live now) (HashMap.get s.hosts h))
unfolding targets
aims_at-targets s now [] h = refl
aims_at-targets s now (id ∷ ids) h = ground (
  arith,
  aims_at-append h (live_target now id (HashMap.get s.hosts id)) (targets s now ids),
  aims_at-live_target now h id (HashMap.get s.hosts id),
  aims_at-targets s now ids h,
)

pub listed :
    (o : Option RoomState) (h : HostSessionId)
    → elem h (HashSet.to_list (sessions_of o))
      ≡ satisfies (λ (room : RoomState). HashSet.contains room.host_sessions h) o
listed none h = ground (arith, HashSet.elem-to_list (sessions_of none) h, HashSet.contains-new h)
listed (some room) h = HashSet.elem-to_list room.host_sessions h

pub begin_discovery-ok :
    (s : RoomRouter) (room_id : RoomId) (client_peer_id : PeerId) (request_id : DiscoveryRequestId)
    (port : Civ6UdpPort) (now : Instant) (ts : List DiscoveryTarget)
    → (begin_discovery s room_id client_peer_id request_id port now).0 ≡ ok ts
    → ts ≡ targets s now (HashSet.to_list (sessions_of (HashMap.get s.rooms room_id)))
unfolding begin_discovery
begin_discovery-ok s room_id client_peer_id request_id port now ts h = ground arith

-- In a router whose tables agree, a successful discovery is fanned out to a host session exactly
-- if the session is in the room of the request and has not expired.
pub begin_discovery_scope :
    (s : RoomRouter) (room_id : RoomId) (client_peer_id : PeerId) (request_id : DiscoveryRequestId)
    (port : Civ6UdpPort) (now : Instant) (ts : List DiscoveryTarget)
    → Valid s
    → (begin_discovery s room_id client_peer_id request_id port now).0 ≡ ok ts
    → (h : HostSessionId)
    → aims_at h ts
      ≡ satisfies
          (λ (host : HostState). host.room_id == room_id && is_live now host)
          (HashMap.get s.hosts h)
begin_discovery_scope s room_id client_peer_id request_id port now ts v done h = ground (
  arith,
  begin_discovery-ok s room_id client_peer_id request_id port now ts done,
  aims_at-targets s now (HashSet.to_list (sessions_of (HashMap.get s.rooms room_id))) h,
  listed (HashMap.get s.rooms room_id) h,
  v.sessions_agree room_id h,
)

-- For a known request and host session, a response is routed to a peer exactly if neither has
-- expired, both are of one room, and the peer is the one that asked.
pub route_discovery_response_iff :
    (s : RoomRouter) (request_id : DiscoveryRequestId) (host_session_id : HostSessionId)
    (now : Instant) (d : DiscoveryState) (host : HostState) (peer_id : PeerId)
    → HashMap.get s.discoveries request_id ≡ some d
    → HashMap.get s.hosts host_session_id ≡ some host
    → (route_discovery_response s request_id host_session_id now ≡ ok peer_id) ↔ (
        (now < d.expires_at)
        × (now < host.expires_at)
        × (host.room_id ≡ d.room_id)
        × (peer_id ≡ d.client_peer_id))
unfolding route_discovery_response
route_discovery_response_iff s request_id host_session_id now d host peer_id e f =
    (λ h. ground arith, λ h. ground arith)

-- A member's request to a discovery port under an identifier that stands for another room, peer
-- or port is refused as a conflict, and nothing changes.
pub begin_discovery_conflict :
    (s : RoomRouter) (room_id : RoomId) (client_peer_id : PeerId) (request_id : DiscoveryRequestId)
    (port : Civ6UdpPort) (now : Instant) (d : DiscoveryState) (peer : PeerState)
    → is_discovery_port port ≡ true
    → member_state s room_id client_peer_id ≡ ok peer
    → HashMap.get s.discoveries request_id ≡ some d
    → (d.room_id ≢ room_id) ⊎ (d.client_peer_id ≢ client_peer_id) ⊎ (d.destination_port ≢ port)
    → begin_discovery s room_id client_peer_id request_id port now
      ≡ (err (discovery_request_conflict request_id), s)
unfolding begin_discovery remember
begin_discovery_conflict s room_id client_peer_id request_id port now d peer q m e n = ground arith
