-- ===== src/Server/Relay/Isolation.antt =====
-- server/src/relay.rs: where the datagrams go that answer a message.
use civ6_lan_bridge.Prelude.{
  ℕ, ◌≡◌, refl, Bool, true, false, ◌==◌, nat_key, Option, none, some, arith, Option-cases,
  Result-cases, ok, inl, inr, List, [], ◌∷◌, ◌++◌, elem, map, subst, sym,
}
use civ6_lan_bridge.Prelude.HashMap
use civ6_lan_bridge.Prelude.HashSet
use civ6_lan_bridge.Protocol.Ports.{
  RoomId, PeerId, VirtualIp, HostSessionId, DiscoveryRequestId, GameplaySessionId,
}
use civ6_lan_bridge.Protocol.Relay.{
  RelayMessage, discovery_request, discovery_to_host, discovery_response, discovery_to_client,
  gameplay_packet, gameplay_to_peer, relay_probe, relay_probe_ack, RelayEnvelopeMeta,
}
use civ6_lan_bridge.Router.State.{RoomRouter, Instant, HostState}
use civ6_lan_bridge.Router.Rooms.{room_for_peer, peer_virtual_ip, host_snapshot}
use civ6_lan_bridge.Router.Hosts.{sessions_of}
use civ6_lan_bridge.Router.Discovery.{
  DiscoveryTarget, targets, live_target, begin_discovery, route_discovery_response,
}
use civ6_lan_bridge.Router.Discovery.Scope.{begin_discovery-ok, listed}
use civ6_lan_bridge.Router.Gameplay.{route_gameplay_datagram}
use civ6_lan_bridge.Router.Gameplay.Routing.{route_gameplay_datagram-IsRoute}
use civ6_lan_bridge.Router.Dispatch.{
  RelayIngress, discovery, gameplay, RelayAction, discovery_fanout, discovery_unicast,
  gameplay_unicast, dispatch, dispatch_discovery, dispatch_response, dispatch_gameplay,
}
use civ6_lan_bridge.Router.Dispatch
use civ6_lan_bridge.Router.Invariant.{Valid, satisfies, holds_for, stands_at, in_room, hosted_in}
use civ6_lan_bridge.Server.Relay.{
  IpAddr, v4, v6, OutboundDatagram, act, action_to_datagrams, route_message, to_host, to_client,
  to_peer,
}

-- The address is that of a peer in the room.
abbrev pub is_ip_in : RoomRouter → RoomId → VirtualIp → Bool
is_ip_in s r ip = satisfies (λ p. in_room s r p) (HashMap.get s.virtual_ips ip)

abbrev pub goes_to_room : RoomRouter → RoomId → IpAddr → Bool
goes_to_room s r (v4 ip) = is_ip_in s r ip
goes_to_room s r (v6 _) = false

-- Every datagram goes to the address of a peer in the room.
abbrev pub StaysIn : RoomRouter → RoomId → List OutboundDatagram → Type 0
StaysIn s r [] = Unit
StaysIn s r (d ∷ ds) = (goes_to_room s r d.destination.ip ≡ true) × StaysIn s r ds

abbrev TargetsIn : RoomRouter → RoomId → List DiscoveryTarget → Type 0
TargetsIn s r [] = Unit
TargetsIn s r (t ∷ ts) = (stands_at s r t.host_peer_id t.host_virtual_ip ≡ true) × TargetsIn s r ts

abbrev AimsIn : RoomRouter → RoomId → RelayAction → Type 0
AimsIn s r (discovery_fanout _ _ _ ts _) = TargetsIn s r ts
AimsIn s r (discovery_unicast _ destination _ _ _) = in_room s r destination ≡ true
AimsIn s r (gameplay_unicast route _ _) =
    stands_at s r route.destination_peer_id route.destination_virtual_ip ≡ true

stands_at-is_ip_in :
    (s : RoomRouter) (r : RoomId) (p : PeerId) (ip : VirtualIp)
    → Valid s
    → stands_at s r p ip ≡ true
    → is_ip_in s r ip ≡ true
stands_at-is_ip_in s r p ip v h = ground (arith, v.ips_agree ip p)

-- The fan-out.
TargetsIn-append :
    (s : RoomRouter) (r : RoomId) (ts us : List DiscoveryTarget)
    → TargetsIn s r ts
    → TargetsIn s r us
    → TargetsIn s r (ts ++ us)
TargetsIn-append s r [] us a b = b
TargetsIn-append s r (t ∷ ts) us (a, rest) b = (a, TargetsIn-append s r ts us rest b)

live_target-TargetsIn :
    (s : RoomRouter) (r : RoomId) (now : Instant) (id : HostSessionId) (o : Option HostState)
    → satisfies (λ (host : HostState). host.room_id == r) o ≡ true
    → holds_for (λ (host : HostState). stands_at s host.room_id host.peer_id host.virtual_ip) o
      ≡ true
    → TargetsIn s r (live_target now id o)
live_target-TargetsIn s r now id none h k = tt
live_target-TargetsIn s r now id (some host) h k = ground arith

targets-TargetsIn :
    (s : RoomRouter) (r : RoomId) (now : Instant) (ids : List HostSessionId)
    → Valid s
    → ((id : HostSessionId) → elem id ids ≡ true → hosted_in s id r ≡ true)
    → TargetsIn s r (targets s now ids)
unfolding targets
targets-TargetsIn s r now [] v all = tt
targets-TargetsIn s r now (id ∷ ids) v all =
    TargetsIn-append s r (live_target now id (HashMap.get s.hosts id)) (targets s now ids)
      (live_target-TargetsIn s r now id (HashMap.get s.hosts id) (all id (ground arith))
        (v.hosts_stand id))
      (targets-TargetsIn s r now ids v (λ id' h. all id' (ground arith)))

begin_discovery-TargetsIn :
    (s : RoomRouter) (r : RoomId) (p : PeerId) (d : DiscoveryRequestId) (port : ℕ) (now : Instant)
    (ts : List DiscoveryTarget)
    → Valid s
    → (begin_discovery s r p d port now).0 ≡ ok ts
    → TargetsIn s r ts
begin_discovery-TargetsIn s r p d port now ts v h =
    let ids = HashSet.to_list (sessions_of (HashMap.get s.rooms r)) in
    subst (TargetsIn s r) (sym (begin_discovery-ok s r p d port now ts h)) (
      targets-TargetsIn s r now ids v
        (λ id k. ground (arith, listed (HashMap.get s.rooms r) id, v.sessions_agree r id)))

fanout-AimsIn :
    (s : RoomRouter) (r : RoomId) (source : PeerId) (d : DiscoveryRequestId) (port : ℕ)
    (payload : List ℕ) (now : Instant) (action : RelayAction)
    → Valid s
    → in_room s r source ≡ true
    → (dispatch_discovery s source d port payload now).0 ≡ ok action
    → AimsIn s r action
unfolding dispatch_discovery room_for_peer
fanout-AimsIn s r source d port payload now action v here h =
    elim (Result-cases (begin_discovery s r source d port now).0) [
      | inr (e, k) ↦ ground arith
      | inl (ts, k) ↦
          let e : discovery_fanout d source port ts payload ≡ action = ground arith in
          subst (AimsIn s r) e (begin_discovery-TargetsIn s r source d port now ts v k)
    ]

unicast-AimsIn :
    (s : RoomRouter) (r : RoomId) (source : PeerId) (host : HostSessionId) (d : DiscoveryRequestId)
    (port : ℕ) (payload : List ℕ) (now : Instant) (action : RelayAction)
    → Valid s
    → in_room s r source ≡ true
    → satisfies (λ (h : HostState). h.peer_id == source) (HashMap.get s.hosts host) ≡ true
    → dispatch_response s host d port payload now ≡ ok action
    → AimsIn s r action
unfolding dispatch_response route_discovery_response
unicast-AimsIn s r source host d port payload now action v here own h =
    ground (arith, v.hosts_stand host, v.discoveries_stand d)

gameplay-AimsIn :
    (s : RoomRouter) (r : RoomId) (source : PeerId) (g : GameplaySessionId) (port : ℕ)
    (payload : List ℕ) (now : Instant) (action : RelayAction)
    → Valid s
    → in_room s r source ≡ true
    → (dispatch_gameplay s g source port payload now).0 ≡ ok action
    → AimsIn s r action
unfolding dispatch_gameplay
gameplay-AimsIn s r source g port payload now action v here h =
    elim (Result-cases (route_gameplay_datagram s g source now).0) [
      | inr (e, k) ↦ ground arith
      | inl (route, k) ↦
          let is_route = route_gameplay_datagram-IsRoute s g source now route v k in
          let e : gameplay_unicast route port payload ≡ action = ground arith in
          subst (AimsIn s r) e
            (ground (arith, here, is_route.source_in_room, is_route.destination_stands))
    ]

-- What a peer of the room asks for aims at the room.
act-AimsIn :
    (s : RoomRouter) (r : RoomId) (source : PeerId) (message : RelayMessage) (now : Instant)
    (action : RelayAction)
    → Valid s
    → in_room s r source ≡ true
    → (act s source message now).0 ≡ ok action
    → AimsIn s r action
unfolding act dispatch host_snapshot
act-AimsIn s r source (discovery_request d port payload) now action v here h =
    fanout-AimsIn s r source d port payload now action v here (ground arith)
act-AimsIn s r source (discovery_response d host port payload) now action v here h =
    unicast-AimsIn s r source host d port payload now action v here (ground arith) (ground arith)
act-AimsIn s r source (gameplay_packet g port payload) now action v here h =
    gameplay-AimsIn s r source g port payload now action v here (ground arith)
act-AimsIn s r source (discovery_to_host _ _ _ _) now action v here h = ground arith
act-AimsIn s r source (discovery_to_client _ _ _ _) now action v here h = ground arith
act-AimsIn s r source (gameplay_to_peer _ _ _ _) now action v here h = ground arith
act-AimsIn s r source (relay_probe _) now action v here h = ground arith
act-AimsIn s r source (relay_probe_ack _) now action v here h = ground arith

dispatch-same_peers :
    (s : RoomRouter) (ingress : RelayIngress)
    → ((dispatch s ingress).1.peers ≡ s.peers)
      × ((dispatch s ingress).1.virtual_ips ≡ s.virtual_ips)
unfolding dispatch dispatch_discovery dispatch_response dispatch_gameplay begin_discovery
    route_gameplay_datagram
dispatch-same_peers s (discovery p d port payload now) = ground arith
dispatch-same_peers s (Dispatch.discovery_response h d port payload now) = ground arith
dispatch-same_peers s (gameplay g p port payload now) = ground arith

pub act-same_peers :
    (s : RoomRouter) (source : PeerId) (message : RelayMessage) (now : Instant)
    → ((act s source message now).1.peers ≡ s.peers)
      × ((act s source message now).1.virtual_ips ≡ s.virtual_ips)
unfolding act
act-same_peers s source (discovery_request d port payload) now =
    dispatch-same_peers s (discovery source d port payload now)
act-same_peers s source (discovery_response d host port payload) now =
    ground (arith, dispatch-same_peers s (Dispatch.discovery_response host d port payload now))
act-same_peers s source (gameplay_packet g port payload) now =
    dispatch-same_peers s (gameplay g source port payload now)
act-same_peers s source (discovery_to_host _ _ _ _) now = (refl, refl)
act-same_peers s source (discovery_to_client _ _ _ _) now = (refl, refl)
act-same_peers s source (gameplay_to_peer _ _ _ _) now = (refl, refl)
act-same_peers s source (relay_probe _) now = (refl, refl)
act-same_peers s source (relay_probe_ack _) now = (refl, refl)

to_host-StaysIn :
    (s : RoomRouter) (r : RoomId) (meta : RelayEnvelopeMeta) (relay_port : ℕ)
    (d : DiscoveryRequestId) (source_ip : VirtualIp) (port : ℕ) (payload : List ℕ)
    (ts : List DiscoveryTarget)
    → Valid s
    → TargetsIn s r ts
    → StaysIn s r (map (to_host meta relay_port d source_ip port payload) ts)
to_host-StaysIn s r meta relay_port d source_ip port payload [] v h = tt
to_host-StaysIn s r meta relay_port d source_ip port payload (t ∷ ts) v (h, rest) = (
  stands_at-is_ip_in s r t.host_peer_id t.host_virtual_ip v h,
  to_host-StaysIn s r meta relay_port d source_ip port payload ts v rest,
)

-- The datagrams of an action go where it aims, if the peers are as they were.
action_to_datagrams-StaysIn :
    (s t : RoomRouter) (r : RoomId) (relay_port : ℕ) (action : RelayAction)
    (meta : RelayEnvelopeMeta) (out : List OutboundDatagram)
    → Valid s
    → t.peers ≡ s.peers
    → AimsIn s r action
    → action_to_datagrams t relay_port action meta ≡ ok out
    → StaysIn s r out
unfolding action_to_datagrams peer_virtual_ip
action_to_datagrams-StaysIn s t r relay_port (discovery_fanout d p port ts payload) meta out v same
      aims h =
    elim (Option-cases (HashMap.get t.peers p)) [
      | inl e ↦ ground arith
      | inr (peer, e) ↦
          let k : map (to_host meta relay_port d peer.virtual_ip port payload) ts ≡ out =
            ground arith in
          subst (StaysIn s r) k
            (to_host-StaysIn s r meta relay_port d peer.virtual_ip port payload ts v aims)
    ]
action_to_datagrams-StaysIn s t r relay_port (discovery_unicast d p ip port payload) meta out v same
      aims h =
    elim (Option-cases (HashMap.get t.peers p)) [
      | inl e ↦ ground arith
      | inr (peer, e) ↦
          let k : to_client meta relay_port d ip port payload peer.virtual_ip ∷ [] ≡ out =
            ground arith in
          subst (StaysIn s r) k (ground (arith, same, v.ips_agree peer.virtual_ip p), tt)
    ]
action_to_datagrams-StaysIn s t r relay_port (gameplay_unicast route port payload) meta out v same
      aims h =
    elim (Option-cases (HashMap.get t.peers route.source_peer_id)) [
      | inl e ↦ ground arith
      | inr (peer, e) ↦
          let k : to_peer meta relay_port route port payload peer.virtual_ip ∷ [] ≡ out =
            ground arith in
          subst (StaysIn s r) k (
            stands_at-is_ip_in s r route.destination_peer_id route.destination_virtual_ip v aims,
            tt,
          )
    ]

-- In a router whose tables agree, every datagram that the relay sends for a message of a peer
-- goes to the address of a peer in the same room: no message crosses from one room to another.
pub route_message_isolation :
    (s : RoomRouter) (r : RoomId) (relay_port : ℕ) (source : PeerId) (meta : RelayEnvelopeMeta)
    (message : RelayMessage) (now : Instant) (out : List OutboundDatagram)
    → Valid s
    → in_room s r source ≡ true
    → (route_message s relay_port source meta message now).0 ≡ ok out
    → StaysIn s r out
unfolding route_message
route_message_isolation s r relay_port source meta message now out v here h =
    elim (Result-cases (act s source message now).0) [
      | inr (e, k) ↦ ground arith
      | inl (action, k) ↦
          action_to_datagrams-StaysIn s (act s source message now).1 r relay_port action meta out v
            (act-same_peers s source message now).0
            (act-AimsIn s r source message now action v here k) (ground arith)
    ]
