-- ===== src/Router/Directory/Placing.antt =====
-- crates/router/src/lib.rs: what each method of `RoomRouter` does to the places of the peers.
use civ6_lan_bridge.Prelude.{
  ℕ, ◌≡◌, ◌⊎◌, inl, inr, refl, ap, ◌∙◌, ◌==◌, nat_key, if◌then◌else◌, none, some, Option-cases,
  Result-cases, List, [], ◌∷◌, ok, arith,
}
use civ6_lan_bridge.Prelude.HashMap
use civ6_lan_bridge.Protocol.Ports.{
  RoomId, PeerId, HostSessionId, VirtualIp, GameplaySessionId, DiscoveryRequestId, Civ6UdpPort,
}
use civ6_lan_bridge.Protocol.RoomCode.{RoomCode}
use civ6_lan_bridge.Router.State.{PeerState, RoomRouter, Instant, room_peer_key}
use civ6_lan_bridge.Router.Rooms.{
  create_room, create_room_with_id, remove_empty_room, member_state, room_for_peer,
}
use civ6_lan_bridge.Router.Hosts.{
  register_host, heartbeat_host, heartbeat_host_for_room, unregister_host, add_host, register_again,
  remove_host, room_peer,
}
use civ6_lan_bridge.Router.Peers.{
  join_room, mark_peer_seen, resume_peer, resume_state, leave_room, evict, drop_peer, drop_hosts,
  drop_gameplay, drop_discoveries, new_peer, see,
}
use civ6_lan_bridge.Router.Discovery.{begin_discovery}
use civ6_lan_bridge.Router.Gameplay.{select_host, route_gameplay_datagram, remove_gameplay_session}
use civ6_lan_bridge.Router.Expiry.{
  expire, expire_hosts, expire_discoveries, expire_gameplay, expire_peers, disconnect_silent,
  disconnect_all, disconnect_peer, over_hosts, forget, suspend, leave_all, leave_if_present,
}
use civ6_lan_bridge.Router.Dispatch.{
  dispatch, dispatch_discovery, dispatch_gameplay, RelayIngress, discovery, discovery_response,
  gameplay,
}
use civ6_lan_bridge.Router.Invariant.Removal.{remove_host-Untouched, remove_hosts-Untouched}
use civ6_lan_bridge.Router.Directory.{directory, place_of}

pub create_room_with_id-peers :
    (s : RoomRouter) (r : RoomId) (code : RoomCode)
    → (create_room_with_id s r code).1.peers ≡ s.peers
unfolding create_room_with_id
create_room_with_id-peers s r code = ground arith

pub create_room-peers :
    (s : RoomRouter) (r : RoomId) (code : RoomCode) → (create_room s r code).1.peers ≡ s.peers
unfolding create_room
create_room-peers s r code = create_room_with_id-peers s r code

pub remove_empty_room-peers :
    (s : RoomRouter) (r : RoomId) → (remove_empty_room s r).1.peers ≡ s.peers
unfolding remove_empty_room
remove_empty_room-peers s r = ground arith

add_host-peers :
    (s : RoomRouter) (r : RoomId) (p : PeerId) (peer : PeerState) (h : HostSessionId)
    (now : Instant)
    → (add_host s r p peer h now).1.peers ≡ s.peers
unfolding add_host
add_host-peers s r p peer h now = ground arith

register_again-peers :
    (s : RoomRouter) (r : RoomId) (p : PeerId) (peer : PeerState) (old h : HostSessionId)
    (now : Instant)
    → (register_again s r p peer old h now).1.peers ≡ s.peers
unfolding register_again
register_again-peers s r p peer old h now =
    ground (
      arith,
      add_host-peers (remove_host s old) r p peer h now,
      (remove_host-Untouched s old).peers,
    )

pub register_host-peers :
    (s : RoomRouter) (r : RoomId) (p : PeerId) (h : HostSessionId) (now : Instant)
    → (register_host s r p h now).1.peers ≡ s.peers
unfolding register_host
register_host-peers s r p h now = elim (Result-cases (member_state s r p)) [
  | inr (e, failed) ↦ rw (failed, register_host) refl
  | inl (peer, found) ↦ elim (Option-cases (HashMap.get s.host_by_peer (room_peer r p))) [
    | inl e ↦ ground (arith, add_host-peers s r p peer h now)
    | inr (old, e) ↦ ground (arith, register_again-peers s r p peer old h now)
  ]
]

pub heartbeat_host-peers :
    (s : RoomRouter) (h : HostSessionId) (now : Instant)
    → (heartbeat_host s h now).1.peers ≡ s.peers
unfolding heartbeat_host
heartbeat_host-peers s h now = ground arith

pub heartbeat_host_for_room-peers :
    (s : RoomRouter) (r : RoomId) (p : PeerId) (h : HostSessionId) (now : Instant)
    → (heartbeat_host_for_room s r p h now).1.peers ≡ s.peers
unfolding heartbeat_host_for_room
heartbeat_host_for_room-peers s r p h now = ground (arith, heartbeat_host-peers s h now)

pub unregister_host-peers :
    (s : RoomRouter) (h : HostSessionId) → (unregister_host s h).1.peers ≡ s.peers
unfolding unregister_host
unregister_host-peers s h = ground (arith, (remove_host-Untouched s h).peers)

pub begin_discovery-peers :
    (s : RoomRouter) (r : RoomId) (p : PeerId) (d : DiscoveryRequestId) (port : Civ6UdpPort)
    (now : Instant)
    → (begin_discovery s r p d port now).1.peers ≡ s.peers
unfolding begin_discovery
begin_discovery-peers s r p d port now = ground arith

pub select_host-peers :
    (s : RoomRouter) (r : RoomId) (p : PeerId) (h : HostSessionId) (g : GameplaySessionId)
    (now : Instant)
    → (select_host s r p h g now).1.peers ≡ s.peers
unfolding select_host
select_host-peers s r p h g now = ground arith

pub route_gameplay_datagram-peers :
    (s : RoomRouter) (g : GameplaySessionId) (p : PeerId) (now : Instant)
    → (route_gameplay_datagram s g p now).1.peers ≡ s.peers
unfolding route_gameplay_datagram
route_gameplay_datagram-peers s g p now = ground arith

pub remove_gameplay_session-peers :
    (s : RoomRouter) (g : GameplaySessionId) → (remove_gameplay_session s g).1.peers ≡ s.peers
unfolding remove_gameplay_session
remove_gameplay_session-peers s g = ground arith

pub dispatch-peers :
    (s : RoomRouter) (ingress : RelayIngress) → (dispatch s ingress).1.peers ≡ s.peers
unfolding dispatch dispatch_discovery dispatch_gameplay
dispatch-peers s (discovery p d port payload now) = elim (Option-cases (room_for_peer s p)) [
  | inl e ↦ ground (arith, e)
  | inr (r, e) ↦ ground (arith, e, begin_discovery-peers s r p d port now)
]
dispatch-peers s (discovery_response h d port payload now) = refl
dispatch-peers s (gameplay g p port payload now) =
    ground (arith, route_gameplay_datagram-peers s g p now)

-- A change of a peer's state that moves it nowhere
place_of-modify :
    (s : RoomRouter) (p : PeerId) (f : PeerState → PeerState) (q : PeerId)
    → ((peer : PeerState)
        → HashMap.get s.peers p ≡ some peer
        → place_of (some (f peer)) ≡ place_of (some peer))
    → place_of (HashMap.get (HashMap.modify s.peers p f) q) ≡ directory s q
unfolding place_of
place_of-modify s p f q same = elim (Option-cases (HashMap.get s.peers q)) [
  | inl e ↦ ground (arith, HashMap.get-modify s.peers p f q)
  | inr (peer, e) ↦ ground (
    arith,
    HashMap.get-modify s.peers p f q,
    λ (at_p : HashMap.get s.peers p ≡ some peer). same peer at_p,
  )
]

pub mark_peer_seen-directory :
    (s : RoomRouter) (p : PeerId) (now : Instant) (q : PeerId)
    → directory (mark_peer_seen s p now).1 q ≡ directory s q
unfolding mark_peer_seen place_of
mark_peer_seen-directory s p now q =
    ground (arith, place_of-modify s p (see now) q (λ peer e. refl))

resumed_place :
    (grace : ℕ) (now : Instant) (peer resumed : PeerState)
    → resume_state grace now peer ≡ some resumed
    → place_of (some resumed) ≡ place_of (some peer)
unfolding resume_state place_of
resumed_place grace now peer resumed h = ground arith

pub resume_peer-directory :
    (s : RoomRouter) (r : RoomId) (p : PeerId) (now : Instant) (q : PeerId)
    → directory (resume_peer s r p now).1 q ≡ directory s q
unfolding resume_peer
resume_peer-directory s r p now q = elim (Option-cases (HashMap.get s.peers p)) [
  | inl e ↦ rw (e, resume_peer) refl
  | inr (peer, e) ↦ elim (Option-cases (resume_state s.config.peer_grace_ttl now peer)) [
    | inl over ↦ rw (e, resume_peer) (ground (arith, over))
    | inr (resumed, h) ↦
        rw (e, resume_peer)
          (ground (
            arith,
            h,
            place_of-modify s p (λ _. resumed) q
                (λ other at_p.
                  ground
                    (arith, at_p, e, resumed_place s.config.peer_grace_ttl now peer resumed h)),
          ))
  ]
]

pub join_room-directory :
    (s : RoomRouter) (r : RoomId) (p : PeerId) (ip : VirtualIp) (now : Instant) (q : PeerId)
    → (join_room s r p ip now).0 ≡ ok tt
    → directory (join_room s r p ip now).1 q ≡ (if p == q then some (r, ip) else directory s q)
unfolding join_room place_of
join_room-directory s r p ip now q done =
    ground (arith, HashMap.get-insert s.peers p (new_peer r ip now) q)

drop_hosts-peers : (s : RoomRouter) (r : RoomId) (p : PeerId) → (drop_hosts s r p).peers ≡ s.peers
unfolding drop_hosts
drop_hosts-peers s r p = (remove_hosts-Untouched s _).peers

evict-peers :
    (s : RoomRouter) (r : RoomId) (p q : PeerId)
    → HashMap.get (evict s r p).peers q ≡ (if p == q then none else HashMap.get s.peers q)
unfolding evict drop_peer drop_discoveries drop_gameplay
evict-peers s r p q =
    rw (HashMap.get-remove (drop_hosts s r p).peers p q, drop_hosts-peers s r p) refl

pub leave_room-directory :
    (s : RoomRouter) (r : RoomId) (p q : PeerId)
    → (leave_room s r p).0 ≡ ok tt
    → directory (leave_room s r p).1 q ≡ (if p == q then none else directory s q)
unfolding leave_room place_of
leave_room-directory s r p q done = ground (arith, evict-peers s r p q)

disconnect_peer-directory :
    (s : RoomRouter) (p : PeerId) (now : Instant) (q : PeerId)
    → directory (disconnect_peer s p now) q ≡ directory s q
unfolding disconnect_peer forget
disconnect_peer-directory s p now q = elim (Option-cases (HashMap.get s.peers p)) [
  | inl e ↦ rw (e, disconnect_peer) refl
  | inr (peer, e) ↦
      rw
        (
          e,
          disconnect_peer,
          (remove_hosts-Untouched (record s { peers = HashMap.modify s.peers p (suspend now) })
              _).peers,
        )
        (unfold place_of in place_of-modify s p (suspend now) q (λ other at_p. refl))
]

disconnect_all-directory :
    (s : RoomRouter) (ids : List PeerId) (now : Instant) (q : PeerId)
    → directory (disconnect_all s ids now) q ≡ directory s q
unfolding disconnect_all
disconnect_all-directory s [] now q = refl
disconnect_all-directory s (id ∷ ids) now q =
    disconnect_all-directory (disconnect_peer s id now) ids now q
    ∙ disconnect_peer-directory s id now q

-- The peer is where it was, or nowhere.
abbrev pub Thinner : RoomRouter → RoomRouter → PeerId → Type 0
Thinner s t q = (directory t q ≡ none) ⊎ (directory t q ≡ directory s q)

leave_room-Thinner : (s : RoomRouter) (r : RoomId) (p q : PeerId) → Thinner s (leave_room s r p).1 q
unfolding leave_room
leave_room-Thinner s r p q = elim (Result-cases (leave_room s r p).0) [
  | inl (_, left) ↦ ground (arith, leave_room-directory s r p q left)
  | inr (e, stayed) ↦ inr (ground arith)
]

leave_if_present-Thinner : (s : RoomRouter) (p q : PeerId) → Thinner s (leave_if_present s p) q
unfolding leave_if_present
leave_if_present-Thinner s p q = elim (Option-cases (HashMap.get s.peers p)) [
  | inl e ↦ rw (e, leave_if_present) (inr refl)
  | inr (peer, e) ↦ rw (e, leave_if_present) (leave_room-Thinner s peer.room_id p q)
]

leave_all-Thinner :
    (s : RoomRouter) (ids : List PeerId) (q : PeerId) → Thinner s (leave_all s ids) q
unfolding leave_all
leave_all-Thinner s [] q = inr refl
leave_all-Thinner s (id ∷ ids) q =
    ground (arith, leave_all-Thinner (leave_if_present s id) ids q, leave_if_present-Thinner s id q)

expired-directory :
    (s : RoomRouter) (now : Instant) (q : PeerId)
    → directory (expire_gameplay (expire_discoveries (expire_hosts s now) now) now) q
      ≡ directory s q
unfolding expire_hosts expire_discoveries expire_gameplay
expired-directory s now q =
    ap (λ peers. place_of (HashMap.get peers q)) (remove_hosts-Untouched s (over_hosts s now)).peers

silenced-directory :
    (s : RoomRouter) (now : Instant) (q : PeerId)
    → directory (disconnect_silent s now) q ≡ directory s q
unfolding disconnect_silent
silenced-directory s now q = disconnect_all-directory s _ now q

expire_peers-Thinner :
    (s : RoomRouter) (now : Instant) (q : PeerId) → Thinner s (expire_peers s now) q
unfolding expire_peers
expire_peers-Thinner s now q = leave_all-Thinner s _ q

pub expire-Thinner : (s : RoomRouter) (now : Instant) (q : PeerId) → Thinner s (expire s now).1 q
unfolding expire
expire-Thinner s now q =
    let s₃ = expire_gameplay (expire_discoveries (expire_hosts s now) now) now in
    ground (
      arith,
      expire_peers-Thinner (disconnect_silent s₃ now) now q,
      silenced-directory s₃ now q,
      expired-directory s now q,
    )
