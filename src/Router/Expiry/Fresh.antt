-- ===== src/Router/Expiry/Fresh.antt =====
-- crates/router/src/lib.rs: what `expire` leaves of the tables of hosts, requests and sessions.
use civ6_lan_bridge.Prelude.{
  ◌≡◌, ◌⊎◌, refl, true, not, ◌==◌, nat_key, Option, none, arith, Option-cases, Bool-cases, inl, inr,
  List, [], ◌∷◌,
}
use civ6_lan_bridge.Prelude.HashMap
use civ6_lan_bridge.Prelude.HashSet
use civ6_lan_bridge.Protocol.Ports.{
  RoomId, PeerId, HostSessionId, GameplaySessionId, DiscoveryRequestId,
}
use civ6_lan_bridge.Router.State.{HostState, DiscoveryState, RoomRouter, Instant}
use civ6_lan_bridge.Router.Hosts.{remove_hosts}
use civ6_lan_bridge.Router.Peers.{
  leave_room, evict, drop_hosts, drop_gameplay, drop_discoveries, drop_peer, plays_in, asks_in,
  hosts_of,
}
use civ6_lan_bridge.Router.Expiry.{
  disconnect_peer, disconnect_all, leave_if_present, leave_all, forget, plays, host_over,
  discovery_over, gameplay_over, over_hosts, expire_hosts, expire_discoveries, expire_gameplay,
  disconnect_silent, expire_peers, expire, suspend, gone_silent, grace_over,
}
use civ6_lan_bridge.Router.Invariant.{holds_for}
use civ6_lan_bridge.Router.Invariant.Removal.{
  get-remove_hosts, gameplay-remove_hosts, remove_hosts-Untouched,
}

-- An entry stays as it was, or goes.
abbrev pub Kept {ℓ} : {A : Type ℓ} → Option A → Option A → Type ℓ
Kept old new = (new ≡ none) ⊎ (new ≡ old)

-- No host, request or gameplay session is new or changed.
pub record Shrunk (s t : RoomRouter) : Type 0 where
  pub hosts : (h : HostSessionId) → Kept (HashMap.get s.hosts h) (HashMap.get t.hosts h)
  pub discoveries :
      (d : DiscoveryRequestId) → Kept (HashMap.get s.discoveries d) (HashMap.get t.discoveries d)
  pub gameplay :
      (g : GameplaySessionId) → Kept (HashMap.get s.gameplay g) (HashMap.get t.gameplay g)

Kept-trans {ℓ} : {A : Type ℓ} (a b c : Option A) → Kept a b → Kept b c → Kept a c
Kept-trans a b c ab bc = ground arith

Shrunk-refl : (s : RoomRouter) → Shrunk s s
Shrunk-refl s = record {
  hosts = λ h. inr refl;
  discoveries = λ d. inr refl;
  gameplay = λ g. inr refl;
}

Shrunk-trans : (s t u : RoomRouter) → Shrunk s t → Shrunk t u → Shrunk s u
Shrunk-trans s t u a b = record {
  hosts = λ h.
      Kept-trans (HashMap.get s.hosts h) (HashMap.get t.hosts h) (HashMap.get u.hosts h) (a.hosts h)
        (b.hosts h);
  discoveries = λ d.
      Kept-trans (HashMap.get s.discoveries d) (HashMap.get t.discoveries d)
        (HashMap.get u.discoveries d) (a.discoveries d) (b.discoveries d);
  gameplay = λ g.
      Kept-trans (HashMap.get s.gameplay g) (HashMap.get t.gameplay g) (HashMap.get u.gameplay g)
        (a.gameplay g) (b.gameplay g);
}

remove_hosts-Shrunk : (s : RoomRouter) (ids : List HostSessionId) → Shrunk s (remove_hosts s ids)
remove_hosts-Shrunk s ids = record {
  hosts = λ h. ground (arith, get-remove_hosts s ids h);
  discoveries = λ d. rw ((remove_hosts-Untouched s ids).discoveries) (inr refl);
  gameplay = λ g. gameplay-remove_hosts s ids g;
}

forget-Shrunk : (s : RoomRouter) (p : PeerId) → Shrunk s (forget s p)
unfolding forget
forget-Shrunk s p = record {
  hosts = λ h. inr refl;
  discoveries = λ d. ground (
    arith,
    HashMap.get-retain s.discoveries
        (λ _ (discovery : DiscoveryState). not (discovery.client_peer_id == p)) d,
  );
  gameplay =
      λ g. ground (arith, HashMap.get-retain s.gameplay (λ _ session. not (plays p session)) g);
}

-- Suspending a peer leaves the three tables as they are.
abbrev suspended : RoomRouter → PeerId → Instant → RoomRouter
suspended s p now = record s { peers = HashMap.modify s.peers p (suspend now) }

suspended-Shrunk :
    (s : RoomRouter) (p : PeerId) (now : Instant)
    → Shrunk s (
        forget
          (remove_hosts
            (suspended s p now)
            (HashMap.keys_where s.hosts (λ _ (host : HostState). host.peer_id == p)))
          p)
suspended-Shrunk s p now =
    let t = suspended s p now in
    let ids = HashMap.keys_where s.hosts (λ _ (host : HostState). host.peer_id == p) in
    let k = remove_hosts-Shrunk t ids in
    Shrunk-trans s (remove_hosts t ids) (forget (remove_hosts t ids) p)
      (record { hosts = k.hosts; discoveries = k.discoveries; gameplay = k.gameplay })
      (forget-Shrunk (remove_hosts t ids) p)

disconnect_peer-Shrunk :
    (s : RoomRouter) (p : PeerId) (now : Instant) → Shrunk s (disconnect_peer s p now)
unfolding disconnect_peer
disconnect_peer-Shrunk s p now = elim (Option-cases (HashMap.get s.peers p)) [
  | inl e ↦ rw (e, disconnect_peer) (Shrunk-refl s)
  | inr (peer, e) ↦ rw (e, disconnect_peer) (suspended-Shrunk s p now)
]

drop_gameplay-Shrunk : (s : RoomRouter) (r : RoomId) (p : PeerId) → Shrunk s (drop_gameplay s r p)
unfolding drop_gameplay
drop_gameplay-Shrunk s r p = record {
  hosts = λ h. inr refl;
  discoveries = λ d. inr refl;
  gameplay = λ g. ground (
    arith,
    HashMap.get-remove_all s.gameplay
        (HashMap.keys_where s.gameplay (λ _ session. plays_in r p session)) g,
  );
}

drop_discoveries-Shrunk :
    (s : RoomRouter) (r : RoomId) (p : PeerId) → Shrunk s (drop_discoveries s r p)
unfolding drop_discoveries
drop_discoveries-Shrunk s r p = record {
  hosts = λ h. inr refl;
  discoveries = λ d. ground (
    arith,
    HashMap.get-remove_all s.discoveries
        (HashMap.keys_where s.discoveries (λ _ discovery. asks_in r p discovery)) d,
  );
  gameplay = λ g. inr refl;
}

drop_peer-Shrunk : (s : RoomRouter) (r : RoomId) (p : PeerId) → Shrunk s (drop_peer s r p)
unfolding drop_peer
drop_peer-Shrunk s r p = record {
  hosts = λ h. inr refl;
  discoveries = λ d. inr refl;
  gameplay = λ g. inr refl;
}

drop_hosts-Shrunk : (s : RoomRouter) (r : RoomId) (p : PeerId) → Shrunk s (drop_hosts s r p)
unfolding drop_hosts
drop_hosts-Shrunk s r p =
    remove_hosts-Shrunk s (HashMap.keys_where s.hosts (λ _ host. hosts_of r p host))

evict-Shrunk : (s : RoomRouter) (r : RoomId) (p : PeerId) → Shrunk s (evict s r p)
unfolding evict
evict-Shrunk s r p =
    let s₁ = drop_hosts s r p in
    let s₂ = drop_gameplay s₁ r p in
    let s₃ = drop_discoveries s₂ r p in
    Shrunk-trans s s₁ (drop_peer s₃ r p) (drop_hosts-Shrunk s r p) (
      Shrunk-trans s₁ s₂ (drop_peer s₃ r p) (drop_gameplay-Shrunk s₁ r p) (
        Shrunk-trans s₂ s₃ (drop_peer s₃ r p) (drop_discoveries-Shrunk s₂ r p)
          (drop_peer-Shrunk s₃ r p)))

leave_room-Shrunk : (s : RoomRouter) (r : RoomId) (p : PeerId) → Shrunk s (leave_room s r p).1
unfolding leave_room
leave_room-Shrunk s r p = elim (Option-cases (HashMap.get s.rooms r)) [
  | inl e ↦ rw (e, leave_room) (Shrunk-refl s)
  | inr (room, e) ↦ elim (Bool-cases (HashSet.contains room.members p)) [
    | inl f ↦ rw (e, f, leave_room) (evict-Shrunk s r p)
    | inr f ↦ rw (e, f, leave_room) (Shrunk-refl s)
  ]
]

leave_if_present-Shrunk : (s : RoomRouter) (p : PeerId) → Shrunk s (leave_if_present s p)
unfolding leave_if_present
leave_if_present-Shrunk s p = elim (Option-cases (HashMap.get s.peers p)) [
  | inl e ↦ rw (e, leave_if_present) (Shrunk-refl s)
  | inr (peer, e) ↦ rw (e, leave_if_present) (leave_room-Shrunk s peer.room_id p)
]

disconnect_all-Shrunk :
    (s : RoomRouter) (ids : List PeerId) (now : Instant) → Shrunk s (disconnect_all s ids now)
unfolding disconnect_all
disconnect_all-Shrunk s [] now = Shrunk-refl s
disconnect_all-Shrunk s (p ∷ ids) now =
    let t = disconnect_peer s p now in
    Shrunk-trans s t (disconnect_all t ids now) (disconnect_peer-Shrunk s p now)
      (disconnect_all-Shrunk t ids now)

leave_all-Shrunk : (s : RoomRouter) (ids : List PeerId) → Shrunk s (leave_all s ids)
unfolding leave_all
leave_all-Shrunk s [] = Shrunk-refl s
leave_all-Shrunk s (p ∷ ids) =
    let t = leave_if_present s p in
    Shrunk-trans s t (leave_all t ids) (leave_if_present-Shrunk s p) (leave_all-Shrunk t ids)

-- No table has an entry that is over.
pub record Live (now : Instant) (s : RoomRouter) : Type 0 where
  pub hosts :
      (h : HostSessionId)
      → holds_for (λ host. not (host_over now host)) (HashMap.get s.hosts h) ≡ true
  pub discoveries :
      (d : DiscoveryRequestId)
      → holds_for (λ discovery. not (discovery_over now discovery)) (HashMap.get s.discoveries d)
        ≡ true
  pub gameplay :
      (g : GameplaySessionId)
      → holds_for (λ session. not (gameplay_over now session)) (HashMap.get s.gameplay g) ≡ true

Shrunk-Live : (now : Instant) (s t : RoomRouter) → Shrunk s t → Live now s → Live now t
Shrunk-Live now s t k l = record {
  hosts = λ h. ground (arith, k.hosts h, l.hosts h);
  discoveries = λ d. ground (arith, k.discoveries d, l.discoveries d);
  gameplay = λ g. ground (arith, k.gameplay g, l.gameplay g);
}

-- The three first loops of `expire`.
abbrev swept : RoomRouter → Instant → RoomRouter
swept s now = expire_gameplay (expire_discoveries (expire_hosts s now) now) now

swept-Live : (s : RoomRouter) (now : Instant) → Live now (swept s now)
unfolding expire_gameplay expire_discoveries expire_hosts over_hosts
swept-Live s now = record {
  hosts = λ h. ground (
    arith,
    get-remove_hosts s (HashMap.keys_where s.hosts (λ _ host. host_over now host)) h,
    HashMap.elem-keys_where s.hosts (λ _ host. host_over now host) h,
  );
  discoveries = λ d. ground (
    arith,
    HashMap.get-remove_all (expire_hosts s now).discoveries
        (HashMap.keys_where (expire_hosts s now).discoveries
          (λ _ discovery. discovery_over now discovery))
        d,
    HashMap.elem-keys_where (expire_hosts s now).discoveries
        (λ _ discovery. discovery_over now discovery) d,
  );
  gameplay = λ g. ground (
    arith,
    HashMap.get-remove_all (expire_hosts s now).gameplay
        (HashMap.keys_where (expire_hosts s now).gameplay (λ _ session. gameplay_over now session))
        g,
    HashMap.elem-keys_where (expire_hosts s now).gameplay (λ _ session. gameplay_over now session)
        g,
  );
}

-- After expire no host session, discovery request or gameplay session remains that ends at that
-- time or before.
pub expire-Live : (s : RoomRouter) (now : Instant) → Live now (expire s now).1
unfolding expire disconnect_silent expire_peers
expire-Live s now =
    let t = swept s now in
    let u = disconnect_silent t now in
    Shrunk-Live now t (expire_peers u now)
      (Shrunk-trans t u (expire_peers u now)
        (disconnect_all-Shrunk t (HashMap.keys_where t.peers (λ _ peer. gone_silent t now peer))
          now)
        (leave_all-Shrunk u (HashMap.keys_where u.peers (λ _ peer. grace_over u now peer))))
      (swept-Live s now)
