-- ===== src/Router/Invariant/Expiring.antt =====
-- crates/router/src/lib.rs: `disconnect_peer` and `expire`.
use civ6_lan_bridge.Prelude.{
  inl, inr, refl, not, ◌==◌, nat_key, list_key, arith, Option-cases, List, [], ◌∷◌,
}
use civ6_lan_bridge.Prelude.HashMap
use civ6_lan_bridge.Prelude.HashMap.{HashMap, update}
use civ6_lan_bridge.Protocol.Ports.{PeerId}
use civ6_lan_bridge.Router.State.{DiscoveryState, room_peer_key, RoomRouter, Instant}
use civ6_lan_bridge.Router.Expiry.{
  disconnect_peer, forget, plays, suspend, disconnect_all, leave_if_present, leave_all,
  expire_hosts, expire_discoveries, expire_gameplay, disconnect_silent, expire_peers, expire,
}
use civ6_lan_bridge.Router.Invariant.{Valid}
use civ6_lan_bridge.Router.Invariant.Removal.{remove_hosts-Valid}
use civ6_lan_bridge.Router.Invariant.Sessions.{
  peer_modified-Valid, gameplay-Valid, discoveries-Valid,
}
use civ6_lan_bridge.Router.Invariant.Dropping.{remove_gameplay-Valid, remove_discoveries-Valid}
use civ6_lan_bridge.Router.Invariant.Leaving.{leave_room-Valid}

forget-Valid : (s : RoomRouter) (peer_id : PeerId) → Valid s → Valid (forget s peer_id)
unfolding forget
forget-Valid s peer_id v =
    discoveries-Valid
      (record s { gameplay = HashMap.retain s.gameplay (λ _ session. not (plays peer_id session)) })
      (HashMap.retain s.discoveries
        (λ _ (discovery : DiscoveryState). not (discovery.client_peer_id == peer_id)))
      (λ d. ground (
        arith,
        HashMap.get-retain s.discoveries
            (λ _ (discovery : DiscoveryState). not (discovery.client_peer_id == peer_id)) d,
        v.discoveries_stand d,
      ))
      (gameplay-Valid s (HashMap.retain s.gameplay (λ _ session. not (plays peer_id session)))
        (λ g. ground (
          arith,
          HashMap.get-retain s.gameplay (λ _ session. not (plays peer_id session)) g,
          v.gameplay_stands g,
        ))
        v)

-- `disconnect_peer` keeps the tables in agreement.
disconnect_peer-Valid :
    (s : RoomRouter) (peer_id : PeerId) (now : Instant)
    → Valid s
    → Valid (disconnect_peer s peer_id now)
unfolding disconnect_peer
disconnect_peer-Valid s peer_id now v = elim (Option-cases (HashMap.get s.peers peer_id)) [
  | inl e ↦ rw (e, disconnect_peer) v
  | inr (peer, e) ↦
      rw (e, disconnect_peer)
        (forget-Valid _ peer_id (
          remove_hosts-Valid _ _
            (peer_modified-Valid s peer_id (suspend now) (λ _ _. refl) (λ _ _. refl) v)))
]

disconnect_all-Valid :
    (s : RoomRouter) (ids : List PeerId) (now : Instant)
    → Valid s
    → Valid (disconnect_all s ids now)
unfolding disconnect_all
disconnect_all-Valid s [] now v = v
disconnect_all-Valid s (id ∷ ids) now v =
    disconnect_all-Valid (disconnect_peer s id now) ids now (disconnect_peer-Valid s id now v)

leave_if_present-Valid : (s : RoomRouter) (id : PeerId) → Valid s → Valid (leave_if_present s id)
unfolding leave_if_present
leave_if_present-Valid s id v = elim (Option-cases (HashMap.get s.peers id)) [
  | inl e ↦ rw (e, leave_if_present) v
  | inr (peer, e) ↦ rw (e, leave_if_present) (leave_room-Valid s peer.room_id id v)
]

leave_all-Valid : (s : RoomRouter) (ids : List PeerId) → Valid s → Valid (leave_all s ids)
unfolding leave_all
leave_all-Valid s [] v = v
leave_all-Valid s (id ∷ ids) v =
    leave_all-Valid (leave_if_present s id) ids (leave_if_present-Valid s id v)

-- `expire` keeps the tables in agreement.
pub expire-Valid : (s : RoomRouter) (now : Instant) → Valid s → Valid (expire s now).1
unfolding expire expire_hosts expire_discoveries expire_gameplay disconnect_silent expire_peers
expire-Valid s now v = leave_all-Valid _ _ (
    disconnect_all-Valid _ _ now (
      remove_gameplay-Valid _ _
        (remove_discoveries-Valid (expire_hosts s now) _ (remove_hosts-Valid s _ v))))
