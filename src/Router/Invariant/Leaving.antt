-- ===== src/Router/Invariant/Leaving.antt =====
-- crates/router/src/lib.rs: `leave_room`.
use civ6_lan_bridge.Prelude.{
  ◌≡◌, inl, inr, ap, ◌∙◌, true, false, nat_key, list_key, some, arith, Option-cases, Bool-cases,
}
use civ6_lan_bridge.Prelude.HashMap
use civ6_lan_bridge.Prelude.HashMap.{HashMap, update}
use civ6_lan_bridge.Prelude.HashSet
use civ6_lan_bridge.Protocol.Ports.{
  RoomId, PeerId, HostSessionId, GameplaySessionId, DiscoveryRequestId,
}
use civ6_lan_bridge.Router.State.{RoomState, PeerState, room_peer_key, RoomRouter}
use civ6_lan_bridge.Router.Peers.{
  drop_hosts, drop_gameplay, drop_discoveries, drop_peer, evict, leave_room, hosts_of, plays_in,
  asks_in,
}
use civ6_lan_bridge.Router.Invariant.{Valid, satisfies}
use civ6_lan_bridge.Router.Invariant.Removal.{remove_hosts-Valid, remove_hosts-Untouched}
use civ6_lan_bridge.Router.Invariant.Dropping.{
  dropped-Valid, drop_hosts-none, drop_gameplay-none, drop_discoveries-none, remove_gameplay-Valid,
  remove_discoveries-Valid,
}

drop_hosts-Valid :
    (s : RoomRouter) (room_id : RoomId) (peer_id : PeerId)
    → Valid s
    → Valid (drop_hosts s room_id peer_id)
unfolding drop_hosts
drop_hosts-Valid s room_id peer_id v = remove_hosts-Valid s _ v

drop_gameplay-Valid :
    (s : RoomRouter) (room_id : RoomId) (peer_id : PeerId)
    → Valid s
    → Valid (drop_gameplay s room_id peer_id)
unfolding drop_gameplay
drop_gameplay-Valid s room_id peer_id v = remove_gameplay-Valid s _ v

drop_discoveries-Valid :
    (s : RoomRouter) (room_id : RoomId) (peer_id : PeerId)
    → Valid s
    → Valid (drop_discoveries s room_id peer_id)
unfolding drop_discoveries
drop_discoveries-Valid s room_id peer_id v = remove_discoveries-Valid s _ v

-- The peers are those before `drop_hosts`; sessions and requests come in between.
peers-drop_hosts :
    (s : RoomRouter) (room_id : RoomId) (peer_id : PeerId)
    → (drop_hosts s room_id peer_id).peers ≡ s.peers
unfolding drop_hosts
peers-drop_hosts s room_id peer_id =
    (remove_hosts-Untouched s
      (HashMap.keys_where s.hosts (λ _ host. hosts_of room_id peer_id host))).peers

module _ (s : RoomRouter) (room_id : RoomId) (peer_id : PeerId) (peer : PeerState) (v : Valid s)
    (there : HashMap.get s.peers peer_id ≡ some peer) (placed : peer.room_id ≡ room_id) where
  cleared : RoomRouter
  cleared =
      drop_discoveries (drop_gameplay (drop_hosts s room_id peer_id) room_id peer_id) room_id
        peer_id

  cleared-Valid : Valid cleared
  unfolding cleared
  cleared-Valid =
      drop_discoveries-Valid _ room_id peer_id
        (drop_gameplay-Valid _ room_id peer_id (drop_hosts-Valid s room_id peer_id v))

  there-cleared : HashMap.get cleared.peers peer_id ≡ some peer
  unfolding cleared drop_discoveries drop_gameplay
  there-cleared =
      ap (λ peers. HashMap.get peers peer_id) (peers-drop_hosts s room_id peer_id) ∙ there

  cleared-no_hosts :
      (h : HostSessionId)
      → satisfies (hosts_of room_id peer_id) (HashMap.get cleared.hosts h) ≡ false
  unfolding cleared drop_discoveries drop_gameplay
  cleared-no_hosts = drop_hosts-none s room_id peer_id

  cleared-no_play :
      (g : GameplaySessionId)
      → satisfies (plays_in room_id peer_id) (HashMap.get cleared.gameplay g) ≡ false
  unfolding cleared drop_discoveries
  cleared-no_play = drop_gameplay-none (drop_hosts s room_id peer_id) room_id peer_id

  cleared-no_request :
      (d : DiscoveryRequestId)
      → satisfies (asks_in room_id peer_id) (HashMap.get cleared.discoveries d) ≡ false
  unfolding cleared
  cleared-no_request =
      drop_discoveries-none (drop_gameplay (drop_hosts s room_id peer_id) room_id peer_id) room_id
        peer_id

  evict-Valid : Valid (evict s room_id peer_id)
  unfolding evict drop_peer cleared
  evict-Valid = rw there-cleared (
      dropped-Valid cleared room_id peer_id peer cleared-Valid there-cleared placed cleared-no_hosts
        cleared-no_play cleared-no_request)

-- A member of a room has a state, which names the room.
member_has_peer :
    (s : RoomRouter) (room_id : RoomId) (peer_id : PeerId) (room : RoomState)
    → Valid s
    → HashMap.get s.rooms room_id ≡ some room
    → HashSet.contains room.members peer_id ≡ true
    → (peer : PeerState) × (HashMap.get s.peers peer_id ≡ some peer) × (peer.room_id ≡ room_id)
member_has_peer s room_id peer_id room v e m = elim (Option-cases (HashMap.get s.peers peer_id)) [
  | inl gone ↦ absurd (ground (arith, e, m, gone, v.members_agree room_id peer_id))
  | inr (peer, there) ↦ (peer, there, ground (arith, e, m, there, v.members_agree room_id peer_id))
]

-- `leave_room` keeps the tables in agreement, also where it fails.
pub leave_room-Valid :
    (s : RoomRouter) (room_id : RoomId) (peer_id : PeerId)
    → Valid s
    → Valid (leave_room s room_id peer_id).1
unfolding leave_room
leave_room-Valid s room_id peer_id v = elim (Option-cases (HashMap.get s.rooms room_id)) [
  | inl e ↦ rw (e, leave_room) v
  | inr (room, e) ↦ elim (Bool-cases (HashSet.contains room.members peer_id)) [
    | inr out ↦ rw (e, out, leave_room) v
    | inl m ↦
        let (peer, there, placed) = member_has_peer s room_id peer_id room v e m in
        rw (e, m, leave_room) (evict-Valid s room_id peer_id peer v there placed)
  ]
]
