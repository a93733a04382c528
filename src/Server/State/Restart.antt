-- ===== src/Server/State/Restart.antt =====
-- server/src/state.rs: what `restore_persisted_state` restores.
use civ6_lan_bridge.Prelude.{
  ℕ, ◌≡◌, refl, true, nat_key, list_key, arith, Result-cases, subst, ok, err, inl, inr, List, [],
  ◌∷◌,
}
use civ6_lan_bridge.Prelude.HashMap
use civ6_lan_bridge.Prelude.HashMap.{HashMap}
use civ6_lan_bridge.Protocol.Ports.{RoomId, PeerId, VirtualIp}
use civ6_lan_bridge.Protocol.RoomCode.{RoomCode}
use civ6_lan_bridge.Router.State.{RoomRouter, Instant, RouterError, Outcome}
use civ6_lan_bridge.Router.Rooms.{create_room_with_id}
use civ6_lan_bridge.Router.Peers.{restore_peer, join_room, new_peer}
use civ6_lan_bridge.Router.Peers.Membership.{join_room-stands}
use civ6_lan_bridge.Router.Invariant.{Valid, stands_at, code_leads_to}
use civ6_lan_bridge.Router.Invariant.Rooms.{create_room_with_id-Valid}
use civ6_lan_bridge.Router.Invariant.Joins.{join_room-Valid}
use civ6_lan_bridge.Server.State.{
  AppState, PersistedRoom, PersistedPeer, PersistedState, restore_rooms, restore_peers,
  restore_persisted_state,
}

-- Every code of the list leads to its room.
abbrev pub AllOpen : RoomRouter → List PersistedRoom → Type 0
AllOpen s [] = Unit
AllOpen s (room ∷ rooms) = (code_leads_to s room.room_code room.room_id ≡ true) × AllOpen s rooms

-- Every peer of the list stands in its room, under its address.
abbrev pub AllStand : RoomRouter → List PersistedPeer → Type 0
AllStand s [] = Unit
AllStand s (peer ∷ peers) =
    (stands_at s peer.room_id peer.peer_id peer.virtual_ip ≡ true) × AllStand s peers

-- What was there before stays: a code and its room, a peer and its place.
record Kept (s t : RoomRouter) : Type 0 where
  codes : (c : RoomCode) (r : RoomId) → code_leads_to s c r ≡ true → code_leads_to t c r ≡ true
  places :
      (r : RoomId) (p : PeerId) (ip : VirtualIp)
      → stands_at s r p ip ≡ true
      → stands_at t r p ip ≡ true

Kept-trans : (s t u : RoomRouter) → Kept s t → Kept t u → Kept s u
Kept-trans s t u a b = record {
  codes = λ c r h. b.codes c r (a.codes c r h);
  places = λ r p ip h. b.places r p ip (a.places r p ip h);
}

create_room_with_id-Kept :
    (s : RoomRouter) (room_id : RoomId) (code : RoomCode)
    → Kept s (create_room_with_id s room_id code).1
unfolding create_room_with_id
create_room_with_id-Kept s room_id code = record {
  codes = λ c r h. ground (arith, HashMap.get-insert s.rooms_by_code code room_id c);
  places = λ r p ip h. ground arith;
}

create_room_with_id-opens :
    (s : RoomRouter) (room_id : RoomId) (code : RoomCode)
    → (create_room_with_id s room_id code).0 ≡ ok tt
    → code_leads_to (create_room_with_id s room_id code).1 code room_id ≡ true
unfolding create_room_with_id
create_room_with_id-opens s room_id code h =
    ground (arith, HashMap.get-insert s.rooms_by_code code room_id code)

join_room-Kept :
    (s : RoomRouter) (room_id : RoomId) (peer_id : PeerId) (virtual_ip : VirtualIp) (now : Instant)
    → Kept s (join_room s room_id peer_id virtual_ip now).1
unfolding join_room
join_room-Kept s room_id peer_id virtual_ip now = record {
  codes = λ c r h. ground arith;
  places = λ r p ip h.
      ground (arith, HashMap.get-insert s.peers peer_id (new_peer room_id virtual_ip now) p);
}

-- What a loop of the restart leaves: agreement, what was there before, and, if nothing was
-- refused, what it restores.
abbrev RoomsRestored : RoomRouter → List PersistedRoom → Outcome (Unit {0}) → Type 0
RoomsRestored s rooms o = Valid o.1 × Kept s o.1 × (o.0 ≡ ok tt → AllOpen o.1 rooms)

abbrev PeersRestored : RoomRouter → List PersistedPeer → Outcome (Unit {0}) → Type 0
PeersRestored s peers o = Valid o.1 × Kept s o.1 × (o.0 ≡ ok tt → AllStand o.1 peers)

restore_rooms-next :
    (s : RoomRouter) (room : PersistedRoom) (rooms : List PersistedRoom)
    → (create_room_with_id s room.room_id room.room_code).0 ≡ ok tt
    → restore_rooms (create_room_with_id s room.room_id room.room_code).1 rooms
      ≡ restore_rooms s (room ∷ rooms)
unfolding restore_rooms
restore_rooms-next s room rooms h = rw (h, restore_rooms) refl

restore_rooms-stop :
    (s : RoomRouter) (room : PersistedRoom) (rooms : List PersistedRoom) (e : RouterError)
    → (create_room_with_id s room.room_id room.room_code).0 ≡ err e
    → (err e, (create_room_with_id s room.room_id room.room_code).1)
      ≡ restore_rooms s (room ∷ rooms)
unfolding restore_rooms
restore_rooms-stop s room rooms e h = rw (h, restore_rooms) refl

restore_rooms-Restored :
    (s : RoomRouter) (rooms : List PersistedRoom)
    → Valid s
    → RoomsRestored s rooms (restore_rooms s rooms)
unfolding restore_rooms
restore_rooms-Restored s [] v = (v, record { codes = λ c r h. h; places = λ r p ip h. h }, λ _. tt)
restore_rooms-Restored s (room ∷ rooms) v =
    let kept = create_room_with_id-Kept s room.room_id room.room_code in
    let valid = create_room_with_id-Valid s room.room_id room.room_code v in
    let t = (create_room_with_id s room.room_id room.room_code).1 in
    let (valid', kept', all) = restore_rooms-Restored t rooms valid in
    elim (Result-cases (create_room_with_id s room.room_id room.room_code).0) [
      | inr (e, h) ↦
          subst (RoomsRestored s (room ∷ rooms)) (restore_rooms-stop s room rooms e h)
            (valid, kept, λ done. ground arith)
      | inl (_, h) ↦ subst (RoomsRestored s (room ∷ rooms)) (restore_rooms-next s room rooms h) (
        valid',
        Kept-trans s t (restore_rooms t rooms).1 kept kept',
        λ done. (
          kept'.codes room.room_code room.room_id
              (create_room_with_id-opens s room.room_id room.room_code h),
          all done,
        ),
      )
    ]

restore_peers-next :
    (s : RoomRouter) (keys : HashMap PeerId (List ℕ)) (peer : PersistedPeer)
    (peers : List PersistedPeer) (now : Instant)
    → (join_room s peer.room_id peer.peer_id peer.virtual_ip now).0 ≡ ok tt
    → (restore_peers
        (join_room s peer.room_id peer.peer_id peer.virtual_ip now).1
        (HashMap.insert keys peer.peer_id peer.wireguard_public_key)
        peers
        now).0
      ≡ (restore_peers s keys (peer ∷ peers) now).0
unfolding restore_peers restore_peer
restore_peers-next s keys peer peers now h = rw (h, restore_peers) refl

restore_peers-stop :
    (s : RoomRouter) (keys : HashMap PeerId (List ℕ)) (peer : PersistedPeer)
    (peers : List PersistedPeer) (now : Instant) (e : RouterError)
    → (join_room s peer.room_id peer.peer_id peer.virtual_ip now).0 ≡ err e
    → (err e, (join_room s peer.room_id peer.peer_id peer.virtual_ip now).1)
      ≡ (restore_peers s keys (peer ∷ peers) now).0
unfolding restore_peers restore_peer
restore_peers-stop s keys peer peers now e h = rw (h, restore_peers) refl

restore_peers-Restored :
    (s : RoomRouter) (keys : HashMap PeerId (List ℕ)) (peers : List PersistedPeer) (now : Instant)
    → Valid s
    → PeersRestored s peers (restore_peers s keys peers now).0
unfolding restore_peers
restore_peers-Restored s keys [] now v =
    (v, record { codes = λ c r h. h; places = λ r p ip h. h }, λ _. tt)
restore_peers-Restored s keys (peer ∷ peers) now v =
    let kept = join_room-Kept s peer.room_id peer.peer_id peer.virtual_ip now in
    let valid = join_room-Valid s peer.room_id peer.peer_id peer.virtual_ip now v in
    let t = (join_room s peer.room_id peer.peer_id peer.virtual_ip now).1 in
    let keys' = HashMap.insert keys peer.peer_id peer.wireguard_public_key in
    let (valid', kept', all) = restore_peers-Restored t keys' peers now valid in
    elim (Result-cases (join_room s peer.room_id peer.peer_id peer.virtual_ip now).0) [
      | inr (e, h) ↦
          subst (PeersRestored s (peer ∷ peers)) (restore_peers-stop s keys peer peers now e h)
            (valid, kept, λ done. ground arith)
      | inl (_, h) ↦
          subst (PeersRestored s (peer ∷ peers)) (restore_peers-next s keys peer peers now h) (
            valid',
            Kept-trans s t (restore_peers t keys' peers now).0.1 kept kept',
            λ done. (
              kept'.places peer.room_id peer.peer_id peer.virtual_ip
                  (join_room-stands s peer.room_id peer.peer_id peer.virtual_ip now h).0,
              all done,
            ),
          )
    ]

AllOpen-Kept :
    (s t : RoomRouter) (rooms : List PersistedRoom) → Kept s t → AllOpen s rooms → AllOpen t rooms
AllOpen-Kept s t [] k a = tt
AllOpen-Kept s t (room ∷ rooms) k (a, all) =
    (k.codes room.room_code room.room_id a, AllOpen-Kept s t rooms k all)

-- A restart from a state whose tables agree leaves them in agreement, and, if nothing is
-- refused, has every room of the database under its code and every peer in its room under its
-- address.
pub restore_persisted_state_lem :
    (st : AppState) (persisted : PersistedState) (now : Instant)
    → Valid st.router
    → Valid (restore_persisted_state st persisted now).1.router
      × ((restore_persisted_state st persisted now).0 ≡ ok tt
          → AllOpen (restore_persisted_state st persisted now).1.router persisted.rooms
            × AllStand (restore_persisted_state st persisted now).1.router persisted.peers)
unfolding restore_persisted_state
restore_persisted_state_lem st persisted now v =
    let t = (restore_rooms st.router persisted.rooms).1 in
    let (valid, kept, opened) = restore_rooms-Restored st.router persisted.rooms v in
    let (valid', kept', stand) = restore_peers-Restored t st.peer_keys persisted.peers now valid in
    elim (Result-cases (restore_rooms st.router persisted.rooms).0) [
      | inr (e, h) ↦ rw (h, restore_persisted_state) (valid, λ done. ground arith)
      | inl (_, h) ↦
          rw (h, restore_persisted_state)
            (
              valid',
              λ done. (
                AllOpen-Kept t (restore_peers t st.peer_keys persisted.peers now).0.1
                    persisted.rooms kept' (opened h),
                stand done,
              ),
            )
    ]
