-- ===== src/Server/Api/Peers/Rollback.antt =====
-- server/src/api.rs: `join_room`, as it fails.
use civ6_lan_bridge.Prelude.{
  ℕ, ◌≡◌, refl, subst, sym, ap, ◌∙◌, true, ◌==◌, nat_key, if◌then◌else◌, Option, none, some, List,
  Result, ok, err, arith,
}
use civ6_lan_bridge.Protocol.Ports.{RoomId, PeerId, VirtualIp}
use civ6_lan_bridge.Protocol.RoomCode.{RoomCode}
use civ6_lan_bridge.Router.State.{RoomRouter, RouterConfig, RouterError, Instant}
use civ6_lan_bridge.Router.Rooms.{peer_connection_epoch}
use civ6_lan_bridge.Router.Peers.{join_room, leave_room}
use civ6_lan_bridge.Router.Peers.Membership.{join_room_places}
use civ6_lan_bridge.Router.Invariant.{Valid, has_member, ip_leads_to}
use civ6_lan_bridge.Router.Invariant.Reachable.{Reachable, Reachable-Valid}
use civ6_lan_bridge.Router.Directory.{Directory, directory, place_of}
use civ6_lan_bridge.Router.Directory.Placing.{join_room-directory, leave_room-directory}
use civ6_lan_bridge.Server.Api.{ApiError, JoinRoomRequest, PeerResponse}
use civ6_lan_bridge.Server.Api.Handler.{World, Draws, Api, of_router, on_router, on_app}
use civ6_lan_bridge.Server.Api.Peers.{remember_key, enter_room, register_peer, join_room_handler}
use civ6_lan_bridge.Server.Api.Keeps.{
  Leads, give-Keeps, ask_router-Keeps, ask_app-Keeps, on_router-Leads, either_way-Leads,
}
use civ6_lan_bridge.Server.Api.Ends.{
  Behind, Ends, Ends-then, or_undo-Ends, Keeps-Ends, quiet-Ends, pure-Ends, on_router-Ends,
  ask_router-Ends,
}
use civ6_lan_bridge.Server.Api.Quiet.{
  bearer, store_peer-Keeps, add_to_wireguard-Keeps, remove_from_wireguard-Keeps,
  remember_key_router,
}
use civ6_lan_bridge.Server.Api.Reaches.{join_room-Keeps}

-- The places are those of before.
abbrev Before : Directory → RoomRouter → Type 0
Before d s = (q : PeerId) → directory s q ≡ d q

-- The router before the join, one whose tables agree.
abbrev Start : Directory → RoomRouter → Type 0
Start d s = Before d s × Valid s

-- The peer has come in, can leave, and everyone else is where they were.
record Joined (d : Directory) (r : RoomId) (p : PeerId) (ip : VirtualIp) (s : RoomRouter)
    : Type 0 where
  outside : d p ≡ none
  placed : (q : PeerId) → directory s q ≡ (if p == q then some (r, ip) else d q)
  leaves : (leave_room s r p).0 ≡ ok tt

member_leaves :
    (s : RoomRouter) (r : RoomId) (p : PeerId)
    → has_member s r p ≡ true
    → (leave_room s r p).0 ≡ ok tt
unfolding leave_room
member_leaves s r p member = ground arith

free_to_join :
    (s : RoomRouter) (r : RoomId) (p : PeerId) (ip : VirtualIp) (now : Instant)
    → (join_room s r p ip now).0 ≡ ok tt
    → directory s p ≡ none
unfolding join_room place_of
free_to_join s r p ip now joined = ground arith

refused_unchanged :
    (s : RoomRouter) (r : RoomId) (p : PeerId) (ip : VirtualIp) (now : Instant) (e : RouterError)
    → (join_room s r p ip now).0 ≡ err e
    → (join_room s r p ip now).1 ≡ s
unfolding join_room
refused_unchanged s r p ip now e refused = ground arith

module _ (world : World) (d : Directory) where
  joins-Ends :
      (r : RoomId) (p : PeerId) (ip : VirtualIp) (now : Instant)
      → Ends
          (Start d)
          (λ _. Joined d r p ip)
          (Before d)
          (on_router world (λ s. join_room s r p ip now))
  joins-Ends r p ip now =
      on_router-Ends world _
        (λ s (before, v) _ joined. record {
          outside = sym (before p) ∙ free_to_join s r p ip now joined;
          placed = λ q.
              join_room-directory s r p ip now q joined
              ∙ ap (λ o. if p == q then some (r, ip) else o) (before q);
          leaves = member_leaves _ r p (join_room_places s r p ip now v joined).1;
        })
        (λ s (before, v) e refused q.
          ap (λ t. directory t q) (refused_unchanged s r p ip now e refused) ∙ before q)

  leaves-undoes :
      (r : RoomId) (p : PeerId) (ip : VirtualIp)
      → Leads (Joined d r p ip) (Before d) (on_router world (λ s. leave_room s r p))
  leaves-undoes r p ip = on_router-Leads world _ λ s joined q.
      ground (arith, leave_room-directory s r p q joined.leaves, joined.placed q, joined.outside)

  epoch_found :
      (s : RoomRouter) (r : RoomId) (p : PeerId) (ip : VirtualIp) (e : ApiError)
      → Joined d r p ip s
      → of_router (peer_connection_epoch s p) ≡ err e
      → Before d s
  unfolding peer_connection_epoch place_of
  epoch_found s r p ip e joined failed = ground (arith, failed, joined.placed p)

  enter_room-Ends :
      (code : RoomCode) (p : PeerId) (requested : Option VirtualIp) (draws : Draws)
      → Ends
          (Start d)
          (λ (r, ip, _). Joined d r p ip)
          (Before d)
          (enter_room world code p requested draws)
  unfolding enter_room
  enter_room-Ends code p requested draws =
      Ends-then (quiet-Ends (ask_router-Keeps world _) (λ s start. start.0)) λ r.
        Ends-then (quiet-Ends (ask_app-Keeps world _) (λ s start. start.0)) λ _.
          Ends-then (quiet-Ends (ask_router-Keeps world _) (λ s start. start.0)) λ ip.
            Ends-then (joins-Ends r p ip draws.now) λ _.
              Ends-then
                (ask_router-Ends world {Q = λ _. Joined d r p ip} _ (λ s joined _ _. joined)
                  (λ s joined e. epoch_found s r p ip e joined))
                λ _. pure-Ends _ (λ s joined. joined)

  remembers-Ends :
      (r : RoomId) (p : PeerId) (ip : VirtualIp) (key : Option (List ℕ))
      → Ends
          (Joined d r p ip)
          (λ _. Joined d r p ip)
          (Before d)
          (on_app world (λ app. (ok tt, remember_key p key app)))
  unfolding on_app
  remembers-Ends r p ip key = record {
    apply = λ api joined. subst (Joined d r p ip) (sym (remember_key_router p key api.0)) joined;
  }

  register_peer-Ends :
      (r : RoomId) (p : PeerId) (ip : VirtualIp) (key : Option (List ℕ))
      → Ends (Joined d r p ip) (λ _. Joined d r p ip) (Before d) (register_peer world r p ip key)
  unfolding register_peer
  register_peer-Ends r p ip key =
      Ends-then
        (or_undo-Ends (Keeps-Ends (add_to_wireguard-Keeps world _ key ip)) (leaves-undoes r p ip))
        λ _.
          Ends-then
            (or_undo-Ends (Keeps-Ends (store_peer-Keeps world _ r p ip key))
              (either_way-Leads (remove_from_wireguard-Keeps world _ key) (leaves-undoes r p ip)))
            λ _. remembers-Ends r p ip key

  join_room-Ends :
      (header : Option (List ℕ)) (code : List ℕ) (payload : JoinRoomRequest) (draws : Draws)
      → Ends
          (Start d)
          (λ _ _. Unit {0})
          (Before d)
          (join_room_handler world header code payload draws)
  unfolding join_room_handler
  join_room-Ends header code payload draws =
      Ends-then (quiet-Ends (bearer world _ header draws) (λ s start. start.0)) λ _.
        Ends-then (quiet-Ends (give-Keeps _) (λ s start. start.0)) λ _.
          Ends-then (quiet-Ends (ask_app-Keeps world _) (λ s start. start.0)) λ _.
            Ends-then (quiet-Ends (give-Keeps _) (λ s start. start.0)) λ _.
              Ends-then (quiet-Ends (give-Keeps _) (λ s start. start.0)) λ _.
                Ends-then (enter_room-Ends _ _ _ draws) λ (r, ip, _).
                  Ends-then (register_peer-Ends r _ ip _) λ _. pure-Ends _ (λ s joined. tt)

same_rooms :
    (s t : RoomRouter) (r : RoomId) (p : PeerId)
    → Valid s
    → Valid t
    → directory t p ≡ directory s p
    → has_member t r p ≡ has_member s r p
unfolding place_of
same_rooms s t r p v w same = ground (arith, v.members_agree r p, w.members_agree r p)

same_addresses :
    (s t : RoomRouter) (ip : VirtualIp) (p : PeerId)
    → Valid s
    → Valid t
    → directory t p ≡ directory s p
    → ip_leads_to t ip p ≡ ip_leads_to s ip p
unfolding place_of
same_addresses s t ip p v w same = ground (arith, v.ips_agree ip p, w.ips_agree ip p)

-- Every peer has the places, the room counts it as before, and the addresses lead to it as before.
pub record Undone (s t : RoomRouter) : Type 0 where
  pub places : (q : PeerId) → directory t q ≡ directory s q
  pub members : (r : RoomId) (q : PeerId) → has_member t r q ≡ has_member s r q
  pub addresses : (ip : VirtualIp) (q : PeerId) → ip_leads_to t ip q ≡ ip_leads_to s ip q

failed_behind :
    (world : World) (E : RoomRouter → Type 0) (o : Result ApiError PeerResponse × Api world)
    (e : ApiError)
    → o.0 ≡ err e
    → Behind (λ _ _. Unit {0}) E o
    → E o.1.0.router
failed_behind world E (ok a, api) e failed end = cc
failed_behind world E (err e', api) e failed end = end

-- Where join_room answers with an error, wherever it came from (the token, the room code, the
-- key, the address, the router, wg or the database), every peer is in the room and at the
-- address it was, the rooms count the members they did, and the addresses lead to the peers they
-- did, if calls of the methods made the router.
pub join_room_rolls_back :
    (world : World) (config : RouterConfig) (header : Option (List ℕ)) (code : List ℕ)
    (payload : JoinRoomRequest) (draws : Draws) (api : Api world) (e : ApiError)
    → Reachable config api.0.router
    → (join_room_handler world header code payload draws api).0 ≡ err e
    → Undone api.0.router (join_room_handler world header code payload draws api).1.0.router
join_room_rolls_back world config header code payload draws api e reached failed =
    let s = api.0.router in
    let o = join_room_handler world header code payload draws api in
    let v = Reachable-Valid reached in
    let w =
      Reachable-Valid
        ((join_room-Keeps world config header code payload draws).apply api reached) in
    let same : (q : PeerId) → directory o.1.0.router q ≡ directory s q =
      failed_behind world _ o e failed (
        (join_room-Ends world (directory s) header code payload draws).apply api
          ((λ q. refl), v)) in
    record {
      places = same;
      members = λ r q. same_rooms s _ r q v w (same q);
      addresses = λ ip q. same_addresses s _ ip q v w (same q);
    }
