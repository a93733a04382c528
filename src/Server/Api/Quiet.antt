-- ===== src/Server/Api/Quiet.antt =====
-- server/src/api.rs: the steps of the handlers that leave the router alone.
use civ6_lan_bridge.Prelude.{ℕ, ◌≡◌, refl, list_key, nat_key, Option, none, some, List, arith}
use civ6_lan_bridge.Protocol.Ports.{PeerId, RoomId, VirtualIp}
use civ6_lan_bridge.Protocol.RoomCode.{RoomCode}
use civ6_lan_bridge.Router.State.{RoomRouter}
use civ6_lan_bridge.Server.State.{AppState}
use civ6_lan_bridge.Server.WireGuard.{WireGuardManager}
use civ6_lan_bridge.Server.Api.{AuthRequest}
use civ6_lan_bridge.Server.Api.Handler.{World, Draws, Handler, Api, on_app}
use civ6_lan_bridge.Server.Api.Access.{
  register_user, login_user, require_bearer, require_admin_bearer, check_token, within_rate,
  add_user, create_client_session, stored_hash,
}
use civ6_lan_bridge.Server.Api.Rooms.{room_status, test_metrics}
use civ6_lan_bridge.Server.Api.Peers.{
  placed_peer, add_to_wireguard, remove_from_wireguard, at_interface, checked_wg, store_peer,
  remember_key,
}
use civ6_lan_bridge.Server.Api.Keeps.{
  Leads, Keeps, Leads-then, Keeps-then, give-Keeps, pure-Keeps, ask_router-Keeps, ask_app-Keeps,
  on_app-Keeps, in_database-Keeps,
}
use civ6_lan_bridge.Server.Api.Serve.{Reply, answer}

within_rate_router :
    (key : List ℕ) (arrival : ℕ) (app : AppState)
    → (within_rate key arrival app).1.router ≡ app.router
unfolding within_rate
within_rate_router key arrival app = refl

check_token_router :
    (token : List ℕ) (draws : Draws) (app : AppState)
    → (check_token token draws app).1.router ≡ app.router
unfolding check_token within_rate
check_token_router token draws app = ground arith

require_bearer_router :
    (header : Option (List ℕ)) (draws : Draws) (app : AppState)
    → (require_bearer header draws app).1.router ≡ app.router
unfolding require_bearer check_token within_rate
require_bearer_router header draws app = ground arith

require_admin_router :
    (header : Option (List ℕ)) (draws : Draws) (app : AppState)
    → (require_admin_bearer header draws app).1.router ≡ app.router
unfolding require_admin_bearer within_rate
require_admin_router none draws app = refl
require_admin_router (some provided) draws app = ground arith

add_user_router :
    (name hash : List ℕ) (app : AppState) → (add_user name hash app).1.router ≡ app.router
unfolding add_user
add_user_router name hash app = ground arith

pub remember_key_router :
    (id : PeerId) (key : Option (List ℕ)) (app : AppState)
    → (remember_key id key app).router ≡ app.router
unfolding remember_key
remember_key_router id none app = refl
remember_key_router id (some key) app = refl

create_client_session_router :
    (name : List ℕ) (draws : Draws) (app : AppState)
    → (create_client_session name draws app).1.router ≡ app.router
unfolding create_client_session
create_client_session_router name draws app = refl

stored_hash_router : (name : List ℕ) (app : AppState) → (stored_hash name app).1.router ≡ app.router
unfolding stored_hash
stored_hash_router name app = refl

module _ (world : World) (P : RoomRouter → Type 0) where
  pub bearer :
      (header : Option (List ℕ)) (draws : Draws)
      → Keeps P (on_app world (require_bearer header draws))
  bearer header draws = on_app-Keeps world _ (require_bearer_router header draws)

  pub rate : (key : List ℕ) (arrival : ℕ) → Keeps P (on_app world (within_rate key arrival))
  rate key arrival = on_app-Keeps world _ (within_rate_router key arrival)

  pub register_user-Keeps :
      (payload : AuthRequest) (draws : Draws) → Keeps P (register_user world payload draws)
  unfolding register_user
  register_user-Keeps payload draws = Keeps-then (give-Keeps _) λ name.
      Keeps-then (give-Keeps _) λ _. Keeps-then (rate _ _) λ _. Keeps-then (give-Keeps _) λ hash.
        Keeps-then (on_app-Keeps world _ (add_user_router name hash))
          λ _. on_app-Keeps world _ (create_client_session_router name draws)

  pub login_user-Keeps :
      (payload : AuthRequest) (draws : Draws) → Keeps P (login_user world payload draws)
  unfolding login_user
  login_user-Keeps payload draws = Keeps-then (give-Keeps _) λ name. Keeps-then (rate _ _) λ _.
      Keeps-then (on_app-Keeps world _ (stored_hash_router name)) λ hash.
        Keeps-then (give-Keeps _)
          λ _. on_app-Keeps world _ (create_client_session_router name draws)

  pub room_status-Keeps :
      (header : Option (List ℕ)) (code : List ℕ) (draws : Draws)
      → Keeps P (room_status world header code draws)
  unfolding room_status
  room_status-Keeps header code draws = Keeps-then (bearer header draws) λ _.
      Keeps-then (give-Keeps _) λ _.
        Keeps-then (ask_router-Keeps world _)
          λ _. Keeps-then (ask_router-Keeps world _) λ _. pure-Keeps _

  pub test_metrics-Keeps :
      (header : Option (List ℕ)) (draws : Draws) → Keeps P (test_metrics world header draws)
  unfolding test_metrics
  test_metrics-Keeps header draws =
      Keeps-then (on_app-Keeps world _ (require_admin_router header draws))
        λ _. on_app-Keeps world _ (λ app. refl)

  checked_wg-Keeps : (key : List ℕ) (args : List (List ℕ)) → Keeps P (checked_wg world key args)
  unfolding checked_wg
  checked_wg-Keeps key args = Keeps-then (give-Keeps _) λ _. record { apply = λ api p. p }

  at_interface-Keeps :
      (args : WireGuardManager → List ℕ → List (List ℕ)) (wireguard : Option WireGuardManager)
      (key : Option (List ℕ))
      → Keeps P (at_interface world args wireguard key)
  unfolding at_interface
  at_interface-Keeps args none key = pure-Keeps _
  at_interface-Keeps args (some manager) none = pure-Keeps _
  at_interface-Keeps args (some manager) (some key) = checked_wg-Keeps key _

  pub add_to_wireguard-Keeps :
      (key : Option (List ℕ)) (ip : VirtualIp) → Keeps P (add_to_wireguard world key ip)
  unfolding add_to_wireguard
  add_to_wireguard-Keeps key ip =
      Keeps-then (ask_app-Keeps world _) λ wireguard. at_interface-Keeps _ wireguard key

  pub remove_from_wireguard-Keeps :
      (key : Option (List ℕ)) → Keeps P (remove_from_wireguard world key)
  unfolding remove_from_wireguard
  remove_from_wireguard-Keeps key =
      Keeps-then (ask_app-Keeps world _) λ wireguard. at_interface-Keeps _ wireguard key

  pub store_peer-Keeps :
      (r : RoomId) (p : PeerId) (ip : VirtualIp) (key : Option (List ℕ))
      → Keeps P (store_peer world r p ip key)
  unfolding store_peer
  store_peer-Keeps r p ip none = pure-Keeps _
  store_peer-Keeps r p ip (some key) = in_database-Keeps world P _ _

  pub placed_peer-Keeps : (code : RoomCode) (p : PeerId) → Keeps P (placed_peer world code p)
  unfolding placed_peer
  placed_peer-Keeps code p = Keeps-then (ask_router-Keeps world _) λ _.
      Keeps-then (ask_router-Keeps world _)
        λ _. Keeps-then (give-Keeps _) λ _. Keeps-then (ask_router-Keeps world _) λ _. pure-Keeps _

  pub answer-Leads :
      {Q : RoomRouter → Type 0} {A : Type 0} {handler : Handler (Api world) A} (reply : A → Reply)
      → Leads Q P handler
      → Leads Q P (answer world handler reply)
  unfolding answer
  answer-Leads reply leads = Leads-then (λ s p. p) leads λ a. pure-Keeps _
