-- ===== src/Server/Api/Reaches.antt =====
-- server/src/api.rs: the calls of the router's methods that one request makes.
use civ6_lan_bridge.Prelude.{ℕ, ◌≡◌, refl, list_key, nat_key, Option, none, List}
use civ6_lan_bridge.Prelude.HashMap
use civ6_lan_bridge.Protocol.Ports.{PeerId, HostSessionId, RoomId, VirtualIp}
use civ6_lan_bridge.Protocol.RoomCode.{RoomCode}
use civ6_lan_bridge.Router.State.{RoomRouter, RouterConfig}
use civ6_lan_bridge.Router.Invariant.Reachable.{
  Reachable, steps, creates, removes_empty, joins, resumes, leaves, registers, beats_for_room,
  unregisters, selects, ends,
}
use civ6_lan_bridge.Router.Peers.{leave_room}
use civ6_lan_bridge.Server.Api.{JoinRoomRequest, HeartbeatRequest, CreateGameplayRequest}
use civ6_lan_bridge.Server.Api.Handler.{World, Draws, Handler, Api, on_router}
use civ6_lan_bridge.Server.Api.Rooms.{create_room, delete_room_handler}
use civ6_lan_bridge.Server.Api.Peers.{
  join_room_handler, resume_room, delete_peer_handler, enter_room, register_peer,
}
use civ6_lan_bridge.Server.Api.Sessions.{
  register_host_handler, heartbeat_handler, create_gameplay_session, delete_host_handler,
}
use civ6_lan_bridge.Server.Api.Keeps.{
  Leads, Keeps, Leads-then, Keeps-then, or_undo-Keeps, either_way-Leads, give-Keeps, pure-Keeps,
  ask_router-Keeps, ask_app-Keeps, on_app-Keeps, on_router-Leads, in_database-Keeps,
}
use civ6_lan_bridge.Server.Api.Serve.{
  Request, live, ready, register, login, metrics, create, join, resume, room, host, beat, play,
  delete_host, delete_peer, delete_room, Reply, answer, serve,
}
use civ6_lan_bridge.Server.Api.Quiet.{
  remember_key_router, bearer, register_user-Keeps, login_user-Keeps, room_status-Keeps,
  test_metrics-Keeps, add_to_wireguard-Keeps, remove_from_wireguard-Keeps, store_peer-Keeps,
  placed_peer-Keeps, answer-Leads,
}

module _ (world : World) (config : RouterConfig) where
  create_room-Keeps :
      (header : Option (List ℕ)) (code : Option RoomCode) (draws : Draws)
      → Keeps (Reachable config) (create_room world header code draws)
  unfolding create_room
  create_room-Keeps header code draws = Keeps-then (bearer world _ header draws) λ _.
      Keeps-then (on_router-Leads world _ (λ s r. steps r (creates _ _))) λ _.
        Keeps-then (ask_router-Keeps world _) λ _.
          Keeps-then
            (or_undo-Keeps (in_database-Keeps world _ _ _)
              (on_router-Leads world _ (λ s r. steps r (removes_empty _))))
            λ _. pure-Keeps _

  delete_room-Keeps :
      (header : Option (List ℕ)) (code : List ℕ) (draws : Draws)
      → Keeps (Reachable config) (delete_room_handler world header code draws)
  unfolding delete_room_handler
  delete_room-Keeps header code draws = Keeps-then (bearer world _ header draws) λ _.
      Keeps-then (give-Keeps _) λ _. Keeps-then (ask_router-Keeps world _) λ _.
        Keeps-then (ask_router-Keeps world _) λ _. Keeps-then (give-Keeps _) λ _.
          Keeps-then (in_database-Keeps world _ _ _)
            λ _. on_router-Leads world _ (λ s r. steps r (removes_empty _))

  leaves-Keeps :
      (r : RoomId) (p : PeerId) → Keeps (Reachable config) (on_router world (λ s. leave_room s r p))
  leaves-Keeps r p = on_router-Leads world _ (λ s reached. steps reached (leaves r p))

  enter_room-Keeps :
      (code : RoomCode) (p : PeerId) (requested : Option VirtualIp) (draws : Draws)
      → Keeps (Reachable config) (enter_room world code p requested draws)
  unfolding enter_room
  enter_room-Keeps code p requested draws = Keeps-then (ask_router-Keeps world _) λ _.
      Keeps-then (ask_app-Keeps world _) λ _. Keeps-then (ask_router-Keeps world _) λ _.
        Keeps-then (on_router-Leads world _ (λ s r. steps r (joins _ _ _ _)))
          λ _. Keeps-then (ask_router-Keeps world _) λ _. pure-Keeps _

  register_peer-Keeps :
      (r : RoomId) (p : PeerId) (ip : VirtualIp) (key : Option (List ℕ))
      → Keeps (Reachable config) (register_peer world r p ip key)
  unfolding register_peer
  register_peer-Keeps r p ip key =
      Keeps-then (or_undo-Keeps (add_to_wireguard-Keeps world _ key ip) (leaves-Keeps r p)) λ _.
        Keeps-then
          (or_undo-Keeps (store_peer-Keeps world _ r p ip key)
            (either_way-Leads (remove_from_wireguard-Keeps world _ key) (leaves-Keeps r p)))
          λ _. on_app-Keeps world _ (remember_key_router p key)

  pub join_room-Keeps :
      (header : Option (List ℕ)) (code : List ℕ) (payload : JoinRoomRequest) (draws : Draws)
      → Keeps (Reachable config) (join_room_handler world header code payload draws)
  unfolding join_room_handler
  join_room-Keeps header code payload draws = Keeps-then (bearer world _ header draws) λ _.
      Keeps-then (give-Keeps _) λ _. Keeps-then (ask_app-Keeps world _) λ _.
        Keeps-then (give-Keeps _) λ _. Keeps-then (give-Keeps _) λ _.
          Keeps-then (enter_room-Keeps _ _ _ draws)
            λ _. Keeps-then (register_peer-Keeps _ _ _ _) λ _. pure-Keeps _

  resume_room-Keeps :
      (header : Option (List ℕ)) (code : List ℕ) (payload : JoinRoomRequest) (draws : Draws)
      → Keeps (Reachable config) (resume_room world header code payload draws)
  unfolding resume_room
  resume_room-Keeps header code payload draws = Keeps-then (bearer world _ header draws) λ _.
      Keeps-then (give-Keeps _) λ _. Keeps-then (ask_router-Keeps world _) λ _.
        Keeps-then (give-Keeps _) λ _.
          Keeps-then (on_router-Leads world _ (λ s r. steps r (resumes _ _ _))) λ _. pure-Keeps _

  delete_peer-Keeps :
      (header : Option (List ℕ)) (code : List ℕ) (p : PeerId) (draws : Draws)
      → Keeps (Reachable config) (delete_peer_handler world header code p draws)
  unfolding delete_peer_handler
  delete_peer-Keeps header code p draws = Keeps-then (bearer world _ header draws) λ _.
      Keeps-then (give-Keeps _) λ _. Keeps-then (placed_peer-Keeps world _ _ p) λ _.
        Keeps-then (ask_app-Keeps world _) λ key. Keeps-then (ask_app-Keeps world _) λ _.
          Keeps-then (give-Keeps _) λ _. Keeps-then (remove_from_wireguard-Keeps world _ key) λ _.
            Keeps-then
              (or_undo-Keeps (in_database-Keeps world _ _ _) (add_to_wireguard-Keeps world _ key _))
              λ _.
                Keeps-then
                  (or_undo-Keeps (leaves-Keeps _ p) (
                    either_way-Leads (store_peer-Keeps world _ _ p _ key)
                      (add_to_wireguard-Keeps world _ key _)))
                  λ _. on_app-Keeps world _ (λ app. refl)

  register_host-Leads :
      (header : Option (List ℕ)) (code : List ℕ) (p : PeerId) (draws : Draws)
      → Leads
          (λ s. Reachable config s × (HashMap.get s.hosts draws.host_session_id ≡ none))
          (Reachable config)
          (register_host_handler world header code p draws)
  unfolding register_host_handler
  register_host-Leads header code p draws =
      Leads-then (λ s (r, _). r) (bearer world _ header draws)
        λ _.
          Leads-then (λ s (r, _). r) (give-Keeps _)
            λ _.
              Leads-then (λ s (r, _). r) (ask_router-Keeps world _)
                λ _.
                  Leads-then (λ s r. r)
                    (on_router-Leads world _ (λ s (r, fresh). steps r (registers _ p _ _ fresh)))
                    λ id. Keeps-then (ask_router-Keeps world _) λ _.
                      Keeps-then
                        (or_undo-Keeps (in_database-Keeps world _ _ _)
                          (on_router-Leads world _ (λ s r. steps r (unregisters id))))
                        λ _. pure-Keeps _

  heartbeat-Keeps :
      (header : Option (List ℕ)) (code : List ℕ) (payload : HeartbeatRequest) (draws : Draws)
      → Keeps (Reachable config) (heartbeat_handler world header code payload draws)
  unfolding heartbeat_handler
  heartbeat-Keeps header code payload draws = Keeps-then (bearer world _ header draws) λ _.
      Keeps-then (give-Keeps _) λ _. Keeps-then (ask_router-Keeps world _) λ _.
        Keeps-then (on_router-Leads world _ (λ s r. steps r (beats_for_room _ _ _ _))) λ _.
          Keeps-then (ask_router-Keeps world _)
            λ _. Keeps-then (in_database-Keeps world _ _ _) λ _. pure-Keeps _

  create_gameplay-Keeps :
      (header : Option (List ℕ)) (code : List ℕ) (payload : CreateGameplayRequest) (draws : Draws)
      → Keeps (Reachable config) (create_gameplay_session world header code payload draws)
  unfolding create_gameplay_session
  create_gameplay-Keeps header code payload draws = Keeps-then (bearer world _ header draws) λ _.
      Keeps-then (give-Keeps _) λ _. Keeps-then (ask_router-Keeps world _) λ _.
        Keeps-then (on_router-Leads world _ (λ s r. steps r (selects _ _ _ _ _))) λ id.
          Keeps-then (ask_router-Keeps world _) λ _.
            Keeps-then
              (or_undo-Keeps (in_database-Keeps world _ _ _)
                (on_router-Leads world _ (λ s r. steps r (ends id))))
              λ _. pure-Keeps _

  delete_host-Keeps :
      (header : Option (List ℕ)) (code : List ℕ) (id : HostSessionId) (draws : Draws)
      → Keeps (Reachable config) (delete_host_handler world header code id draws)
  unfolding delete_host_handler
  delete_host-Keeps header code id draws = Keeps-then (bearer world _ header draws) λ _.
      Keeps-then (give-Keeps _) λ _. Keeps-then (ask_router-Keeps world _) λ _.
        Keeps-then (ask_router-Keeps world _) λ _. Keeps-then (give-Keeps _) λ _.
          Keeps-then (in_database-Keeps world _ _ _)
            λ _. on_router-Leads world _ (λ s r. steps r (unregisters id))

  abbrev Drawn : Draws → RoomRouter → Type 0
  Drawn draws s = Reachable config s × (HashMap.get s.hosts draws.host_session_id ≡ none)

  quiet :
      {A : Type 0} (draws : Draws) {handler : Handler (Api world) A} (reply : A → Reply)
      → Keeps (Reachable config) handler
      → Leads (Drawn draws) (Reachable config) (answer world handler reply)
  quiet draws {handler} reply keeps =
      answer-Leads world (Reachable config) {handler = handler} reply
        (record { apply = λ api (r, _). keeps.apply api r })

  serve-Leads :
      (request : Request) (draws : Draws)
      → Leads (Drawn draws) (Reachable config) (serve world request draws)
  unfolding serve
  serve-Leads live draws = quiet draws _ (ask_app-Keeps world _)
  serve-Leads ready draws = quiet draws _ (ask_app-Keeps world _)
  serve-Leads (register payload) draws = quiet draws _ (register_user-Keeps world _ payload draws)
  serve-Leads (login payload) draws = quiet draws _ (login_user-Keeps world _ payload draws)
  serve-Leads (metrics header) draws = quiet draws _ (test_metrics-Keeps world _ header draws)
  serve-Leads (create header code) draws = quiet draws _ (create_room-Keeps header code draws)
  serve-Leads (join header code payload) draws =
      quiet draws _ (join_room-Keeps header code payload draws)
  serve-Leads (resume header code payload) draws =
      quiet draws _ (resume_room-Keeps header code payload draws)
  serve-Leads (room header code) draws = quiet draws _ (room_status-Keeps world _ header code draws)
  serve-Leads (host header code p) draws =
      answer-Leads world _ _ (register_host-Leads header code p draws)
  serve-Leads (beat header code payload) draws =
      quiet draws _ (heartbeat-Keeps header code payload draws)
  serve-Leads (play header code payload) draws =
      quiet draws _ (create_gameplay-Keeps header code payload draws)
  serve-Leads (delete_host header code id) draws =
      quiet draws _ (delete_host-Keeps header code id draws)
  serve-Leads (delete_peer header code p) draws =
      quiet draws _ (delete_peer-Keeps header code p draws)
  serve-Leads (delete_room header code) draws = quiet draws _ (delete_room-Keeps header code draws)

  -- Every request, answered or refused, leaves a router that calls of the methods make from a
  -- new one, if it found one, as long as the host session identifier it draws is not in use.
  serve-Reachable :
      (request : Request) (draws : Draws) (api : Api world)
      → HashMap.get api.0.router.hosts draws.host_session_id ≡ none
      → Reachable config api.0.router
      → Reachable config (serve world request draws api).1.0.router
  serve-Reachable request draws api fresh reached =
      (serve-Leads request draws).apply api (reached, fresh)
