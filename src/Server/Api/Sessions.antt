-- ===== src/Server/Api/Sessions.antt =====
-- server/src/api.rs: the handlers on host sessions and gameplay sessions. A handler runs to its end
-- without another's steps in between.
use civ6_lan_bridge.Prelude.{ℕ, ◌==◌, nat_key, Option, List}
use civ6_lan_bridge.Protocol.Ports.{PeerId, HostSessionId}
use civ6_lan_bridge.Router.Rooms.{host_snapshot, gameplay_snapshot}
use civ6_lan_bridge.Router.Hosts
use civ6_lan_bridge.Router.Gameplay.{select_host, remove_gameplay_session}
use civ6_lan_bridge.Server.Api.{
  forbidden, internal, other_room_host, database_write_failed, database_delete_failed,
  HeartbeatRequest, CreateGameplayRequest, HostResponse, GameplayResponse, host_response,
  gameplay_response,
}
use civ6_lan_bridge.Server.Api.Handler.{
  World, Draws, Handler, ◌>>=◌, ◌>>◌, pure, give, ensure, or_undo, of_router, Api, on_app,
  on_router, ask_router, in_database, upsert_host, delete_host, insert_gameplay, find_room,
  parse_code,
}
use civ6_lan_bridge.Server.Api.Handler
use civ6_lan_bridge.Server.Api.Access.{require_bearer}

module _ (world : World) where
  unfoldable pub register_host_handler :
      Option (List ℕ) → List ℕ → PeerId → Draws → Handler (Api world) HostResponse
  register_host_handler header code peer_id draws = do
    on_app world (require_bearer header draws)
    room_code ← give (parse_code code)
    room_id ← ask_router world (find_room room_code)
    host_session_id ←
        on_router world (λ s. Hosts.register_host s room_id peer_id draws.host_session_id draws.now)
    snapshot ← ask_router world (λ s. of_router (host_snapshot s host_session_id))
    or_undo
        (in_database world (upsert_host room_id peer_id host_session_id 15)
          (internal database_write_failed))
        (on_router world (λ s. Hosts.unregister_host s host_session_id))
    pure (host_response snapshot 15)

  unfoldable pub heartbeat_handler :
      Option (List ℕ) → List ℕ → HeartbeatRequest → Draws → Handler (Api world) HostResponse
  heartbeat_handler header code payload draws = do
    on_app world (require_bearer header draws)
    room_code ← give (parse_code code)
    room_id ← ask_router world (find_room room_code)
    on_router world (λ s.
        Hosts.heartbeat_host_for_room s room_id payload.peer_id payload.host_session_id draws.now)
    snapshot ← ask_router world (λ s. of_router (host_snapshot s payload.host_session_id))
    in_database world (Handler.heartbeat_host room_id payload.peer_id payload.host_session_id 15)
        (internal database_write_failed)
    pure (host_response snapshot 15)

  unfoldable pub create_gameplay_session :
      Option (List ℕ)
      → List ℕ
      → CreateGameplayRequest
      → Draws
      → Handler (Api world) GameplayResponse
  create_gameplay_session header code payload draws = do
    on_app world (require_bearer header draws)
    room_code ← give (parse_code code)
    room_id ← ask_router world (find_room room_code)
    session_id ← on_router world (λ s.
        select_host s room_id payload.client_peer_id payload.host_session_id
          draws.gameplay_session_id draws.now)
    snapshot ← ask_router world (λ s. of_router (gameplay_snapshot s session_id))
    or_undo
        (in_database world
          (insert_gameplay room_id payload.client_peer_id payload.host_session_id session_id 30)
          (internal database_write_failed))
        (on_router world (λ s. remove_gameplay_session s session_id))
    pure (gameplay_response snapshot)

  unfoldable pub delete_host_handler :
      Option (List ℕ) → List ℕ → HostSessionId → Draws → Handler (Api world) (Unit {0})
  delete_host_handler header code host_session_id draws = do
    on_app world (require_bearer header draws)
    room_code ← give (parse_code code)
    room_id ← ask_router world (find_room room_code)
    host ← ask_router world (λ s. of_router (host_snapshot s host_session_id))
    ensure (host.room_id == room_id) (forbidden other_room_host)
    in_database world (delete_host host_session_id) (internal database_delete_failed)
    on_router world (λ s. Hosts.unregister_host s host_session_id)
