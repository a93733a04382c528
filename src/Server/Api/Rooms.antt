-- ===== src/Server/Api/Rooms.antt =====
-- server/src/api.rs: the handlers on rooms, and the two on health. `AppState` is shared, so the
-- router that a handler asks is the state's at that time. A handler runs to its end without
-- another's steps in between.
use civ6_lan_bridge.Prelude.{if◌then◌else◌, ℕ, ◌&&◌, ◌==◌, nat_key, Option, none, some, List, ok}
use civ6_lan_bridge.Protocol.RoomCode.{RoomCode}
use civ6_lan_bridge.Router.Rooms.{RoomSnapshot, RouterStats, stats}
use civ6_lan_bridge.Router.Rooms
use civ6_lan_bridge.Server.State.{AppState}
use civ6_lan_bridge.Server.Metrics.Snapshot.{RelayMetricsSnapshot, snapshot}
use civ6_lan_bridge.Server.Api.{
  HealthResponse, alive, ready, ready_in_memory, conflict, internal, database_write_failed,
  database_delete_failed, room_occupied, RoomResponse, room_response,
}
use civ6_lan_bridge.Server.Api.Handler.{
  World, Draws, Handler, ◌>>=◌, ◌>>◌, pure, give, ensure, or_undo, of_router, Api, on_app,
  on_router, ask_router, in_database, insert_room, delete_room, find_room, parse_code,
}
use civ6_lan_bridge.Server.Api.Access.{require_bearer, require_admin_bearer}

abbrev pub code_or : RoomCode → Option RoomCode → RoomCode
code_or random none = random
code_or random (some code) = code

unfoldable pub health_live : AppState → HealthResponse
health_live app = record { status = alive; database_configured = app.database }

unfoldable pub health_ready : AppState → HealthResponse
health_ready app = record {
  status = if app.database then ready else ready_in_memory;
  database_configured = app.database;
}

module _ (world : World) where
  unfoldable pub create_room :
      Option (List ℕ) → Option RoomCode → Draws → Handler (Api world) RoomResponse
  create_room header requested draws = do
    on_app world (require_bearer header draws)
    room_id ←
        on_router world (λ s. Rooms.create_room s draws.room_id (code_or draws.room_code requested))
    snapshot ← ask_router world (λ s. of_router (Rooms.room_snapshot s room_id))
    or_undo
        (in_database world (insert_room snapshot.room_id snapshot.code)
          (internal database_write_failed))
        (on_router world (λ s. Rooms.remove_empty_room s snapshot.room_id))
    pure (room_response snapshot)

  unfoldable pub room_status : Option (List ℕ) → List ℕ → Draws → Handler (Api world) RoomResponse
  room_status header code draws = do
    on_app world (require_bearer header draws)
    room_code ← give (parse_code code)
    room_id ← ask_router world (find_room room_code)
    snapshot ← ask_router world (λ s. of_router (Rooms.room_snapshot s room_id))
    pure (room_response snapshot)

  unfoldable pub delete_room_handler :
      Option (List ℕ) → List ℕ → Draws → Handler (Api world) (Unit {0})
  delete_room_handler header code draws = do
    on_app world (require_bearer header draws)
    room_code ← give (parse_code code)
    room_id ← ask_router world (find_room room_code)
    snapshot ← ask_router world (λ s. of_router (Rooms.room_snapshot s room_id))
    ensure (snapshot.member_count == 0 && snapshot.host_count == 0) (conflict room_occupied)
    in_database world (delete_room room_id) (internal database_delete_failed)
    on_router world (λ s. Rooms.remove_empty_room s room_id)

  unfoldable pub test_metrics : Option (List ℕ) → Draws → Handler (Api world) RelayMetricsSnapshot
  test_metrics header draws = do
    on_app world (require_admin_bearer header draws)
    on_app world (λ app. (ok (snapshot app.metrics (stats app.router)), app))
