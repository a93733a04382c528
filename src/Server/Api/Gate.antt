-- ===== src/Server/Api/Gate.antt =====
-- server/src/api.rs: what `build_router` answers to a request that is not authorized.
use civ6_lan_bridge.Prelude.{ℕ, ◌≡◌, refl, arith, nat_key, list_key, Option, List, Result, ok, err}
use civ6_lan_bridge.Server.State.{AppState}
use civ6_lan_bridge.Server.Api.{ApiError}
use civ6_lan_bridge.Server.Api.Handler.{World, Draws, Handler, Api, continue, ◌>>=◌, pure, on_app}
use civ6_lan_bridge.Server.Api.Access.{
  within_rate, check_token, require_bearer, require_admin_bearer,
}
use civ6_lan_bridge.Server.Api.Rooms.{create_room, room_status, delete_room_handler, test_metrics}
use civ6_lan_bridge.Server.Api.Peers.{join_room_handler, resume_room, delete_peer_handler}
use civ6_lan_bridge.Server.Api.Sessions.{
  register_host_handler, heartbeat_handler, create_gameplay_session, delete_host_handler,
}
use civ6_lan_bridge.Server.Api.Serve.{
  Request, live, ready, register, login, metrics, create, join, resume, room, host, beat, play,
  delete_host, delete_peer, delete_room, Reply, answer, serve,
}

-- What is asked of each route's `Authorization` header: nothing of the health checks and where
-- tokens are obtained, the server's own token of the metrics, and a bearer's token of the others.
abbrev pub gate : Request → Draws → AppState → Result ApiError (Unit {0}) × AppState
gate live draws app = (ok tt, app)
gate ready draws app = (ok tt, app)
gate (register _) draws app = (ok tt, app)
gate (login _) draws app = (ok tt, app)
gate (metrics header) draws app = require_admin_bearer header draws app
gate (create header _) draws app = require_bearer header draws app
gate (join header _ _) draws app = require_bearer header draws app
gate (resume header _ _) draws app = require_bearer header draws app
gate (room header _) draws app = require_bearer header draws app
gate (host header _ _) draws app = require_bearer header draws app
gate (beat header _ _) draws app = require_bearer header draws app
gate (play header _ _) draws app = require_bearer header draws app
gate (delete_host header _ _) draws app = require_bearer header draws app
gate (delete_peer header _ _) draws app = require_bearer header draws app
gate (delete_room header _) draws app = require_bearer header draws app

-- Everything but the limiter, the counters and the client sessions is the same.
pub record Spared (before after : AppState) : Type 0 where
  pub router : after.router ≡ before.router
  pub peer_keys : after.peer_keys ≡ before.peer_keys
  pub users : after.users ≡ before.users

require_bearer-Spared :
    (header : Option (List ℕ)) (draws : Draws) (app : AppState)
    → Spared app (require_bearer header draws app).1
unfolding require_bearer check_token within_rate
require_bearer-Spared header draws app = record {
  router = ground arith;
  peer_keys = ground arith;
  users = ground arith;
}

require_admin_bearer-Spared :
    (header : Option (List ℕ)) (draws : Draws) (app : AppState)
    → Spared app (require_admin_bearer header draws app).1
unfolding require_admin_bearer within_rate
require_admin_bearer-Spared header draws app = record {
  router = ground arith;
  peer_keys = ground arith;
  users = ground arith;
}

module _ (world : World) where
  -- Refused with the error, with nothing asked of what is outside
  pub record Refused (app : AppState) (outside : world.Outside) (e : ApiError)
      (result : Result ApiError Reply × Api world) : Type 0 where
    pub error : result.0 ≡ err e
    pub unasked : result.1.1 ≡ outside
    pub spared : Spared app result.1.0

  -- A handler that asks first and is refused goes no further.
  stopped :
      {A : Type 0} (step : AppState → Result ApiError (Unit {0}) × AppState)
      (rest : Unit {0} → Handler (Api world) A) (reply : A → Reply) (app : AppState)
      (outside : world.Outside) (e : ApiError)
      → (step app).0 ≡ err e
      → Spared app (step app).1
      → Refused app outside e (answer world (on_app world step >>= rest) reply (app, outside))
  unfolding answer on_app ◌>>=◌
  stopped step rest reply app outside e h spared = go (step app) h spared
    where
      go :
          (r : Result ApiError (Unit {0}) × AppState)
          → r.0 ≡ err e
          → Spared app r.1
          → Refused app outside e
              (continue (continue (r.0, (r.1, outside)) rest) (λ a. pure (reply a)))
      go (err e', app') h s = record { error = ground arith; unasked = refl; spared = s }
      go (ok u, app') h s = ground arith

  -- A request whose header its route's check refuses is answered with that check's error;
  -- nothing is asked of the database or of wg, and the router, the peers' keys and the accounts
  -- stay as they were. Only the health checks, registration and login ask for no header.
  pub serve-Refused :
      (request : Request) (draws : Draws) (app : AppState) (outside : world.Outside) (e : ApiError)
      → (gate request draws app).0 ≡ err e
      → Refused app outside e (serve world request draws (app, outside))
  unfolding serve create_room room_status delete_room_handler test_metrics join_room_handler
      resume_room delete_peer_handler register_host_handler heartbeat_handler
      create_gameplay_session delete_host_handler
  serve-Refused live draws app outside e h = ground arith
  serve-Refused ready draws app outside e h = ground arith
  serve-Refused (register _) draws app outside e h = ground arith
  serve-Refused (login _) draws app outside e h = ground arith
  serve-Refused (metrics header) draws app outside e h =
      stopped _ _ _ app outside e h (require_admin_bearer-Spared header draws app)
  serve-Refused (create header code) draws app outside e h =
      stopped _ _ _ app outside e h (require_bearer-Spared header draws app)
  serve-Refused (join header code payload) draws app outside e h =
      stopped _ _ _ app outside e h (require_bearer-Spared header draws app)
  serve-Refused (resume header code payload) draws app outside e h =
      stopped _ _ _ app outside e h (require_bearer-Spared header draws app)
  serve-Refused (room header code) draws app outside e h =
      stopped _ _ _ app outside e h (require_bearer-Spared header draws app)
  serve-Refused (host header code p) draws app outside e h =
      stopped _ _ _ app outside e h (require_bearer-Spared header draws app)
  serve-Refused (beat header code payload) draws app outside e h =
      stopped _ _ _ app outside e h (require_bearer-Spared header draws app)
  serve-Refused (play header code payload) draws app outside e h =
      stopped _ _ _ app outside e h (require_bearer-Spared header draws app)
  serve-Refused (delete_host header code id) draws app outside e h =
      stopped _ _ _ app outside e h (require_bearer-Spared header draws app)
  serve-Refused (delete_peer header code p) draws app outside e h =
      stopped _ _ _ app outside e h (require_bearer-Spared header draws app)
  serve-Refused (delete_room header code) draws app outside e h =
      stopped _ _ _ app outside e h (require_bearer-Spared header draws app)
