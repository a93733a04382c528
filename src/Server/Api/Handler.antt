-- ===== src/Server/Api/Handler.antt =====
-- server/src/api.rs: a handler is a program on the state that may fail; what a failed handler has
-- changed stays changed. Outside are the database, `wg`, and the crates for passwords and base64.
use civ6_lan_bridge.Prelude.{
  ℕ, ◌≡◌, Bool, true, false, if◌then◌else◌, Option, none, some, Result, ok, err, List,
}
use civ6_lan_bridge.Protocol.Ports.{RoomId, PeerId, HostSessionId, GameplaySessionId, VirtualIp}
use civ6_lan_bridge.Protocol.RoomCode.{RoomCode, parse}
use civ6_lan_bridge.Router.State.{Instant, Duration, RoomRouter, RouterError, Outcome}
use civ6_lan_bridge.Router.Rooms.{room_id_for_code}
use civ6_lan_bridge.Server.WireGuard.{WireGuardError}
use civ6_lan_bridge.Server.State.{AppState}
use civ6_lan_bridge.Server.Api.{
  ApiError, bad_request, not_found, no_room, room_code_text, from_router_error,
}

-- The statements that `Database` executes for the handlers
pub data Statement : Type 0 where
  insert_room : RoomId → RoomCode → Statement
  delete_room : RoomId → Statement
  insert_peer : RoomId → PeerId → VirtualIp → List ℕ → Statement
  delete_peer : PeerId → Statement
  upsert_host : RoomId → PeerId → HostSessionId → Duration → Statement
  heartbeat_host : RoomId → PeerId → HostSessionId → Duration → Statement
  delete_host : HostSessionId → Statement
  insert_gameplay : RoomId → PeerId → HostSessionId → GameplaySessionId → Duration → Statement

-- What the handlers use of the crates and programs outside: whether a statement succeeds and what
-- `wg` answers may depend on all that was asked before. A password verifies against its own hash.
pub record World : Type 1 where
  pub Outside : Type 0
  pub execute : Statement → Outside → Bool × Outside
  pub run_wg : List (List ℕ) → Outside → Result WireGuardError (Unit {0}) × Outside
  pub decode_base64 : List ℕ → Option (List ℕ)
  pub hash_password : List ℕ → List ℕ → Option (List ℕ)
  pub verify_password : List ℕ → List ℕ → Option Bool
  pub to_lowercase : List ℕ → List ℕ
  pub is_whitespace : ℕ → Bool
  pub is_control : ℕ → Bool
  pub verify-hash :
      (password salt hash : List ℕ)
      → hash_password password salt ≡ some hash
      → verify_password hash password ≡ some true

-- What one request reads of the clock and draws at random: the rate limiter's `Instant::now()`, the
-- one of the client sessions, the one of the handler, and the identifiers.
pub record Draws : Type 0 where
  pub arrival : Instant
  pub session_now : Instant
  pub now : Instant
  pub room_code : RoomCode
  pub room_id : RoomId
  pub peer_id : PeerId
  pub host_session_id : HostSessionId
  pub gameplay_session_id : GameplaySessionId
  pub access_token : List ℕ
  pub salt : List ℕ

abbrev pub Handler : Type 0 → Type 0 → Type 0
Handler S A = S → Result ApiError A × S

module _ {S : Type 0} where
  abbrev pub continue :
      {A B : Type 0} → Result ApiError A × S → (A → Handler S B) → Result ApiError B × S
  continue (err e, s) f = (err e, s)
  continue (ok a, s) f = f a s

  infixl 5 ◌>>=◌ ◌>>◌
  unfoldable pub ◌>>=◌ : {A B : Type 0} → Handler S A → (A → Handler S B) → Handler S B
  m >>= f = λ s. continue (m s) f

  abbrev pub ◌>>◌ : {A B : Type 0} → Handler S A → Handler S B → Handler S B
  m >> k = m >>= λ _. k

  unfoldable pub pure : {A : Type 0} → A → Handler S A
  pure a = λ s. (ok a, s)

  unfoldable pub give : {A : Type 0} → Result ApiError A → Handler S A
  give r = λ s. (r, s)

  abbrev pub fail : {A : Type 0} → ApiError → Handler S A
  fail e = give (err e)

  -- `if !test { return Err(error); }`
  abbrev pub ensure : Bool → ApiError → Handler S (Unit {0})
  ensure test error = give (if test then ok tt else err error)

  -- `if let Err(error) = step { cleanup; return Err(..) }`: what the cleanup gives is ignored.
  abbrev pub undo : {A B : Type 0} → Result ApiError A × S → Handler S B → Result ApiError A × S
  undo (ok a, s) cleanup = (ok a, s)
  undo (err e, s) cleanup = (err e, (cleanup s).1)

  unfoldable pub or_undo : {A B : Type 0} → Handler S A → Handler S B → Handler S A
  or_undo step cleanup = λ s. undo (step s) cleanup

  -- `let _ = step; rest`
  unfoldable pub either_way : {A B : Type 0} → Handler S A → Handler S B → Handler S B
  either_way step rest = λ s. rest (step s).1

abbrev pub of_router {ℓ} : {A : Type ℓ} → Result RouterError A → Result ApiError A
of_router (ok a) = ok a
of_router (err e) = err (from_router_error e)

module _ (world : World) where
  abbrev pub Api : Type 0
  Api = AppState × world.Outside

  -- A call of one of the router's methods, under its lock; `?` turns its error.
  unfoldable pub on_router : {A : Type 0} → (RoomRouter → Outcome A) → Handler Api A
  on_router method = λ (app, outside).
      let (result, router) = method app.router in
      (of_router result, (record app { router = router }, outside))

  -- Whatever touches neither the database nor `wg`.
  unfoldable pub on_app : {A : Type 0} → (AppState → Result ApiError A × AppState) → Handler Api A
  on_app step = λ (app, outside). let (result, app') = step app in (result, (app', outside))

  unfoldable pub ask_router : {A : Type 0} → (RoomRouter → Result ApiError A) → Handler Api A
  ask_router question = λ (app, outside). (question app.router, (app, outside))

  unfoldable pub ask_app : {A : Type 0} → (AppState → A) → Handler Api A
  ask_app question = λ (app, outside). (ok (question app), (app, outside))

  -- A statement of the database, if there is one; a failure is the given error.
  abbrev pub executed :
      ApiError → AppState → Bool × world.Outside → Result ApiError (Unit {0}) × Api
  executed error app (true, outside) = (ok tt, (app, outside))
  executed error app (false, outside) = (err error, (app, outside))

  unfoldable pub in_database : Statement → ApiError → Handler Api (Unit {0})
  in_database statement error = λ (app, outside).
      if app.database
      then executed error app (world.execute statement outside)
      else (ok tt, (app, outside))

-- `room_id_for_code(..).ok_or_else(..)`
abbrev pub room_of_code : Option RoomId → Result ApiError RoomId
room_of_code none = err (not_found no_room)
room_of_code (some room_id) = ok room_id

unfoldable pub find_room : RoomCode → RoomRouter → Result ApiError RoomId
find_room code s = room_of_code (room_id_for_code s code)

-- `parse_room_code(&code).map_err(ApiError::BadRequest)`
unfoldable pub parse_code : List ℕ → Result ApiError RoomCode
parse_code text = elim (parse text) [
  | ok code ↦ ok code
  | err e ↦ err (bad_request (room_code_text e))
]
