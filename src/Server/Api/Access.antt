-- ===== src/Server/Api/Access.antt =====
-- server/src/api.rs: users, their sessions, and the bearer tokens of the requests.
pub mod Tokens
pub mod Accounts
use civ6_lan_bridge.Prelude.{
  ℕ, ◌+◌, Bool, true, false, not, ◌&&◌, ◌||◌, ◌==◌, ltb, leb, nat_key, list_key, if◌then◌else◌,
  length, Option, none, some, List, [], ◌∷◌, ◌++◌, Result, ok, err,
}
use civ6_lan_bridge.Prelude.HashMap
use civ6_lan_bridge.Router.State.{Instant}
use civ6_lan_bridge.Server.Metrics.{record_authentication_failure}
use civ6_lan_bridge.Server.RateLimiter.{allow}
use civ6_lan_bridge.Server.State.{AppState, UserAccount, ClientSession, client_session_ttl}
use civ6_lan_bridge.Server.Api.{
  ApiError, unauthorized, rate_limited, bad_request, conflict, internal, username_taken,
  password_hash_invalid, hashing_failed, bad_username, bad_password, AuthRequest, AuthResponse,
}
use civ6_lan_bridge.Server.Api.Handler.{World, Draws, Handler, ◌>>=◌, ◌>>◌, pure, give, Api, on_app}

abbrev pub bearer_prefix : List ℕ
bearer_prefix = b'B' ∷ b'e' ∷ b'a' ∷ b'r' ∷ b'e' ∷ b'r' ∷ b' ' ∷ []

-- `str::strip_prefix`
unfoldable pub strip_prefix : List ℕ → List ℕ → Option (List ℕ)
strip_prefix [] text = some text
strip_prefix (p ∷ prefix) [] = none
strip_prefix (p ∷ prefix) (c ∷ text) =
    let rest = strip_prefix prefix text in if p == c then rest else none

abbrev pub failed_login : AppState → AppState
failed_login app = record app { metrics = record_authentication_failure app.metrics }

-- `allow(key).then_some(()).ok_or(RateLimited)`
unfoldable pub within_rate : List ℕ → Instant → AppState → Result ApiError (Unit {0}) × AppState
within_rate key arrival app =
    let (allowed, limiter) = allow app.api_rate_limiter key arrival in
    (if allowed then ok tt else err rate_limited, record app { api_rate_limiter = limiter })

-- The sessions that have not ended
abbrev pub drop_ended : Instant → AppState → AppState
drop_ended now app = record app {
  client_sessions =
      HashMap.retain app.client_sessions
        (λ _ (session : ClientSession). ltb now session.expires_at);
}

-- `require_bearer` from the token on
unfoldable pub check_token : List ℕ → Draws → AppState → Result ApiError (Unit {0}) × AppState
check_token token draws app =
    if token == app.bearer_token
    then within_rate token draws.arrival app
    else let kept = drop_ended draws.session_now app in
      if HashMap.contains_key kept.client_sessions token
      then within_rate token draws.arrival kept
      else (err unauthorized, failed_login kept)

-- The header is the text of `Authorization`, if it has one.
abbrev pub token_of : Option (List ℕ) → Option (List ℕ)
token_of none = none
token_of (some header) = strip_prefix bearer_prefix header

unfoldable pub require_bearer :
    Option (List ℕ) → Draws → AppState → Result ApiError (Unit {0}) × AppState
require_bearer header draws app = elim (token_of header) [
  | none ↦ (err unauthorized, failed_login app)
  | some token ↦ check_token token draws app
]

unfoldable pub require_admin_bearer :
    Option (List ℕ) → Draws → AppState → Result ApiError (Unit {0}) × AppState
require_admin_bearer none draws app = (err unauthorized, failed_login app)
require_admin_bearer (some provided) draws app =
    if provided == bearer_prefix ++ app.bearer_token
    then within_rate provided draws.arrival app
    else (err unauthorized, failed_login app)

unfoldable pub skip_while : (ℕ → Bool) → List ℕ → List ℕ
skip_while test [] = []
skip_while test (c ∷ text) = let rest = skip_while test text in if test c then rest else c ∷ text

unfoldable pub reverse_onto : List ℕ → List ℕ → List ℕ
reverse_onto done [] = done
reverse_onto done (c ∷ text) = reverse_onto (c ∷ done) text

-- `str::trim`
unfoldable pub trim : (ℕ → Bool) → List ℕ → List ℕ
trim blank text =
    let front = skip_while blank text in reverse_onto [] (skip_while blank (reverse_onto [] front))

unfoldable pub any_of : (ℕ → Bool) → List ℕ → Bool
any_of test [] = false
any_of test (c ∷ text) = test c || any_of test text

unfoldable pub validate_password : List ℕ → Result ApiError (Unit {0})
validate_password value =
    if not (leb 6 (length value) && leb (length value) 128)
    then err (bad_request bad_password)
    else ok tt

abbrev pub register_prefix : List ℕ
register_prefix = b'r' ∷ b'e' ∷ b'g' ∷ b'i' ∷ b's' ∷ b't' ∷ b'e' ∷ b'r' ∷ b':' ∷ []

abbrev pub login_prefix : List ℕ
login_prefix = b'l' ∷ b'o' ∷ b'g' ∷ b'i' ∷ b'n' ∷ b':' ∷ []

-- The user is stored, if the name is free.
unfoldable pub add_user : List ℕ → List ℕ → AppState → Result ApiError (Unit {0}) × AppState
add_user username password_hash app =
    if HashMap.contains_key app.users username then (err (conflict username_taken), app) else (
      ok tt,
      record app {
        users = HashMap.insert app.users username (record { password_hash = password_hash });
      },
    )

unfoldable pub create_client_session :
    List ℕ → Draws → AppState → Result ApiError AuthResponse × AppState
create_client_session username draws app = (
  ok (record {
    username = username;
    access_token = draws.access_token;
    expires_in_seconds = client_session_ttl;
  }),
  record app {
    client_sessions =
        HashMap.insert app.client_sessions draws.access_token
          (record { expires_at = draws.session_now + client_session_ttl });
  },
)

-- `password_hash` of the user, cloned
abbrev pub hash_of : Option UserAccount → Result ApiError (List ℕ)
hash_of none = err unauthorized
hash_of (some account) = ok account.password_hash

unfoldable pub stored_hash : List ℕ → AppState → Result ApiError (List ℕ) × AppState
stored_hash username app = (hash_of (HashMap.get app.users username), app)

module _ (world : World) where
  unfoldable pub validate_username : List ℕ → Result ApiError (List ℕ)
  validate_username value =
      let username = world.to_lowercase (trim world.is_whitespace value) in
      if not (leb 2 (length username) && leb (length username) 24)
        || any_of (λ c. world.is_control c || world.is_whitespace c) username
      then err (bad_request bad_username)
      else ok username

  -- The salt is drawn, and always of a length that the crate takes.
  unfoldable pub hash_password : List ℕ → Draws → Result ApiError (List ℕ)
  hash_password password draws = elim (world.hash_password password draws.salt) [
    | none ↦ err (internal hashing_failed)
    | some hash ↦ ok hash
  ]

  -- A stored text that is no hash is the server's fault; another password is the client's.
  abbrev pub verified : Option Bool → Result ApiError (Unit {0})
  verified none = err (internal password_hash_invalid)
  verified (some true) = ok tt
  verified (some false) = err unauthorized

  unfoldable pub verify : List ℕ → List ℕ → Result ApiError (Unit {0})
  verify hash password = verified (world.verify_password hash password)

  unfoldable pub register_user : AuthRequest → Draws → Handler (Api world) AuthResponse
  register_user payload draws = do
    username ← give (validate_username payload.username)
    give (validate_password payload.password)
    on_app world (within_rate (register_prefix ++ username) draws.arrival)
    password_hash ← give (hash_password payload.password draws)
    on_app world (add_user username password_hash)
    on_app world (create_client_session username draws)

  unfoldable pub login_user : AuthRequest → Draws → Handler (Api world) AuthResponse
  login_user payload draws = do
    username ← give (validate_username payload.username)
    on_app world (within_rate (login_prefix ++ username) draws.arrival)
    password_hash ← on_app world (stored_hash username)
    give (verify password_hash payload.password)
    on_app world (create_client_session username draws)
