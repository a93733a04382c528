-- ===== src/Tests/Apis.antt =====
-- The theorems on the control API at the room of the tests, with a database that refuses all.
use civ6_lan_bridge.Prelude.{
  ℕ, ◌≡◌, ◌↔◌, refl, arith, true, false, ◌==◌, nat_key, list_key, none, some, Option, ok, err, List,
  [], ◌∷◌, ◌++◌, to_be_bytes, ℕ_discrete, list_discrete,
}
use civ6_lan_bridge.Prelude.HashMap
use civ6_lan_bridge.Prelude.HashSet
use civ6_lan_bridge.Protocol.RoomCode.{parse, in_alphabet}
use civ6_lan_bridge.Router.State.{new, default_config}
use civ6_lan_bridge.Router.Rooms.{
  create_room_with_id, room_id_for_code, is_virtual_ip_available, peer_connection_epoch,
}
use civ6_lan_bridge.Router.Peers.{join_room, leave_room}
use civ6_lan_bridge.Router.Invariant.Reachable.{Step, leaves}
use civ6_lan_bridge.Router.Directory.{Change, directory}
use civ6_lan_bridge.Router.Directory.Refinement.{event, Reachable-Change}
use civ6_lan_bridge.Server.WireGuard.{validate_public_key}
use civ6_lan_bridge.Server.Metrics.{default_metrics}
use civ6_lan_bridge.Server.RateLimiter.{new_limiter, allow, open_window}
use civ6_lan_bridge.Server.State.{AppState, client_session_ttl, allocate_virtual_ip, find_available}
use civ6_lan_bridge.Server.Api.{
  from_wireguard_error, AuthRequest, AuthResponse, JoinRoomRequest, internal, database_write_failed,
  unauthorized,
}
use civ6_lan_bridge.Server.Api.Handler.{
  World, Draws, Api, ◌>>=◌, pure, give, or_undo, either_way, on_app, on_router, ask_app, ask_router,
  in_database, find_room, parse_code,
}
use civ6_lan_bridge.Server.Api.Access.{
  bearer_prefix, login_prefix, strip_prefix, within_rate, check_token, require_bearer,
  register_user, login_user, validate_username, validate_password, skip_while, reverse_onto, trim,
  any_of, hash_password, add_user, create_client_session,
}
use civ6_lan_bridge.Server.Api.Access.Tokens.{Admitted, require_bearer_iff}
use civ6_lan_bridge.Server.Api.Access.Accounts.{
  register_user-login_user, register_user-require_bearer,
}
use civ6_lan_bridge.Server.Api.Peers.{
  join_room_handler, enter_room, register_peer, choose_ip, check_key, at_interface,
  add_to_wireguard, store_peer, remember_key,
}
use civ6_lan_bridge.Server.Api.Peers.Rollback.{Undone, join_room_rolls_back}
use civ6_lan_bridge.Server.Api.Serve.{Request, delete_peer, serve}
use civ6_lan_bridge.Server.Api.Gate.{gate, Refused, serve-Refused}
use civ6_lan_bridge.Tests.{code, one_room, one_room-Reachable, asking, asking-Reachable}

abbrev key_bytes : List ℕ
key_bytes = to_be_bytes 32 0

own_hash :
    (password hash : List ℕ) → some password ≡ some hash → some (hash == password) ≡ some true
own_hash password hash h = ground arith

-- A password is its own hash.
abbrev world : World
world = record {
  Outside = Unit;
  execute = λ statement outside. (false, outside);
  run_wg = λ args outside. (ok tt, outside);
  decode_base64 = λ text. some key_bytes;
  hash_password = λ password salt. some password;
  verify_password = λ hash password. some (hash == password);
  to_lowercase = λ text. text;
  is_whitespace = λ c. c == 32;
  is_control = λ c. false;
  verify-hash = λ password salt hash h. own_hash password hash h;
}

abbrev app : AppState
app = record {
  router = one_room;
  bearer_token = b'T' ∷ [];
  database = true;
  wireguard = none;
  peer_keys = HashMap.new;
  users = HashMap.new;
  client_sessions = HashMap.new;
  metrics = default_metrics 0;
  api_rate_limiter = new_limiter 120 1;
  udp_rate_limiter = new_limiter 2000 1;
  virtual_ip_prefix = record { first = 10; second = 240; third = 0 };
}

abbrev draws : Draws
draws = record {
  arrival = 2;
  session_now = 2;
  now = 2;
  room_code = code;
  room_id = 8;
  peer_id = 3;
  host_session_id = 50;
  gameplay_session_id = 90;
  access_token = b'S' ∷ [];
  salt = [];
}

abbrev header : Option (List ℕ)
header = some (bearer_prefix ++ (b'T' ∷ []))

abbrev payload : JoinRoomRequest
payload = record { peer_id = none; wireguard_public_key = some []; requested_virtual_ip = none }

join_fails :
    (join_room_handler world header code payload draws (app, tt)).0
    ≡ err (internal database_write_failed)
unfolding new create_room_with_id room_id_for_code is_virtual_ip_available peer_connection_epoch
    join_room leave_room HashMap.get HashMap.lookup HashMap.insert HashMap.without HashMap.modify
    HashMap.new HashMap.len HashMap.retain HashMap.filter ℕ_discrete list_discrete HashSet.new
    HashSet.insert HashSet.contains validate_public_key default_metrics new_limiter allow
    open_window allocate_virtual_ip find_available ◌>>=◌ pure give or_undo either_way on_app
    on_router ask_app ask_router in_database find_room parse_code parse strip_prefix within_rate
    check_token require_bearer join_room_handler enter_room register_peer choose_ip check_key
    at_interface add_to_wireguard store_peer remember_key to_be_bytes in_alphabet
    from_wireguard_error
join_fails = refl

join_room_rolls_back_example :
    Undone one_room (join_room_handler world header code payload draws (app, tt)).1.0.router
join_room_rolls_back_example =
    join_room_rolls_back world default_config header code payload draws (app, tt)
      (internal database_write_failed) one_room-Reachable join_fails

-- Peer 2 is to be taken out of the room, without a header.
abbrev unauthorized_request : Request
unauthorized_request = delete_peer none code 2

no_token : (gate unauthorized_request draws app).0 ≡ err unauthorized
unfolding require_bearer
no_token = refl

serve-Refused_example :
    Refused world app tt unauthorized (serve world unauthorized_request draws (app, tt))
serve-Refused_example = serve-Refused world unauthorized_request draws app tt unauthorized no_token

-- The client leaves the room of the tests.
abbrev departure : Step asking (leave_room asking 7 1).1
departure = leaves 7 1

Reachable-Change_example :
    Change (event departure) (directory asking) (directory (leave_room asking 7 1).1)
Reachable-Change_example = Reachable-Change asking-Reachable departure

require_bearer_iff_example :
    ((require_bearer header draws app).0 ≡ ok tt)
    ↔ ((token : List ℕ) × (header ≡ some (bearer_prefix ++ token)) × Admitted app draws token)
require_bearer_iff_example = require_bearer_iff header draws app

abbrev account : AuthRequest
account = record {
  username = b'A' ∷ b'n' ∷ b'n' ∷ [];
  password = b's' ∷ b'e' ∷ b'c' ∷ b'r' ∷ b'e' ∷ b't' ∷ [];
}

abbrev granted : AuthResponse
granted = record {
  username = b'A' ∷ b'n' ∷ b'n' ∷ [];
  access_token = b'S' ∷ [];
  expires_in_seconds = client_session_ttl;
}

abbrev registered : Api world
registered = (register_user world account draws (app, tt)).1

registers_well : register_user world account draws (app, tt) ≡ (ok granted, registered)
unfolding register_user login_user validate_username validate_password skip_while reverse_onto trim
    any_of hash_password within_rate add_user create_client_session ◌>>=◌ give on_app
    default_metrics new_limiter allow open_window HashMap.get HashMap.lookup HashMap.insert
    HashMap.without HashMap.new HashMap.retain HashMap.filter ℕ_discrete list_discrete
registers_well = refl

abbrev again : Draws
again = record draws { arrival = 3; session_now = 3; access_token = b'U' ∷ [] }

login_allowed :
    (allow registered.0.api_rate_limiter (login_prefix ++ granted.username) again.arrival).0 ≡ true
unfolding register_user login_user validate_username validate_password skip_while reverse_onto trim
    any_of hash_password within_rate add_user create_client_session ◌>>=◌ give on_app
    default_metrics new_limiter allow open_window HashMap.get HashMap.lookup HashMap.insert
    HashMap.without HashMap.new HashMap.retain HashMap.filter ℕ_discrete list_discrete
login_allowed = refl

token_allowed : (allow registered.0.api_rate_limiter granted.access_token again.arrival).0 ≡ true
unfolding register_user login_user validate_username validate_password skip_while reverse_onto trim
    any_of hash_password within_rate add_user create_client_session ◌>>=◌ give on_app
    default_metrics new_limiter allow open_window HashMap.get HashMap.lookup HashMap.insert
    HashMap.without HashMap.new HashMap.retain HashMap.filter ℕ_discrete list_discrete
token_allowed = refl

register_user-login_user_example :
    (login_user world account again registered).0
    ≡ ok (record {
      username = granted.username;
      access_token = again.access_token;
      expires_in_seconds = client_session_ttl;
    })
register_user-login_user_example =
    register_user-login_user world account draws again (app, tt) registered registered granted
      registers_well refl login_allowed

register_user-require_bearer_example :
    (require_bearer (some (bearer_prefix ++ granted.access_token)) again registered.0).0 ≡ ok tt
register_user-require_bearer_example =
    register_user-require_bearer world account draws again (app, tt) registered registered.0 granted
      registers_well refl (omega arith) token_allowed
