-- ===== src/Client/Control.antt =====
-- crates/client-core/src/lib.rs: `ControlClient`.
use Prim.Native.String.{String}
use Prim.Native.Char.{code}
use civ6_lan_bridge.Prelude.{
  ℕ, Bool, true, false, ◌&&◌, leb, ltb, Option, none, some, List, [], ◌∷◌, ◌++◌, Result, ok, err,
}
use civ6_lan_bridge.Protocol.Ports.{PeerId, HostSessionId, VirtualIp}
use civ6_lan_bridge.Protocol.RoomCode.{RoomCode}
use civ6_lan_bridge.Server.Metrics.Snapshot.{RelayMetricsSnapshot}
use civ6_lan_bridge.Server.Api.{
  AuthResponse, RoomResponse, PeerResponse, HostResponse, GameplayResponse, HealthResponse,
}
use civ6_lan_bridge.Client.{ClientError, http, http_status, ClientConfig, normalize_control_url}

-- The code points of a text
unfoldable pub chars : String → List ℕ
chars String.[] = []
chars (String.◌∷◌ c s) = code c ∷ chars s

pub data Method : Type 0 where
  get_method post_method delete_method : Method

-- The bodies of the requests, each of which `serde_json` writes; `unit_body` is that of `&()`.
pub data Body : Type 0 where
  unit_body : Body
  credentials : List ℕ → List ℕ → Body
  new_room : Option RoomCode → Body
  joining : Option PeerId → Option (List ℕ) → Option VirtualIp → Body
  resuming : PeerId → Body
  hosting : PeerId → Body
  beating : PeerId → HostSessionId → Body
  playing : PeerId → HostSessionId → Body

pub record HttpRequest : Type 0 where
  pub method : Method
  pub url : List ℕ
  pub bearer : List ℕ
  -- none without a body, as `request_empty` sends it
  pub json : Option Body

pub record HttpResponse : Type 0 where
  pub response_status : ℕ
  pub content : List ℕ

-- What the client uses of `reqwest`, `serde_json` and `uuid`: an exchange, none if it fails, the
-- readers of the bodies, and the text of an identifier.
pub record Http : Type 1 where
  pub Web : Type 0
  pub perform : HttpRequest → Web → Option HttpResponse × Web
  pub read_health : List ℕ → Option HealthResponse
  pub read_auth : List ℕ → Option AuthResponse
  pub read_room : List ℕ → Option RoomResponse
  pub read_peer : List ℕ → Option PeerResponse
  pub read_host : List ℕ → Option HostResponse
  pub read_gameplay : List ℕ → Option GameplayResponse
  pub read_metrics : List ℕ → Option RelayMetricsSnapshot
  -- the `message` of an `ApiErrorResponse`
  pub read_message : List ℕ → Option (List ℕ)
  pub id_text : ℕ → List ℕ

-- `StatusCode::is_success`
unfoldable pub is_success : ℕ → Bool
is_success code_of = leb 200 code_of && ltb code_of 300

-- `ControlClient::new`; the HTTP client is a parameter.
unfoldable pub new_client : ClientConfig → ClientConfig
new_client config = normalize_control_url config

module _ (web : Http) where
  abbrev pub Asked : Type 0 → Type 0
  Asked A = Result ClientError A × web.Web

  abbrev message_or : Option (List ℕ) → List ℕ
  message_or (some message) = message
  message_or none = chars "control request failed"

  abbrev parsed : {A : Type 0} → Option A → Result ClientError A
  parsed (some a) = ok a
  parsed none = err http

  unfoldable pub read_reply :
      {A : Type 0} → (List ℕ → Option A) → HttpResponse → Result ClientError A
  read_reply read response = elim (is_success response.response_status) [
    | true ↦ parsed (read response.content)
    | false ↦
        err (http_status response.response_status (message_or (web.read_message response.content)))
  ]

  abbrev answered_with :
      {A : Type 0} → (HttpResponse → Result ClientError A) → Option HttpResponse × web.Web → Asked A
  answered_with read (none, w) = (err http, w)
  answered_with read (some response, w) = (read response, w)

  unfoldable pub request :
      {A : Type 0} → ClientConfig → Method → List ℕ → Body → (List ℕ → Option A) → web.Web → Asked A
  request config method path body read w = answered_with (read_reply read) (
      web.perform
        (record {
          method = method;
          url = config.control_url ++ path;
          bearer = config.bearer_token;
          json = some body;
        })
        w)

  unfoldable pub request_empty : ClientConfig → Method → List ℕ → web.Web → Asked (Unit {0})
  request_empty config method path w = answered_with (read_reply (λ content. some tt)) (
      web.perform
        (record {
          method = method;
          url = config.control_url ++ path;
          bearer = config.bearer_token;
          json = none;
        })
        w)

  -- `/v1/rooms/{room_code}` and what follows it
  abbrev room_path : RoomCode → List ℕ → List ℕ
  room_path room_code rest = chars "/v1/rooms/" ++ (room_code ++ rest)

  unfoldable pub health_live : ClientConfig → web.Web → Asked HealthResponse
  health_live config w =
      request config get_method (chars "/health/live") unit_body web.read_health w

  unfoldable pub register_user : ClientConfig → List ℕ → List ℕ → web.Web → Asked AuthResponse
  register_user config username password w =
      request config post_method (chars "/v1/auth/register") (credentials username password)
        web.read_auth w

  unfoldable pub login_user : ClientConfig → List ℕ → List ℕ → web.Web → Asked AuthResponse
  login_user config username password w =
      request config post_method (chars "/v1/auth/login") (credentials username password)
        web.read_auth w

  unfoldable pub create_room : ClientConfig → Option RoomCode → web.Web → Asked RoomResponse
  create_room config room_code w =
      request config post_method (chars "/v1/rooms") (new_room room_code) web.read_room w

  unfoldable pub join_room_with_virtual_ip :
      ClientConfig
      → RoomCode
      → Option PeerId
      → Option (List ℕ)
      → Option VirtualIp
      → web.Web
      → Asked PeerResponse
  join_room_with_virtual_ip config room_code peer_id wireguard_public_key requested_virtual_ip w =
      request config post_method (room_path room_code (chars "/join"))
        (joining peer_id wireguard_public_key requested_virtual_ip) web.read_peer w

  unfoldable pub join_room :
      ClientConfig → RoomCode → Option PeerId → Option (List ℕ) → web.Web → Asked PeerResponse
  join_room config room_code peer_id wireguard_public_key w =
      join_room_with_virtual_ip config room_code peer_id wireguard_public_key none w

  unfoldable pub resume_room : ClientConfig → RoomCode → PeerId → web.Web → Asked PeerResponse
  resume_room config room_code peer_id w =
      request config post_method (room_path room_code (chars "/resume")) (resuming peer_id)
        web.read_peer w

  unfoldable pub register_host : ClientConfig → RoomCode → PeerId → web.Web → Asked HostResponse
  register_host config room_code peer_id w =
      request config post_method (room_path room_code (chars "/hosts")) (hosting peer_id)
        web.read_host w

  unfoldable pub heartbeat_host :
      ClientConfig → RoomCode → PeerId → HostSessionId → web.Web → Asked HostResponse
  heartbeat_host config room_code peer_id host_session_id w =
      request config post_method (room_path room_code (chars "/heartbeat"))
        (beating peer_id host_session_id) web.read_host w

  unfoldable pub create_gameplay_session :
      ClientConfig → RoomCode → PeerId → HostSessionId → web.Web → Asked GameplayResponse
  create_gameplay_session config room_code client_peer_id host_session_id w =
      request config post_method (room_path room_code (chars "/gameplay-sessions"))
        (playing client_peer_id host_session_id) web.read_gameplay w

  unfoldable pub room_status : ClientConfig → RoomCode → web.Web → Asked RoomResponse
  room_status config room_code w =
      request config get_method (room_path room_code (chars "/status")) unit_body web.read_room w

  unfoldable pub relay_metrics : ClientConfig → web.Web → Asked RelayMetricsSnapshot
  relay_metrics config w =
      request config get_method (chars "/v1/test/metrics") unit_body web.read_metrics w

  unfoldable pub delete_host : ClientConfig → RoomCode → HostSessionId → web.Web → Asked (Unit {0})
  delete_host config room_code host_session_id w =
      request_empty config delete_method
        (room_path room_code (chars "/hosts/" ++ web.id_text host_session_id)) w

  unfoldable pub delete_peer : ClientConfig → RoomCode → PeerId → web.Web → Asked (Unit {0})
  delete_peer config room_code peer_id w =
      request_empty config delete_method
        (room_path room_code (chars "/peers/" ++ web.id_text peer_id)) w

  unfoldable pub delete_room : ClientConfig → RoomCode → web.Web → Asked (Unit {0})
  delete_room config room_code w = request_empty config delete_method (room_path room_code []) w
