-- ===== src/Server/Api/Serve.antt =====
-- server/src/api.rs: `build_router`, each route with its handler.
use civ6_lan_bridge.Prelude.{ℕ, list_key, nat_key, Option, List}
use civ6_lan_bridge.Protocol.Ports.{PeerId, HostSessionId}
use civ6_lan_bridge.Protocol.RoomCode.{RoomCode}
use civ6_lan_bridge.Server.Metrics.Snapshot.{RelayMetricsSnapshot}
use civ6_lan_bridge.Server.Api.{
  AuthRequest, AuthResponse, JoinRoomRequest, HeartbeatRequest, CreateGameplayRequest, RoomResponse,
  PeerResponse, HostResponse, GameplayResponse, HealthResponse,
}
use civ6_lan_bridge.Server.Api.Handler.{World, Draws, Handler, ◌>>=◌, pure, Api, ask_app}
use civ6_lan_bridge.Server.Api.Access.{register_user, login_user}
use civ6_lan_bridge.Server.Api.Rooms.{
  health_live, health_ready, create_room, room_status, delete_room_handler, test_metrics,
}
use civ6_lan_bridge.Server.Api.Peers.{join_room_handler, resume_room, delete_peer_handler}
use civ6_lan_bridge.Server.Api.Sessions.{
  register_host_handler, heartbeat_handler, create_gameplay_session, delete_host_handler,
}

-- The routes, with what a request of each carries: the text of its `Authorization` header, the
-- parts of its path, and its body.
pub data Request : Type 0 where
  live : Request
  ready : Request
  register : AuthRequest → Request
  login : AuthRequest → Request
  metrics : Option (List ℕ) → Request
  create : Option (List ℕ) → Option RoomCode → Request
  join : Option (List ℕ) → List ℕ → JoinRoomRequest → Request
  resume : Option (List ℕ) → List ℕ → JoinRoomRequest → Request
  room : Option (List ℕ) → List ℕ → Request
  host : Option (List ℕ) → List ℕ → PeerId → Request
  beat : Option (List ℕ) → List ℕ → HeartbeatRequest → Request
  play : Option (List ℕ) → List ℕ → CreateGameplayRequest → Request
  delete_host : Option (List ℕ) → List ℕ → HostSessionId → Request
  delete_peer : Option (List ℕ) → List ℕ → PeerId → Request
  delete_room : Option (List ℕ) → List ℕ → Request

pub data Reply : Type 0 where
  about_health : HealthResponse → Reply
  signed_in : AuthResponse → Reply
  counters : RelayMetricsSnapshot → Reply
  about_room : RoomResponse → Reply
  about_peer : PeerResponse → Reply
  about_host : HostResponse → Reply
  about_gameplay : GameplayResponse → Reply
  no_content : Reply

module _ (world : World) where
  unfoldable pub answer :
      {A : Type 0} → Handler (Api world) A → (A → Reply) → Handler (Api world) Reply
  answer handler reply = handler >>= λ a. pure (reply a)

  -- `build_router`: each route and its handler
  unfoldable pub serve : Request → Draws → Handler (Api world) Reply
  serve live draws = answer (ask_app world health_live) about_health
  serve ready draws = answer (ask_app world health_ready) about_health
  serve (register payload) draws = answer (register_user world payload draws) signed_in
  serve (login payload) draws = answer (login_user world payload draws) signed_in
  serve (metrics header) draws = answer (test_metrics world header draws) counters
  serve (create header code) draws = answer (create_room world header code draws) about_room
  serve (join header code payload) draws =
      answer (join_room_handler world header code payload draws) about_peer
  serve (resume header code payload) draws =
      answer (resume_room world header code payload draws) about_peer
  serve (room header code) draws = answer (room_status world header code draws) about_room
  serve (host header code peer_id) draws =
      answer (register_host_handler world header code peer_id draws) about_host
  serve (beat header code payload) draws =
      answer (heartbeat_handler world header code payload draws) about_host
  serve (play header code payload) draws =
      answer (create_gameplay_session world header code payload draws) about_gameplay
  serve (delete_host header code id) draws =
      answer (delete_host_handler world header code id draws) (λ _. no_content)
  serve (delete_peer header code id) draws =
      answer (delete_peer_handler world header code id draws) (λ _. no_content)
  serve (delete_room header code) draws =
      answer (delete_room_handler world header code draws) (λ _. no_content)
