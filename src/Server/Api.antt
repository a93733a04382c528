-- ===== src/Server/Api.antt =====
-- server/src/api.rs: the control API's errors, its requests and its responses.
pub mod Handler
pub mod Access
pub mod Rooms
pub mod Peers
pub mod Sessions
pub mod Keeps
pub mod Ends
pub mod Quiet
pub mod Serve
pub mod Gate
pub mod Reaches
use civ6_lan_bridge.Prelude.{ℕ, Bool, Option, List}
use civ6_lan_bridge.Protocol.Ports.{RoomId, PeerId, HostSessionId, GameplaySessionId, VirtualIp}
use civ6_lan_bridge.Protocol.RoomCode.{RoomCode, RoomCodeError}
use civ6_lan_bridge.Router.State.{
  RouterError, room_not_found, duplicate_room_code, duplicate_room_id, room_not_empty,
  room_limit_reached, room_peer_limit_reached, peer_limit_reached, peer_already_in_room,
  peer_not_in_room, peer_not_found, virtual_ip_in_use, host_not_found, host_not_in_room,
  host_expired, host_limit_reached, peer_disconnected, peer_grace_expired, discovery_not_found,
  discovery_expired, discovery_request_conflict, gameplay_not_found, unauthorized_gameplay_peer,
  gameplay_limit_reached, invalid_discovery_port, invalid_gameplay_port, datagram_too_large,
}
use civ6_lan_bridge.Router.Rooms.{RoomSnapshot, HostSnapshot, GameplaySnapshot}
use civ6_lan_bridge.Server.WireGuard.{
  WireGuardError, invalid_public_key, command_failed, io_failed, invalid_output,
}

-- The texts of the errors, one constructor for each; `router_text` is `RouterError`'s `Display`.
pub data Message : Type 0 where
  router_text : RouterError → Message
  room_code_text : RoomCodeError → Message
  wireguard_text : WireGuardError → Message
  wireguard_failed : Message
  username_taken password_hash_invalid hashing_failed : Message
  bad_username bad_password : Message
  database_write_failed database_delete_failed : Message
  public_key_required public_key_missing : Message
  no_room no_peer : Message
  outside_subnet address_assigned pool_exhausted : Message
  peer_id_required : Message
  other_room_host other_room_peer : Message
  room_occupied : Message

pub data ApiError : Type 0 where
  unauthorized rate_limited : ApiError
  forbidden bad_request not_found conflict internal : Message → ApiError

-- The status of `status_and_code`
unfoldable pub status : ApiError → ℕ
status unauthorized = 401
status rate_limited = 429
status (forbidden _) = 403
status (bad_request _) = 400
status (not_found _) = 404
status (conflict _) = 409
status (internal _) = 500

-- `impl From<RouterError> for ApiError`
unfoldable pub from_router_error : RouterError → ApiError
from_router_error (room_not_found r) = not_found (router_text (room_not_found r))
from_router_error (peer_not_in_room p r) = not_found (router_text (peer_not_in_room p r))
from_router_error (peer_not_found p) = not_found (router_text (peer_not_found p))
from_router_error (host_not_found h) = not_found (router_text (host_not_found h))
from_router_error (discovery_not_found d) = not_found (router_text (discovery_not_found d))
from_router_error (gameplay_not_found g) = not_found (router_text (gameplay_not_found g))
from_router_error (host_not_in_room h r) = forbidden (router_text (host_not_in_room h r))
from_router_error (unauthorized_gameplay_peer p g) =
    forbidden (router_text (unauthorized_gameplay_peer p g))
from_router_error (host_expired h) = bad_request (router_text (host_expired h))
from_router_error (discovery_expired d) = bad_request (router_text (discovery_expired d))
from_router_error (invalid_discovery_port n) = bad_request (router_text (invalid_discovery_port n))
from_router_error (invalid_gameplay_port n) = bad_request (router_text (invalid_gameplay_port n))
from_router_error (datagram_too_large n) = bad_request (router_text (datagram_too_large n))
from_router_error (duplicate_room_code c) = conflict (router_text (duplicate_room_code c))
from_router_error (duplicate_room_id r) = conflict (router_text (duplicate_room_id r))
from_router_error (room_not_empty r) = conflict (router_text (room_not_empty r))
from_router_error (peer_already_in_room p) = conflict (router_text (peer_already_in_room p))
from_router_error (virtual_ip_in_use ip) = conflict (router_text (virtual_ip_in_use ip))
from_router_error room_limit_reached = conflict (router_text room_limit_reached)
from_router_error (room_peer_limit_reached r) = conflict (router_text (room_peer_limit_reached r))
from_router_error peer_limit_reached = conflict (router_text peer_limit_reached)
from_router_error (host_limit_reached r) = conflict (router_text (host_limit_reached r))
from_router_error (peer_disconnected p) = conflict (router_text (peer_disconnected p))
from_router_error (peer_grace_expired p) = conflict (router_text (peer_grace_expired p))
from_router_error gameplay_limit_reached = conflict (router_text gameplay_limit_reached)
from_router_error (discovery_request_conflict d) =
    conflict (router_text (discovery_request_conflict d))

-- `impl From<WireGuardError> for ApiError`
unfoldable pub from_wireguard_error : WireGuardError → ApiError
from_wireguard_error invalid_public_key = bad_request (wireguard_text invalid_public_key)
from_wireguard_error (command_failed _) = internal wireguard_failed
from_wireguard_error io_failed = internal wireguard_failed
from_wireguard_error invalid_output = internal wireguard_failed

pub record AuthRequest : Type 0 where
  pub username : List ℕ
  pub password : List ℕ

pub record AuthResponse : Type 0 where
  pub username : List ℕ
  pub access_token : List ℕ
  pub expires_in_seconds : ℕ

pub record JoinRoomRequest : Type 0 where
  pub peer_id : Option PeerId
  pub wireguard_public_key : Option (List ℕ)
  pub requested_virtual_ip : Option VirtualIp

pub record HeartbeatRequest : Type 0 where
  pub peer_id : PeerId
  pub host_session_id : HostSessionId

pub record CreateGameplayRequest : Type 0 where
  pub client_peer_id : PeerId
  pub host_session_id : HostSessionId

pub record RoomResponse : Type 0 where
  pub room_id : RoomId
  pub room_code : RoomCode
  pub member_count : ℕ
  pub host_count : ℕ

pub record PeerResponse : Type 0 where
  pub room_id : RoomId
  pub peer_id : PeerId
  pub virtual_ip : VirtualIp
  pub connection_epoch : ℕ

pub record HostResponse : Type 0 where
  pub room_id : RoomId
  pub host_session_id : HostSessionId
  pub peer_id : PeerId
  pub virtual_ip : VirtualIp
  pub expires_in_seconds : ℕ

pub record GameplayResponse : Type 0 where
  pub gameplay_session_id : GameplaySessionId
  pub room_id : RoomId
  pub client_peer_id : PeerId
  pub host_peer_id : PeerId
  pub client_virtual_ip : VirtualIp
  pub host_virtual_ip : VirtualIp

pub data HealthStatus : Type 0 where
  alive ready ready_in_memory : HealthStatus

pub record HealthResponse : Type 0 where
  pub status : HealthStatus
  pub database_configured : Bool

unfoldable pub room_response : RoomSnapshot → RoomResponse
room_response snapshot = record {
  room_id = snapshot.room_id;
  room_code = snapshot.code;
  member_count = snapshot.member_count;
  host_count = snapshot.host_count;
}

unfoldable pub host_response : HostSnapshot → ℕ → HostResponse
host_response snapshot expires_in_seconds = record {
  room_id = snapshot.room_id;
  host_session_id = snapshot.host_session_id;
  peer_id = snapshot.peer_id;
  virtual_ip = snapshot.virtual_ip;
  expires_in_seconds = expires_in_seconds;
}

unfoldable pub gameplay_response : GameplaySnapshot → GameplayResponse
gameplay_response snapshot = record {
  gameplay_session_id = snapshot.session_id;
  room_id = snapshot.room_id;
  client_peer_id = snapshot.client_peer_id;
  host_peer_id = snapshot.host_peer_id;
  client_virtual_ip = snapshot.client_virtual_ip;
  host_virtual_ip = snapshot.host_virtual_ip;
}
