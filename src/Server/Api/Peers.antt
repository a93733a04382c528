-- ===== src/Server/Api/Peers.antt =====
-- server/src/api.rs: the handlers on peers. What was done for a peer is undone when a later step
-- fails: in the router, at `wg` and in the database. A handler runs to its end without another's
-- steps in between.
pub mod Rollback
use civ6_lan_bridge.Prelude.{
  ℕ, ◌/◌, ◌%◌, Bool, true, false, not, ◌&&◌, ◌||◌, ◌==◌, ltb, leb, nat_key, if◌then◌else◌, is_some,
  Option, none, some, List, Result, ok, err,
}
use civ6_lan_bridge.Prelude.HashMap
use civ6_lan_bridge.Protocol.Ports.{RoomId, PeerId, VirtualIp}
use civ6_lan_bridge.Protocol.RoomCode.{RoomCode}
use civ6_lan_bridge.Router.State.{RoomRouter}
use civ6_lan_bridge.Router.Rooms.{
  is_virtual_ip_available, peer_connection_epoch, room_for_peer, peer_virtual_ip,
}
use civ6_lan_bridge.Router.Peers.{join_room, leave_room, resume_peer}
use civ6_lan_bridge.Server.WireGuard.{
  WireGuardManager, WireGuardError, add_peer_args, remove_peer_args, validate_public_key,
}
use civ6_lan_bridge.Server.State.{AppState, Prefix, allocate_virtual_ip}
use civ6_lan_bridge.Server.Api.{
  ApiError, bad_request, not_found, conflict, forbidden, internal, public_key_required,
  public_key_missing, no_peer, outside_subnet, address_assigned, pool_exhausted, peer_id_required,
  other_room_peer, database_write_failed, database_delete_failed, from_wireguard_error,
  JoinRoomRequest, PeerResponse,
}
use civ6_lan_bridge.Server.Api.Handler.{
  World, Draws, Handler, ◌>>=◌, ◌>>◌, pure, give, ensure, or_undo, either_way, of_router, Api,
  on_app, on_router, ask_router, ask_app, in_database, insert_peer, delete_peer, find_room,
  parse_code,
}
use civ6_lan_bridge.Server.Api.Access.{require_bearer}

-- The first three octets are the prefix's, and the last is at least 2.
unfoldable pub in_subnet : Prefix → VirtualIp → Bool
in_subnet prefix ip =
    (ip / 16777216 % 256 == prefix.first
      && (ip / 65536 % 256 == prefix.second && ip / 256 % 256 == prefix.third))
    && not (ltb (ip % 256) 2)

abbrev pub allocated : Option VirtualIp → Result ApiError VirtualIp
allocated none = err (conflict pool_exhausted)
allocated (some ip) = ok ip

-- The address that the peer is given: the one that it asks for, or the first that is free.
unfoldable pub choose_ip : Prefix → Option VirtualIp → RoomRouter → Result ApiError VirtualIp
choose_ip prefix none s = allocated (allocate_virtual_ip s prefix)
choose_ip prefix (some requested) s =
    if not (in_subnet prefix requested)
    then err (bad_request outside_subnet)
    else if not (is_virtual_ip_available s requested)
    then err (conflict address_assigned)
    else ok requested

abbrev pub id_or : PeerId → Option PeerId → PeerId
id_or fresh none = fresh
id_or fresh (some peer_id) = peer_id

abbrev pub id_required : Option PeerId → Result ApiError PeerId
id_required none = err (bad_request peer_id_required)
id_required (some peer_id) = ok peer_id

abbrev pub of_peer {ℓ} : {A : Type ℓ} → Option A → Result ApiError A
of_peer none = err (not_found no_peer)
of_peer (some a) = ok a

abbrev pub of_wireguard {ℓ} : {A : Type ℓ} → Result WireGuardError A → Result ApiError A
of_wireguard (ok a) = ok a
of_wireguard (err e) = err (from_wireguard_error e)

abbrev pub peer_response : RoomId → PeerId → VirtualIp → ℕ → PeerResponse
peer_response room_id peer_id virtual_ip connection_epoch = record {
  room_id = room_id;
  peer_id = peer_id;
  virtual_ip = virtual_ip;
  connection_epoch = connection_epoch;
}

-- Whether the server has a database or a WireGuard interface, for which a peer needs a key
abbrev pub needs_key : AppState → Bool
needs_key app = app.database || is_some app.wireguard

unfoldable pub remember_key : PeerId → Option (List ℕ) → AppState → AppState
remember_key peer_id none app = app
remember_key peer_id (some public_key) app = record app {
  peer_keys = HashMap.insert app.peer_keys peer_id public_key;
}

module _ (world : World) where
  unfoldable pub check_key : Option (List ℕ) → Result ApiError (Unit {0})
  check_key none = ok tt
  check_key (some public_key) = of_wireguard (validate_public_key (world.decode_base64 public_key))

  -- `WireGuardManager::add_peer` and `remove_peer`: the key is checked first, and `wg` is run.
  unfoldable pub checked_wg : List ℕ → List (List ℕ) → Handler (Api world) (Unit {0})
  checked_wg public_key args = do
    give (check_key (some public_key))
    λ (app, outside).
        let (result, outside') = world.run_wg args outside in (of_wireguard result, (app, outside'))

  -- Where there is an interface, and a key: both handlers have made sure of the key by then.
  unfoldable pub at_interface :
      (WireGuardManager → List ℕ → List (List ℕ))
      → Option WireGuardManager
      → Option (List ℕ)
      → Handler (Api world) (Unit {0})
  at_interface args none public_key = pure tt
  at_interface args (some manager) none = pure tt
  at_interface args (some manager) (some public_key) =
      checked_wg public_key (args manager public_key)

  unfoldable pub add_to_wireguard : Option (List ℕ) → VirtualIp → Handler (Api world) (Unit {0})
  add_to_wireguard public_key virtual_ip = do
    wireguard ← ask_app world (λ app. app.wireguard)
    at_interface (λ manager key. add_peer_args manager key virtual_ip) wireguard public_key

  unfoldable pub remove_from_wireguard : Option (List ℕ) → Handler (Api world) (Unit {0})
  remove_from_wireguard public_key = do
    wireguard ← ask_app world (λ app. app.wireguard)
    at_interface remove_peer_args wireguard public_key

  -- The row of a peer with a key
  unfoldable pub store_peer :
      RoomId → PeerId → VirtualIp → Option (List ℕ) → Handler (Api world) (Unit {0})
  store_peer room_id peer_id virtual_ip none = pure tt
  store_peer room_id peer_id virtual_ip (some public_key) =
      in_database world (insert_peer room_id peer_id virtual_ip public_key)
        (internal database_write_failed)

  -- The block of `join_room` under the router's lock
  unfoldable pub enter_room :
      RoomCode → PeerId → Option VirtualIp → Draws → Handler (Api world) (RoomId × VirtualIp × ℕ)
  enter_room room_code peer_id requested draws = do
    room_id ← ask_router world (find_room room_code)
    prefix ← ask_app world (λ app. app.virtual_ip_prefix)
    virtual_ip ← ask_router world (choose_ip prefix requested)
    on_router world (λ s. join_room s room_id peer_id virtual_ip draws.now)
    connection_epoch ← ask_router world (λ s. of_router (peer_connection_epoch s peer_id))
    pure (room_id, virtual_ip, connection_epoch)

  -- What `join_room` does of a peer that is in the room: at `wg`, in the database, in `peer_keys`.
  unfoldable pub register_peer :
      RoomId → PeerId → VirtualIp → Option (List ℕ) → Handler (Api world) (Unit {0})
  register_peer room_id peer_id virtual_ip public_key = do
    or_undo (add_to_wireguard public_key virtual_ip)
        (on_router world (λ s. leave_room s room_id peer_id))
    or_undo (store_peer room_id peer_id virtual_ip public_key) (
        either_way (remove_from_wireguard public_key)
          (on_router world (λ s. leave_room s room_id peer_id)))
    on_app world (λ app. (ok tt, remember_key peer_id public_key app))

  unfoldable pub join_room_handler :
      Option (List ℕ) → List ℕ → JoinRoomRequest → Draws → Handler (Api world) PeerResponse
  join_room_handler header code payload draws = do
    on_app world (require_bearer header draws)
    room_code ← give (parse_code code)
    key_needed ← ask_app world needs_key
    ensure (not key_needed || is_some payload.wireguard_public_key)
        (bad_request public_key_required)
    give (check_key payload.wireguard_public_key)
    (room_id, virtual_ip, connection_epoch) ←
        enter_room room_code (id_or draws.peer_id payload.peer_id) payload.requested_virtual_ip
          draws
    register_peer room_id (id_or draws.peer_id payload.peer_id) virtual_ip
        payload.wireguard_public_key
    pure (peer_response room_id (id_or draws.peer_id payload.peer_id) virtual_ip connection_epoch)

  unfoldable pub resume_room :
      Option (List ℕ) → List ℕ → JoinRoomRequest → Draws → Handler (Api world) PeerResponse
  resume_room header code payload draws = do
    on_app world (require_bearer header draws)
    room_code ← give (parse_code code)
    room_id ← ask_router world (find_room room_code)
    peer_id ← give (id_required payload.peer_id)
    snapshot ← on_router world (λ s. resume_peer s room_id peer_id draws.now)
    pure (
        peer_response snapshot.room_id snapshot.peer_id snapshot.virtual_ip
          snapshot.connection_epoch)

  -- The peer's room, which is to be the request's, and its address
  unfoldable pub placed_peer : RoomCode → PeerId → Handler (Api world) (RoomId × VirtualIp)
  placed_peer room_code peer_id = do
    room_id ← ask_router world (find_room room_code)
    peer_room_id ← ask_router world (λ s. of_peer (room_for_peer s peer_id))
    ensure (peer_room_id == room_id) (forbidden other_room_peer)
    virtual_ip ← ask_router world (λ s. of_peer (peer_virtual_ip s peer_id))
    pure (room_id, virtual_ip)

  unfoldable pub delete_peer_handler :
      Option (List ℕ) → List ℕ → PeerId → Draws → Handler (Api world) (Unit {0})
  delete_peer_handler header code peer_id draws = do
    on_app world (require_bearer header draws)
    room_code ← give (parse_code code)
    (room_id, virtual_ip) ← placed_peer room_code peer_id
    public_key ← ask_app world (λ app. HashMap.get app.peer_keys peer_id)
    key_needed ← ask_app world needs_key
    ensure (not key_needed || is_some public_key) (internal public_key_missing)
    remove_from_wireguard public_key
    or_undo (in_database world (delete_peer peer_id) (internal database_delete_failed))
        (add_to_wireguard public_key virtual_ip)
    or_undo (on_router world (λ s. leave_room s room_id peer_id)) (
        either_way (store_peer room_id peer_id virtual_ip public_key)
          (add_to_wireguard public_key virtual_ip))
    on_app world (λ app. (ok tt, record app { peer_keys = HashMap.remove app.peer_keys peer_id }))
