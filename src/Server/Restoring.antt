-- ===== src/Server/Restoring.antt =====
-- server/src/state.rs: `restore_wireguard_peers`.
use civ6_lan_bridge.Prelude.{ℕ, ◌+◌, Option, none, some, Result, ok, err, List, [], ◌∷◌, nat_key}
use civ6_lan_bridge.Prelude.HashMap
use civ6_lan_bridge.Protocol.Ports.{PeerId, VirtualIp}
use civ6_lan_bridge.Router.State.{RoomRouter}
use civ6_lan_bridge.Router.Rooms.{peer_virtual_ip}
use civ6_lan_bridge.Server.WireGuard.{
  WireGuardManager, WireGuardError, add_peer_args, validate_public_key,
}
use civ6_lan_bridge.Server.State.{AppState}
use civ6_lan_bridge.Server.Api.Handler.{World}

module _ (world : World) where
  abbrev run_checked :
      Result WireGuardError (Unit {0})
      → List (List ℕ)
      → world.Outside
      → Result WireGuardError (Unit {0}) × world.Outside
  run_checked (err e) args outside = (err e, outside)
  run_checked (ok _) args outside = world.run_wg args outside

  -- `WireGuardManager::add_peer`
  unfoldable pub add_peer :
      WireGuardManager
      → List ℕ
      → VirtualIp
      → world.Outside
      → Result WireGuardError (Unit {0}) × world.Outside
  add_peer manager public_key virtual_ip outside =
      run_checked (validate_public_key (world.decode_base64 public_key))
        (add_peer_args manager public_key virtual_ip) outside

  abbrev and_count :
      (ℕ → world.Outside → Result WireGuardError ℕ × world.Outside)
      → ℕ
      → Result WireGuardError (Unit {0}) × world.Outside
      → Result WireGuardError ℕ × world.Outside
  and_count next restored (err e, outside) = (err e, outside)
  and_count next restored (ok _, outside) = next (restored + 1) outside

  -- The loop over the keys, in the order of the map
  unfoldable pub restore_keys :
      RoomRouter
      → WireGuardManager
      → List (PeerId × List ℕ)
      → ℕ
      → world.Outside
      → Result WireGuardError ℕ × world.Outside
  restore_keys s manager [] restored outside = (ok restored, outside)
  restore_keys s manager ((peer_id, public_key) ∷ keys) restored outside =
      elim (peer_virtual_ip s peer_id) [
        | none ↦ restore_keys s manager keys restored outside
        | some virtual_ip ↦
            and_count (λ n o. restore_keys s manager keys n o) restored
              (add_peer manager public_key virtual_ip outside)
      ]

  abbrev with_manager :
      AppState → Option WireGuardManager → world.Outside → Result WireGuardError ℕ × world.Outside
  with_manager app none outside = (ok 0, outside)
  with_manager app (some manager) outside =
      restore_keys app.router manager (HashMap.to_list app.peer_keys) 0 outside

  unfoldable pub restore_wireguard_peers :
      AppState → world.Outside → Result WireGuardError ℕ × world.Outside
  restore_wireguard_peers app outside = with_manager app app.wireguard outside
