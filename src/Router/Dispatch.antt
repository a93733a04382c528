-- ===== src/Router/Dispatch.antt =====
-- crates/router/src/lib.rs: `dispatch`, the data plane's one entry.
use civ6_lan_bridge.Prelude.{
  ℕ, not, ◌==◌, nat_key, if◌then◌else◌, length, none, some, List, Result, ok, err, ok_or, ◌>>=◌,
  ◌>>◌,
}
use civ6_lan_bridge.Prelude.HashMap
use civ6_lan_bridge.Protocol.Ports.{
  PeerId, HostSessionId, DiscoveryRequestId, GameplaySessionId, VirtualIp, Civ6UdpPort,
  is_discovery_port, gameplay_port,
}
use civ6_lan_bridge.Router.State.{
  Instant, RoomRouter, Outcome, RouterError, peer_not_found, host_not_found, invalid_discovery_port,
  invalid_gameplay_port,
}
use civ6_lan_bridge.Router.Rooms.{room_for_peer, validate_payload}
use civ6_lan_bridge.Router.Discovery.{DiscoveryTarget, begin_discovery, route_discovery_response}
use civ6_lan_bridge.Router.Gameplay.{GameplayRoute, route_gameplay_datagram}

pub data RelayIngress : Type 0 where
  discovery : PeerId → DiscoveryRequestId → Civ6UdpPort → List ℕ → Instant → RelayIngress
  discovery_response :
      HostSessionId → DiscoveryRequestId → Civ6UdpPort → List ℕ → Instant → RelayIngress
  gameplay : GameplaySessionId → PeerId → Civ6UdpPort → List ℕ → Instant → RelayIngress

pub data RelayAction : Type 0 where
  discovery_fanout :
      DiscoveryRequestId → PeerId → Civ6UdpPort → List DiscoveryTarget → List ℕ → RelayAction
  discovery_unicast : DiscoveryRequestId → PeerId → VirtualIp → Civ6UdpPort → List ℕ → RelayAction
  gameplay_unicast : GameplayRoute → Civ6UdpPort → List ℕ → RelayAction

-- The `?` behind a call with `&mut self`.
abbrev pub then_do : {A B : Type 0} → Outcome A → (A → Result RouterError B) → Outcome B
then_do (result, s) f = (result >>= f, s)

unfoldable pub dispatch_discovery :
    RoomRouter → PeerId → DiscoveryRequestId → Civ6UdpPort → List ℕ → Instant → Outcome RelayAction
dispatch_discovery s source_peer_id request_id destination_port payload now =
    elim (validate_payload s (length payload)) [
      | err e ↦ (err e, s)
      | ok _ ↦ elim (room_for_peer s source_peer_id) [
        | none ↦ (err (peer_not_found source_peer_id), s)
        | some room_id ↦
            then_do (begin_discovery s room_id source_peer_id request_id destination_port now)
              λ targets.
                ok (discovery_fanout request_id source_peer_id destination_port targets payload)
      ]
    ]

-- `route_discovery_response` takes `&self`: nothing is changed.
unfoldable pub dispatch_response :
    RoomRouter
    → HostSessionId
    → DiscoveryRequestId
    → Civ6UdpPort
    → List ℕ
    → Instant
    → Result RouterError RelayAction
dispatch_response s host_session_id request_id source_port payload now = do
  validate_payload s (length payload)
  if not (is_discovery_port source_port) then err (invalid_discovery_port source_port) else do
    destination_peer_id ← route_discovery_response s request_id host_session_id now
    host ← ok_or (HashMap.get s.hosts host_session_id) (host_not_found host_session_id)
    ok (discovery_unicast request_id destination_peer_id host.virtual_ip source_port payload)

unfoldable pub dispatch_gameplay :
    RoomRouter → GameplaySessionId → PeerId → Civ6UdpPort → List ℕ → Instant → Outcome RelayAction
dispatch_gameplay s session_id source_peer_id source_port payload now =
    elim (validate_payload s (length payload)) [
      | err e ↦ (err e, s)
      | ok _ ↦
          if not (source_port == gameplay_port)
          then (err (invalid_gameplay_port source_port), s)
          else then_do (route_gameplay_datagram s session_id source_peer_id now)
              λ route. ok (gameplay_unicast route source_port payload)
    ]

unfoldable pub dispatch : RoomRouter → RelayIngress → Outcome RelayAction
dispatch s (discovery source_peer_id request_id destination_port payload now) =
    dispatch_discovery s source_peer_id request_id destination_port payload now
dispatch s (discovery_response host_session_id request_id source_port payload now) =
    (dispatch_response s host_session_id request_id source_port payload now, s)
dispatch s (gameplay session_id source_peer_id source_port payload now) =
    dispatch_gameplay s session_id source_peer_id source_port payload now
