-- ===== src/Server/Relay.antt =====
-- server/src/relay.rs: `RelayDispatcher` and one turn of `RelayServer::run`.
pub mod Isolation
pub mod Guards
pub mod Replays
pub mod Turn
use civ6_lan_bridge.Prelude.{
  ℕ, ◌+◌, Bool, true, false, not, ◌&&◌, ◌==◌, nat_key, if◌then◌else◌, length, map, Option, none,
  some, List, [], ◌∷◌, Result, ok, err, ok_or, ◌>>=◌, ◌>>◌,
}
use civ6_lan_bridge.Protocol.Ports.{PeerId, HostSessionId, DiscoveryRequestId, VirtualIp}
use civ6_lan_bridge.Protocol.Relay.{
  RelayMessage, discovery_request, discovery_to_host, discovery_response, discovery_to_client,
  gameplay_packet, gameplay_to_peer, relay_probe, relay_probe_ack, RelayEnvelopeMeta, RelayEnvelope,
  RelayCodecError,
}
use civ6_lan_bridge.Protocol.Relay.Codec.{UuidBytes, decode}
use civ6_lan_bridge.Router.State.{
  Instant, RoomRouter, RouterError, peer_disconnected, unauthorized_gameplay_peer,
  datagram_too_large,
}
use civ6_lan_bridge.Router.Rooms.{
  peer_for_virtual_ip, peer_connection_epoch, host_snapshot, peer_virtual_ip,
}
use civ6_lan_bridge.Router.Peers.{mark_peer_seen}
use civ6_lan_bridge.Router.Discovery.{DiscoveryTarget}
use civ6_lan_bridge.Router.Gameplay.{GameplayRoute}
use civ6_lan_bridge.Router.Dispatch.{
  RelayAction, discovery_fanout, discovery_unicast, gameplay_unicast, dispatch,
}
use civ6_lan_bridge.Router.Dispatch
use civ6_lan_bridge.Router.Expiry.{expire}
use civ6_lan_bridge.Server.Metrics.{
  SequenceDisposition, legacy, new_sequence, duplicate, reordered, record_sequence,
  record_rate_limited, record_probe, record_drop, record_oversized, record_received,
}
use civ6_lan_bridge.Server.RateLimiter.{allow}
use civ6_lan_bridge.Server.State.{AppState}

pub data IpAddr : Type 0 where
  v4 : VirtualIp → IpAddr
  v6 : ℕ → IpAddr

pub record SocketAddr : Type 0 where
  pub ip : IpAddr
  pub port : ℕ

pub record OutboundDatagram : Type 0 where
  pub destination : SocketAddr
  pub message : RelayMessage
  pub meta : RelayEnvelopeMeta

-- `InvalidPacket` has the one text that the server gives.
pub data RelayError : Type 0 where
  outbound_envelope : RelayError
  codec : RelayCodecError → RelayError
  invalid_source : SocketAddr → RelayError
  unknown_source : VirtualIp → RelayError
  stale_connection_epoch : (received current : ℕ) → RelayError
  rate_limited : RelayError
  duplicate_sequence : ℕ → RelayError
  source_peer_mismatch : HostSessionId → PeerId → RelayError
  router_error : RouterError → RelayError
  io : RelayError

-- What a call reads of the clocks: the `Instant::now()` of the metrics and the limiter, the handler's, and
-- `unix_time_ms()`.
pub record Clocks : Type 0 where
  pub arrival : Instant
  pub now : Instant
  pub unix_ms : ℕ

-- What the handler gives, and the state that it leaves behind, after an error too.
abbrev pub Handled : Type 0 → Type 0
Handled A = Result RelayError A × AppState

-- `?` on a router's result
abbrev pub lift {ℓ} : {A : Type ℓ} → Result RouterError A → Result RelayError A
lift (ok a) = ok a
lift (err e) = err (router_error e)

abbrev pub relay_destination : VirtualIp → ℕ → SocketAddr
relay_destination ip port = record { ip = v4 ip; port = port }

abbrev pub is_duplicate : SequenceDisposition → Bool
is_duplicate legacy = false
is_duplicate new_sequence = false
is_duplicate duplicate = true
is_duplicate reordered = false

-- The `match message` of `handle_datagram`.
unfoldable pub act :
    RoomRouter → PeerId → RelayMessage → Instant → Result RelayError RelayAction × RoomRouter
act s source (discovery_request request_id destination_port payload) now =
    let (result, t) =
      dispatch s (Dispatch.discovery source request_id destination_port payload now) in
    (lift result, t)
act s source (discovery_response request_id host_session_id source_port payload) now =
    elim (host_snapshot s host_session_id) [
      | err e ↦ (err (router_error e), s)
      | ok host ↦
          if not (host.peer_id == source)
          then (err (source_peer_mismatch host_session_id source), s)
          else let (result, t) =
              dispatch s
                (Dispatch.discovery_response host_session_id request_id source_port payload now) in
            (lift result, t)
    ]
act s source (gameplay_packet session_id source_port payload) now =
    let (result, t) = dispatch s (Dispatch.gameplay session_id source source_port payload now) in
    (lift result, t)
act s source (discovery_to_host _ _ _ _) now = (err outbound_envelope, s)
act s source (discovery_to_client _ _ _ _) now = (err outbound_envelope, s)
act s source (gameplay_to_peer _ _ _ _) now = (err outbound_envelope, s)
act s source (relay_probe _) now = (err outbound_envelope, s)
act s source (relay_probe_ack _) now = (err outbound_envelope, s)

-- The `.map(..)` of the fan-out.
abbrev pub to_host :
    RelayEnvelopeMeta
    → ℕ
    → DiscoveryRequestId
    → VirtualIp
    → ℕ
    → List ℕ
    → DiscoveryTarget
    → OutboundDatagram
to_host meta relay_port request_id source_virtual_ip destination_port payload target = record {
  destination = relay_destination target.host_virtual_ip relay_port;
  message = discovery_to_host request_id source_virtual_ip destination_port payload;
  meta = meta;
}

abbrev pub to_client :
    RelayEnvelopeMeta
    → ℕ
    → DiscoveryRequestId
    → VirtualIp
    → ℕ
    → List ℕ
    → VirtualIp
    → OutboundDatagram
to_client meta relay_port request_id host_virtual_ip source_port payload destination = record {
  destination = relay_destination destination relay_port;
  message = discovery_to_client request_id host_virtual_ip source_port payload;
  meta = meta;
}

abbrev pub to_peer :
    RelayEnvelopeMeta → ℕ → GameplayRoute → ℕ → List ℕ → VirtualIp → OutboundDatagram
to_peer meta relay_port route destination_port payload source_virtual_ip = record {
  destination = relay_destination route.destination_virtual_ip relay_port;
  message = gameplay_to_peer route.session_id source_virtual_ip destination_port payload;
  meta = meta;
}

-- `Ipv4Addr::UNSPECIFIED` is 0.
unfoldable pub action_to_datagrams :
    RoomRouter → ℕ → RelayAction → RelayEnvelopeMeta → Result RelayError (List OutboundDatagram)
action_to_datagrams s relay_port
      (discovery_fanout request_id source_peer_id destination_port targets payload) meta =
    do
      source_virtual_ip ← ok_or (peer_virtual_ip s source_peer_id) (unknown_source 0)
      ok (
          map (to_host meta relay_port request_id source_virtual_ip destination_port payload)
            targets)
action_to_datagrams s relay_port
      (discovery_unicast request_id destination_peer_id source_virtual_ip source_port payload)
      meta =
    do
      destination ← ok_or (peer_virtual_ip s destination_peer_id) (unknown_source 0)
      ok (
          to_client meta relay_port request_id source_virtual_ip source_port payload destination
          ∷ [])
action_to_datagrams s relay_port (gameplay_unicast route destination_port payload) meta = do
  source_virtual_ip ← ok_or (peer_virtual_ip s route.source_peer_id) (unknown_source 0)
  ok (to_peer meta relay_port route destination_port payload source_virtual_ip ∷ [])

-- The router's part: what the message asks for, and the datagrams that answer it.
unfoldable pub route_message :
    RoomRouter
    → ℕ
    → PeerId
    → RelayEnvelopeMeta
    → RelayMessage
    → Instant
    → Result RelayError (List OutboundDatagram) × RoomRouter
route_message s relay_port source meta message now =
    let (action, t) = act s source message now in
    (do a ← action; action_to_datagrams t relay_port a meta, t)

-- A message that is no probe: the peer is marked, the sequence number recorded, and the message
-- routed.
unfoldable pub carry :
    AppState
    → ℕ
    → PeerId
    → RelayEnvelopeMeta
    → RelayMessage
    → Clocks
    → Handled (List OutboundDatagram)
carry st relay_port source_peer_id meta message clocks =
    let (seen, s) = mark_peer_seen st.router source_peer_id clocks.now in
    elim seen [
      | err e ↦ (err (router_error e), record st { router = s })
      | ok _ ↦
          let (disposition, metrics) = record_sequence st.metrics source_peer_id meta.sequence in
          if is_duplicate disposition
          then (err (duplicate_sequence meta.sequence), record st { router = s; metrics = metrics })
          else let (result, t) =
              route_message s relay_port source_peer_id meta message clocks.now in
            (result, record st { router = t; metrics = metrics })
    ]

-- The answer to a probe goes back to the socket that it came from.
unfoldable pub answer_probe :
    AppState
    → SocketAddr
    → PeerId
    → RelayEnvelopeMeta
    → DiscoveryRequestId
    → Clocks
    → Handled (List OutboundDatagram)
answer_probe st source source_peer_id meta request_id clocks =
    let (seen, s) = mark_peer_seen st.router source_peer_id clocks.now in
    elim seen [
      | err e ↦ (err (router_error e), record st { router = s })
      | ok _ ↦ (
        ok (
            record { destination = source; message = relay_probe_ack request_id; meta = meta }
            ∷ []),
        record st { router = s; metrics = record_probe st.metrics true clocks.unix_ms },
      )
    ]

abbrev pub probe_of : RelayMessage → Option DiscoveryRequestId
probe_of (discovery_request _ _ _) = none
probe_of (discovery_to_host _ _ _ _) = none
probe_of (discovery_response _ _ _ _) = none
probe_of (discovery_to_client _ _ _ _) = none
probe_of (gameplay_packet _ _ _) = none
probe_of (gameplay_to_peer _ _ _ _) = none
probe_of (relay_probe request_id) = some request_id
probe_of (relay_probe_ack _) = none

-- The source's peer, if the address is one's and the packet is not of an older connection.
unfoldable pub authenticate : RoomRouter → VirtualIp → RelayEnvelopeMeta → Result RelayError PeerId
authenticate s source_ip meta = do
  source_peer_id ← ok_or (peer_for_virtual_ip s source_ip) (unknown_source source_ip)
  current_epoch ← lift (peer_connection_epoch s source_peer_id)
  if not (meta.connection_epoch == 0) && not (meta.connection_epoch == current_epoch)
      then err (stale_connection_epoch meta.connection_epoch current_epoch)
      else ok source_peer_id

-- `handle_datagram` behind the rate limiter.
unfoldable pub admit :
    AppState → ℕ → SocketAddr → VirtualIp → RelayEnvelope → Clocks → Handled (List OutboundDatagram)
admit st relay_port source source_ip envelope clocks =
    elim (authenticate st.router source_ip envelope.meta) [
      | err e ↦ (err e, st)
      | ok source_peer_id ↦ elim (probe_of envelope.message) [
        | none ↦ carry st relay_port source_peer_id envelope.meta envelope.message clocks
        | some request_id ↦ answer_probe st source source_peer_id envelope.meta request_id clocks
      ]
    ]

-- The limiter counts the packet of an IPv4 source before the source is known.
unfoldable pub limit_source :
    AppState → ℕ → SocketAddr → VirtualIp → RelayEnvelope → Clocks → Handled (List OutboundDatagram)
limit_source st relay_port source source_ip envelope clocks =
    let (allowed, limiter) = allow st.udp_rate_limiter source_ip clocks.arrival in
    if allowed
    then admit (record st { udp_rate_limiter = limiter }) relay_port source source_ip envelope
        clocks
    else (
      err rate_limited,
      record st { udp_rate_limiter = limiter; metrics = record_rate_limited st.metrics },
    )

unfoldable pub handle_datagram :
    UuidBytes → AppState → ℕ → SocketAddr → List ℕ → Clocks → Handled (List OutboundDatagram)
handle_datagram uuid st relay_port source packet clocks = elim (decode uuid packet) [
  | err e ↦ (err (codec e), st)
  | ok envelope ↦ elim source.ip [
    | v6 _ ↦ (err (invalid_source source), st)
    | v4 source_ip ↦ limit_source st relay_port source source_ip envelope clocks
  ]
]

-- The errors that `run` counts as authentication failures.
unfoldable pub is_router_authentication_failure : RouterError → Bool
is_router_authentication_failure (peer_disconnected _) = true
is_router_authentication_failure (unauthorized_gameplay_peer _ _) = true
is_router_authentication_failure _ = false

unfoldable pub authentication_failure : RelayError → Bool
unfolding is_router_authentication_failure
authentication_failure (unknown_source _) = true
authentication_failure (source_peer_mismatch _ _) = true
authentication_failure (stale_connection_epoch _ _) = true
authentication_failure (router_error e) = is_router_authentication_failure e
authentication_failure _ = false

unfoldable pub is_oversized : RelayError → Bool
is_oversized (router_error (datagram_too_large _)) = true
is_oversized _ = false

-- The arm of `run` for a received packet, up to the datagrams to send, which `Turn` sends. An error
-- is counted, and the packet dropped.
unfoldable pub receive :
    UuidBytes
    → (List ℕ → ℕ)
    → AppState
    → ℕ
    → SocketAddr
    → List ℕ
    → Clocks
    → List OutboundDatagram × AppState
receive uuid fingerprint st relay_port source packet clocks =
    let st₁ = record st {
      metrics = record_received fingerprint st.metrics packet clocks.arrival;
    } in
    let (result, st₂) = handle_datagram uuid st₁ relay_port source packet clocks in
    elim result [
      | ok outbound ↦ (outbound, st₂)
      | err error ↦
          let counted = if is_oversized error then record_oversized st₂.metrics else st₂.metrics in
          ([], record st₂ { metrics = record_drop counted (authentication_failure error) })
    ]

-- The other arm, once a second.
unfoldable pub tick : AppState → Instant → AppState
tick st now = record st { router = (expire st.router now).1 }
