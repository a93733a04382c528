-- ===== src/Protocol/Relay.antt =====
-- crates/protocol/src/relay.rs: the messages, the metadata and the errors of the relay envelope.
pub mod Codec
pub mod Fields
pub mod RoundTrip
pub mod Strict
use civ6_lan_bridge.Prelude.{
  ℕ, zero, suc, ◌+◌, ◌-◌, ◌^◌, ◌≡◌, ◌↔◌, refl, Option, none, some, List, ◌==◌, nat_key,
  if◌then◌else◌, arith, min, ℕ_discrete,
}
use civ6_lan_bridge.Protocol.Ports.{
  DiscoveryRequestId, GameplaySessionId, HostSessionId, VirtualIp, Civ6UdpPort,
  max_civ6_datagram_size,
}

abbrev pub legacy_relay_protocol_version : ℕ
legacy_relay_protocol_version = 1

abbrev pub relay_protocol_version : ℕ
relay_protocol_version = 2

abbrev pub relay_header_size : ℕ
relay_header_size = 8

abbrev pub max_relay_datagram_size : ℕ
max_relay_datagram_size = relay_header_size + max_civ6_datagram_size + 64

abbrev pub default_safe_relay_payload_size : ℕ
default_safe_relay_payload_size = 1200

abbrev pub wireguard_udp_path_id : ℕ
wireguard_udp_path_id = 1

abbrev pub quic_datagram_path_id : ℕ
quic_datagram_path_id = 2

pub data RelayMessage : Type 0 where
  discovery_request : DiscoveryRequestId → Civ6UdpPort → List ℕ → RelayMessage
  discovery_to_host : DiscoveryRequestId → VirtualIp → Civ6UdpPort → List ℕ → RelayMessage
  discovery_response : DiscoveryRequestId → HostSessionId → Civ6UdpPort → List ℕ → RelayMessage
  discovery_to_client : DiscoveryRequestId → VirtualIp → Civ6UdpPort → List ℕ → RelayMessage
  gameplay_packet : GameplaySessionId → Civ6UdpPort → List ℕ → RelayMessage
  gameplay_to_peer : GameplaySessionId → VirtualIp → Civ6UdpPort → List ℕ → RelayMessage
  relay_probe : DiscoveryRequestId → RelayMessage
  relay_probe_ack : DiscoveryRequestId → RelayMessage

pub record RelayEnvelopeMeta : Type 0 where
  pub sequence : ℕ
  pub connection_epoch : ℕ
  pub sent_at_ms : ℕ
  pub path_id : Option ℕ

-- `RelayEnvelopeMeta::default`
abbrev pub default_meta : RelayEnvelopeMeta
default_meta = record { sequence = 0; connection_epoch = 0; sent_at_ms = 0; path_id = none }

-- The clock's milliseconds since the epoch, if it does not stand before it, cut to 64 bits.
unfoldable pub unix_time_ms : Option ℕ → ℕ
unix_time_ms none = 0
unix_time_ms (some millis) = min millis (2 ^ 64 - 1)

-- `RelayEnvelopeMeta::new`, with what the clock reads
unfoldable pub new_meta : Option ℕ → ℕ → ℕ → Option ℕ → RelayEnvelopeMeta
unfolding unix_time_ms
new_meta clock sequence connection_epoch path_id = record {
  sequence = sequence;
  connection_epoch = connection_epoch;
  sent_at_ms = unix_time_ms clock;
  path_id = path_id;
}

pub data RelayTransportPath : Type 0 where
  wireguard_udp quic_datagram : RelayTransportPath

unfoldable pub path_to_id : RelayTransportPath → ℕ
path_to_id wireguard_udp = wireguard_udp_path_id
path_to_id quic_datagram = quic_datagram_path_id

unfoldable pub path_from_id : ℕ → Option RelayTransportPath
path_from_id value =
    if value == wireguard_udp_path_id
    then some wireguard_udp
    else if value == quic_datagram_path_id
    then some quic_datagram
    else none

-- `from_id` finds a path for a number exactly if the number is that path's `id`.
pub path_from_id-path_to_id :
    (value : ℕ) (path : RelayTransportPath)
    → (path_from_id value ≡ some path) ↔ (value ≡ path_to_id path)
unfolding path_from_id path_to_id
path_from_id-path_to_id value wireguard_udp = (λ h. ground arith, λ h. ground arith)
path_from_id-path_to_id value quic_datagram = (λ h. ground arith, λ h. ground arith)

pub record RelayEnvelope : Type 0 where
  pub meta : RelayEnvelopeMeta
  pub message : RelayMessage

-- The texts of `InvalidPacket`, one constructor for each.
pub data PacketFault : Type 0 where
  body_too_large datagram_too_large header_truncated invalid_magic : PacketFault
  unsupported_version : ℕ → PacketFault
  length_mismatch trailing_bytes : PacketFault
  invalid_path_marker : ℕ → PacketFault
  payload_too_large body_truncated : PacketFault

pub data RelayCodecError : Type 0 where
  invalid_packet : PacketFault → RelayCodecError
  unexpected_message_kind : ℕ → RelayCodecError
