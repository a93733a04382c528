-- ===== src/Protocol/Relay/Codec.antt =====
-- crates/protocol/src/relay.rs: `encode_packet`, `decode_packet` and what they read and write.
-- A buffer that a function extends is returned; a reader returns what it has not read.
use civ6_lan_bridge.Prelude.{
  ℕ, ◌+◌, ◌-◌, ◌*◌, ◌<◌, ◌^◌, ◌≡◌, Bool, not, ◌&&◌, ◌==◌, ltb, nat_key, if◌then◌else◌, Result, ok,
  err, ◌>>=◌, List, [], ◌∷◌, ◌++◌, Option, none, some, length, take, drop, get_or, to_be_bytes,
  from_be_bytes, list_key,
}
use civ6_lan_bridge.Protocol.Ports.{VirtualIp, Civ6UdpPort, max_civ6_datagram_size}
use civ6_lan_bridge.Protocol.Relay.{
  RelayMessage, discovery_request, discovery_to_host, discovery_response, discovery_to_client,
  gameplay_packet, gameplay_to_peer, relay_probe, relay_probe_ack, RelayEnvelopeMeta, default_meta,
  RelayEnvelope, body_too_large, datagram_too_large, header_truncated, invalid_magic,
  unsupported_version, length_mismatch, trailing_bytes, invalid_path_marker, payload_too_large,
  body_truncated, RelayCodecError, invalid_packet, unexpected_message_kind,
  legacy_relay_protocol_version, relay_protocol_version, relay_header_size, max_relay_datagram_size,
}

-- What the codec uses of the `uuid` crate: the 16 bytes of an identifier, and back.
pub record UuidBytes : Type 0 where
  pub as_bytes : ℕ → List ℕ
  pub from_bytes : List ℕ → ℕ
  pub length-as_bytes : (id : ℕ) → length (as_bytes id) ≡ 16
  pub from_bytes-as_bytes : (id : ℕ) → id < 2 ^ 128 → from_bytes (as_bytes id) ≡ id

abbrev pub magic : List ℕ
magic = b'C' ∷ b'6' ∷ b'L' ∷ b'B' ∷ []

-- The kind byte of an envelope.
abbrev pub kind : RelayMessage → ℕ
kind (discovery_request _ _ _) = 1
kind (discovery_to_host _ _ _ _) = 2
kind (discovery_response _ _ _ _) = 3
kind (discovery_to_client _ _ _ _) = 4
kind (gameplay_packet _ _ _) = 5
kind (gameplay_to_peer _ _ _ _) = 6
kind (relay_probe _) = 7
kind (relay_probe_ack _) = 8

abbrev pub Codec : Type 0 → Type 0
Codec A = Result RelayCodecError A

-- A reader: what it makes of the front of the input, and the rest.
abbrev pub Reader : Type 0 → Type 0
Reader A = List ℕ → Codec (A × List ℕ)

-- Writers.

unfoldable pub write_path : Option ℕ → List ℕ
write_path (some path_id) = 1 ∷ path_id ∷ []
write_path none = 0 ∷ 0 ∷ []

unfoldable pub write_meta : List ℕ → RelayEnvelopeMeta → List ℕ
write_meta buffer m =
    (((buffer ++ to_be_bytes 8 m.sequence) ++ to_be_bytes 8 m.connection_epoch)
      ++ to_be_bytes 8 m.sent_at_ms)
    ++ write_path m.path_id

unfoldable pub write_ip : List ℕ → VirtualIp → List ℕ
write_ip buffer value = buffer ++ to_be_bytes 4 value

unfoldable pub write_port : List ℕ → Civ6UdpPort → List ℕ
write_port buffer value = buffer ++ to_be_bytes 2 value

unfoldable pub write_payload : List ℕ → List ℕ → Codec (List ℕ)
write_payload buffer payload =
    if ltb max_civ6_datagram_size (length payload)
    then err (invalid_packet payload_too_large)
    else ok (buffer ++ payload)

-- The end of `encode_packet`: the header before the body.
unfoldable pub seal : ℕ → ℕ → List ℕ → Codec (List ℕ)
seal version kind_byte body =
    if ltb 65535 (length body)
    then err (invalid_packet body_too_large)
    else ok (magic ++ (version ∷ kind_byte ∷ (to_be_bytes 2 (length body) ++ body)))

-- Readers.

unfoldable pub read_exact : ℕ → Reader (List ℕ)
read_exact size input =
    if ltb (length input) size
    then err (invalid_packet body_truncated)
    else ok (take size input, drop size input)

unfoldable pub read_u64 : Reader ℕ
read_u64 input = do (bytes, rest) ← read_exact 8 input; ok (from_be_bytes bytes, rest)

unfoldable pub read_u8 : Reader ℕ
read_u8 input = do (bytes, rest) ← read_exact 1 input; ok (get_or bytes 0 0, rest)

-- The `match has_path` of `read_meta`.
unfoldable pub path_of : ℕ → ℕ → Codec (Option ℕ)
path_of has_path path_id =
    if has_path == 0
    then ok none
    else if has_path == 1
    then ok (some path_id)
    else err (invalid_packet (invalid_path_marker has_path))

unfoldable pub read_path : Reader (Option ℕ)
read_path input = do
  (has_path, input₁) ← read_u8 input
  (path_byte, rest) ← read_u8 input₁
  path_id ← path_of has_path path_byte
  ok (path_id, rest)

unfoldable pub read_meta : Reader RelayEnvelopeMeta
read_meta input = do
  (sequence, input₁) ← read_u64 input
  (connection_epoch, input₂) ← read_u64 input₁
  (sent_at_ms, input₃) ← read_u64 input₂
  (path_id, rest) ← read_path input₃
  ok (
    record {
      sequence = sequence;
      connection_epoch = connection_epoch;
      sent_at_ms = sent_at_ms;
      path_id = path_id;
    },
    rest,
  )

-- `Ipv4Addr::new(bytes[0], bytes[1], bytes[2], bytes[3])`
abbrev pub ipv4_new : ℕ → ℕ → ℕ → ℕ → VirtualIp
ipv4_new a b c d = ((a * 256 + b) * 256 + c) * 256 + d

unfoldable pub read_ip : Reader VirtualIp
read_ip input = do
  (bytes, rest) ← read_exact 4 input
  ok (ipv4_new (get_or bytes 0 0) (get_or bytes 1 0) (get_or bytes 2 0) (get_or bytes 3 0), rest)

unfoldable pub read_port : Reader Civ6UdpPort
read_port input = do (bytes, rest) ← read_exact 2 input; ok (from_be_bytes bytes, rest)

unfoldable pub read_payload : Reader (List ℕ)
read_payload input =
    if ltb max_civ6_datagram_size (length input)
    then err (invalid_packet payload_too_large)
    else ok (input, [])

unfoldable pub write_optional_meta : Option RelayEnvelopeMeta → List ℕ
write_optional_meta none = []
write_optional_meta (some m) = write_meta [] m

-- `read_meta` of a v2 body; a legacy body has none.
unfoldable pub read_envelope_meta : ℕ → Reader RelayEnvelopeMeta
read_envelope_meta version body =
    if version == relay_protocol_version then read_meta body else ok (default_meta, body)

unfoldable pub is_empty : List ℕ → Bool
is_empty bytes = length bytes == 0

module _ (uuid : UuidBytes) where
  unfoldable pub write_id : List ℕ → ℕ → List ℕ
  write_id buffer value = buffer ++ uuid.as_bytes value

  unfoldable pub read_id : Reader ℕ
  read_id input = do (bytes, rest) ← read_exact 16 input; ok (uuid.from_bytes bytes, rest)

  -- The `match` of `encode_packet`: the fields of each message, in their order on the wire.
  unfoldable pub write_message : List ℕ → RelayMessage → Codec (List ℕ)
  write_message body (discovery_request request_id destination_port payload) =
      write_payload (write_port (write_id body request_id) destination_port) payload
  write_message body (discovery_to_host request_id source_virtual_ip destination_port payload) =
      write_payload
        (write_port (write_ip (write_id body request_id) source_virtual_ip) destination_port)
        payload
  write_message body (discovery_response request_id host_session_id source_port payload) =
      write_payload (write_port (write_id (write_id body request_id) host_session_id) source_port)
        payload
  write_message body (discovery_to_client request_id host_virtual_ip source_port payload) =
      write_payload (write_port (write_ip (write_id body request_id) host_virtual_ip) source_port)
        payload
  write_message body (gameplay_packet session_id source_port payload) =
      write_payload (write_port (write_id body session_id) source_port) payload
  write_message body (gameplay_to_peer session_id source_virtual_ip destination_port payload) =
      write_payload
        (write_port (write_ip (write_id body session_id) source_virtual_ip) destination_port)
        payload
  write_message body (relay_probe request_id) = ok (write_id body request_id)
  write_message body (relay_probe_ack request_id) = ok (write_id body request_id)

  -- `encode_packet`: `m` is the metadata of a v2 envelope, and absent from a legacy one.
  unfoldable pub encode_packet : RelayMessage → Option RelayEnvelopeMeta → ℕ → Codec (List ℕ)
  encode_packet message m version = do
    body ← write_message (write_optional_meta m) message
    seal version (kind message) body

  -- `RelayEnvelope::encode`
  unfoldable pub encode : RelayEnvelope → Codec (List ℕ)
  encode envelope = encode_packet envelope.message (some envelope.meta) relay_protocol_version

  -- `RelayMessage::encode`
  unfoldable pub encode_legacy : RelayMessage → Codec (List ℕ)
  encode_legacy message = encode_packet message none legacy_relay_protocol_version

  -- `RelayMessage::encode_with_meta`
  unfoldable pub encode_with_meta : RelayMessage → RelayEnvelopeMeta → Codec (List ℕ)
  encode_with_meta message m = encode_packet message (some m) relay_protocol_version

  -- The `match kind` of `decode_packet`, one arm for each kind.
  unfoldable pub read_request : Reader RelayMessage
  read_request input = do
    (request_id, input₁) ← read_id input
    (destination_port, input₂) ← read_port input₁
    (payload, rest) ← read_payload input₂
    ok (discovery_request request_id destination_port payload, rest)

  unfoldable pub read_to_host : Reader RelayMessage
  read_to_host input = do
    (request_id, input₁) ← read_id input
    (source_virtual_ip, input₂) ← read_ip input₁
    (destination_port, input₃) ← read_port input₂
    (payload, rest) ← read_payload input₃
    ok (discovery_to_host request_id source_virtual_ip destination_port payload, rest)

  unfoldable pub read_response : Reader RelayMessage
  read_response input = do
    (request_id, input₁) ← read_id input
    (host_session_id, input₂) ← read_id input₁
    (source_port, input₃) ← read_port input₂
    (payload, rest) ← read_payload input₃
    ok (discovery_response request_id host_session_id source_port payload, rest)

  unfoldable pub read_to_client : Reader RelayMessage
  read_to_client input = do
    (request_id, input₁) ← read_id input
    (host_virtual_ip, input₂) ← read_ip input₁
    (source_port, input₃) ← read_port input₂
    (payload, rest) ← read_payload input₃
    ok (discovery_to_client request_id host_virtual_ip source_port payload, rest)

  unfoldable pub read_gameplay : Reader RelayMessage
  read_gameplay input = do
    (session_id, input₁) ← read_id input
    (source_port, input₂) ← read_port input₁
    (payload, rest) ← read_payload input₂
    ok (gameplay_packet session_id source_port payload, rest)

  unfoldable pub read_to_peer : Reader RelayMessage
  read_to_peer input = do
    (session_id, input₁) ← read_id input
    (source_virtual_ip, input₂) ← read_ip input₁
    (destination_port, input₃) ← read_port input₂
    (payload, rest) ← read_payload input₃
    ok (gameplay_to_peer session_id source_virtual_ip destination_port payload, rest)

  unfoldable pub read_probe : Reader RelayMessage
  read_probe input = do (request_id, rest) ← read_id input; ok (relay_probe request_id, rest)

  unfoldable pub read_probe_ack : Reader RelayMessage
  read_probe_ack input = do
    (request_id, rest) ← read_id input
    ok (relay_probe_ack request_id, rest)

  unfoldable pub read_message : ℕ → Reader RelayMessage
  read_message kind_byte input =
      if kind_byte == 1
      then read_request input
      else if kind_byte == 2
      then read_to_host input
      else if kind_byte == 3
      then read_response input
      else if kind_byte == 4
      then read_to_client input
      else if kind_byte == 5
      then read_gameplay input
      else if kind_byte == 6
      then read_to_peer input
      else if kind_byte == 7
      then read_probe input
      else if kind_byte == 8
      then read_probe_ack input
      else err (unexpected_message_kind kind_byte)

  -- What follows the checks of the header.
  unfoldable pub decode_body : ℕ → ℕ → List ℕ → Codec RelayEnvelope
  decode_body version kind_byte body = do
    (m, body₁) ← read_envelope_meta version body
    (message, rest) ← read_message kind_byte body₁
    if is_empty rest
        then ok (record { meta = m; message = message })
        else err (invalid_packet trailing_bytes)

  -- `decode_packet`, which is `RelayEnvelope::decode`. The checks before them put the indices in
  -- range.
  unfoldable pub decode : List ℕ → Codec RelayEnvelope
  decode packet =
      let version = get_or packet 4 0 in
      let kind_byte = get_or packet 5 0 in
      let declared_body_len = from_be_bytes (take 2 (drop 6 packet)) in
      if ltb max_relay_datagram_size (length packet)
      then err (invalid_packet datagram_too_large)
      else if ltb (length packet) relay_header_size
      then err (invalid_packet header_truncated)
      else if not (take 4 packet == magic)
      then err (invalid_packet invalid_magic)
      else if not (version == legacy_relay_protocol_version)
          && not (version == relay_protocol_version)
      then err (invalid_packet (unsupported_version version))
      else if not (declared_body_len == length packet - relay_header_size)
      then err (invalid_packet length_mismatch)
      else decode_body version kind_byte (drop relay_header_size packet)

  -- `RelayMessage::decode`
  unfoldable pub decode_message : List ℕ → Codec RelayMessage
  decode_message packet = do envelope ← decode packet; ok envelope.message
