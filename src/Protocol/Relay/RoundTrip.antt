-- ===== src/Protocol/Relay/RoundTrip.antt =====
-- crates/protocol/src/relay.rs: `encode` and `decode` together.
use civ6_lan_bridge.Prelude.{
  ℕ, ◌+◌, ◌<◌, ◌≤◌, ◌≡◌, ◌⊎◌, inl, inr, refl, ◌∙◌, nat_key, ok, err, List, ◌∷◌, ◌++◌, Option, none,
  some, length, to_be_bytes, from_be_bytes, ℕ_discrete, list_discrete, length-append,
  length-to_be_bytes, arith, list_key, dec_le,
}
use civ6_lan_bridge.Protocol.Ports.{max_civ6_datagram_size}
use civ6_lan_bridge.Protocol.Relay.{
  RelayMessage, RelayEnvelopeMeta, RelayEnvelope, payload_too_large, invalid_packet, default_meta,
  max_relay_datagram_size, legacy_relay_protocol_version, relay_protocol_version,
}
use civ6_lan_bridge.Protocol.Relay.Codec.{
  UuidBytes, kind, magic, write_path, write_meta, write_optional_meta, seal, encode_packet, encode,
  encode_legacy, read_envelope_meta, is_empty, decode_body, decode,
}
use civ6_lan_bridge.Protocol.Relay.Fields.{
  MetaFits, FieldsFit, PayloadFits, payload_of, read_meta-write_meta, fields, write_message-fields,
  write_message-err, read_message-fields, length-fields-le,
}

abbrev IsVersion : ℕ → Type 0
IsVersion version = (version ≡ legacy_relay_protocol_version) ⊎ (version ≡ relay_protocol_version)

packet_of : ℕ → ℕ → List ℕ → List ℕ
packet_of version kind_byte body =
    magic ++ (version ∷ kind_byte ∷ (to_be_bytes 2 (length body) ++ body))

length-packet_of :
    (version kind_byte : ℕ) (body : List ℕ)
    → length (packet_of version kind_byte body) ≡ 8 + length body
unfolding packet_of to_be_bytes
length-packet_of version kind_byte body = omega arith

length-write_path : (path_id : Option ℕ) → length (write_path path_id) ≡ 2
unfolding write_path
length-write_path none = refl
length-write_path (some p) = refl

module _ (uuid : UuidBytes) where
  -- The header that `encode_packet` writes passes the checks of `decode_packet`.
  decode-packet_of :
      (version kind_byte : ℕ) (body : List ℕ)
      → IsVersion version
      → 8 + length body ≤ max_relay_datagram_size
      → decode uuid (packet_of version kind_byte body) ≡ decode_body uuid version kind_byte body
  unfolding decode packet_of to_be_bytes from_be_bytes list_discrete ℕ_discrete
  decode-packet_of version kind_byte body v h = ground arith

  length-write_meta : (m : RelayEnvelopeMeta) → length (write_optional_meta (some m)) ≡ 26
  unfolding write_optional_meta write_meta
  length-write_meta m =
      omega (arith, length-append {0}, length-to_be_bytes, length-write_path m.path_id)

  body_of : Option RelayEnvelopeMeta → RelayMessage → List ℕ
  body_of m message = write_optional_meta m ++ fields uuid message

  length-body_of-le :
      (m : Option RelayEnvelopeMeta) (message : RelayMessage)
      → length (body_of m message) ≤ 60 + length (payload_of message)
  unfolding body_of
  length-body_of-le (some m) message = omega (
    arith,
    length-append (write_optional_meta (some m)) (fields uuid message),
    length-write_meta m,
    length-fields-le uuid message,
  )
  length-body_of-le none message =
      unfold write_optional_meta in omega (arith, length-fields-le uuid message)

  encode_packet-packet_of :
      (message : RelayMessage) (m : Option RelayEnvelopeMeta) (version : ℕ)
      → PayloadFits message
      → encode_packet uuid message m version
        ≡ ok (packet_of version (kind message) (body_of m message))
  unfolding encode_packet seal body_of packet_of
  encode_packet-packet_of message m version h =
      rw (write_message-fields uuid (write_optional_meta m) message h)
        (ground (arith, length-body_of-le m message))

  -- encode_packet gives a packet if the payload is at most 4096 bytes long, and refuses a longer
  -- one as too large; no other error occurs.
  pub encode_packet_cases :
      (message : RelayMessage) (m : Option RelayEnvelopeMeta) (version : ℕ)
      → ((packet : List ℕ) × (encode_packet uuid message m version ≡ ok packet)
          × PayloadFits message)
        ⊎ ((encode_packet uuid message m version ≡ err (invalid_packet payload_too_large))
            × (max_civ6_datagram_size < length (payload_of message)))
  encode_packet_cases message m version =
      elim (dec_le (length (payload_of message)) max_civ6_datagram_size) [
        | yes h ↦ inl (_, encode_packet-packet_of message m version h, h)
        | no n ↦ inr (
          unfold encode_packet in
              rw (write_message-err uuid (write_optional_meta m) message (omega arith)),
          omega arith,
        )
      ]

  decode_body-v2 :
      (m : RelayEnvelopeMeta) (message : RelayMessage)
      → MetaFits m
      → FieldsFit message
      → PayloadFits message
      → decode_body uuid relay_protocol_version (kind message) (body_of (some m) message)
        ≡ ok (record { meta = m; message = message })
  unfolding decode_body read_envelope_meta body_of write_optional_meta is_empty ℕ_discrete
  decode_body-v2 m message fm ff h =
      rw (read_meta-write_meta m (fields uuid message) fm)
        (rw (read_message-fields uuid message ff h))

  decode_body-v1 :
      (message : RelayMessage)
      → FieldsFit message
      → PayloadFits message
      → decode_body uuid legacy_relay_protocol_version (kind message) (body_of none message)
        ≡ ok (record { meta = default_meta; message = message })
  unfolding decode_body read_envelope_meta body_of write_optional_meta is_empty ℕ_discrete
  decode_body-v1 message ff h = rw (read_message-fields uuid message ff h)

  -- An envelope whose fields fit their types and whose payload is at most 4096 bytes long is
  -- encoded, into at most MAX_RELAY_DATAGRAM_SIZE bytes, and decoded to itself.
  pub decode-encode :
      (envelope : RelayEnvelope)
      → MetaFits envelope.meta
      → FieldsFit envelope.message
      → PayloadFits envelope.message
      → (packet : List ℕ) × (encode uuid envelope ≡ ok packet)
        × (decode uuid packet ≡ ok envelope)
        × (length packet ≤ max_relay_datagram_size)
  unfolding encode
  decode-encode envelope fm ff h = (
    packet_of relay_protocol_version (kind envelope.message) body,
    encode_packet-packet_of envelope.message (some envelope.meta) relay_protocol_version h,
    decode-packet_of relay_protocol_version _ body (inr refl) fits
        ∙ decode_body-v2 envelope.meta envelope.message fm ff h,
    omega (arith, length-packet_of relay_protocol_version (kind envelope.message) body, fits),
  )
    where
      body : List ℕ
      body = body_of (some envelope.meta) envelope.message

      fits : 8 + length body ≤ max_relay_datagram_size
      fits = omega (arith, length-body_of-le (some envelope.meta) envelope.message)

  -- A legacy packet, which carries no metadata, is decoded to its message with default metadata,
  -- if the fields fit their types and the payload is at most 4096 bytes long.
  pub decode-encode_legacy :
      (message : RelayMessage)
      → FieldsFit message
      → PayloadFits message
      → (packet : List ℕ) × (encode_legacy uuid message ≡ ok packet)
        × (decode uuid packet ≡ ok (record { meta = default_meta; message = message }))
  unfolding encode_legacy
  decode-encode_legacy message ff h = (
    packet_of legacy_relay_protocol_version (kind message) (body_of none message),
    encode_packet-packet_of message none legacy_relay_protocol_version h,
    decode-packet_of legacy_relay_protocol_version _ (body_of none message) (inl refl)
          (omega (arith, length-body_of-le none message))
        ∙ decode_body-v1 message ff h,
  )
