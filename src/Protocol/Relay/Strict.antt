-- ===== src/Protocol/Relay/Strict.antt =====
-- crates/protocol/src/relay.rs: what `decode` accepts.
use civ6_lan_bridge.Prelude.{
  ℕ, ◌+◌, ◌<◌, ◌≤◌, ◌≡◌, ◌⊎◌, nat_key, ok, err, List, ◌∷◌, ◌++◌, length, take, drop, get_or,
  from_be_bytes, length-append, arith, list_key, ==→≡, >>=-succeeds,
}
use civ6_lan_bridge.Protocol.Relay.{
  RelayMessage, RelayEnvelope, invalid_packet, max_relay_datagram_size,
  legacy_relay_protocol_version, relay_protocol_version, datagram_too_large, length_mismatch,
}
use civ6_lan_bridge.Protocol.Relay.Codec.{
  UuidBytes, kind, magic, read_message, read_envelope_meta, is_empty, decode_body, decode,
  read_payload, read_request, read_to_host, read_response, read_to_client, read_gameplay,
  read_to_peer, read_probe, read_probe_ack,
}
use civ6_lan_bridge.Protocol.Relay.Fields.{PayloadFits}

-- What a packet and the envelope decoded from it have in common.
pub record Decoded (packet : List ℕ) (envelope : RelayEnvelope) : Type 0 where
  pub starts : take 4 packet ≡ magic
  pub versioned :
      (get_or packet 4 0 ≡ legacy_relay_protocol_version)
      ⊎ (get_or packet 4 0 ≡ relay_protocol_version)
  pub kinded : get_or packet 5 0 ≡ kind envelope.message
  pub measured : 8 + from_be_bytes (take 2 (drop 6 packet)) ≡ length packet
  pub bounded : length packet ≤ max_relay_datagram_size
  pub fits : PayloadFits envelope.message

module _ (uuid : UuidBytes) where
  abbrev Kinded : ℕ → RelayMessage → Type 0
  Kinded k message = (k ≡ kind message) × PayloadFits message

  read_message-Kinded :
      (k : ℕ) (input rest : List ℕ) (message : RelayMessage)
      → read_message uuid k input ≡ ok (message, rest)
      → Kinded k message
  unfolding read_message read_payload read_request read_to_host read_response read_to_client
      read_gameplay read_to_peer read_probe read_probe_ack
  read_message-Kinded k input rest message h = ground arith

  decode_body-Kinded :
      (version k : ℕ) (body : List ℕ) (envelope : RelayEnvelope)
      → decode_body uuid version k body ≡ ok envelope
      → Kinded k envelope.message
  unfolding decode_body is_empty
  decode_body-Kinded version k body envelope h =
      let ((m, body₁), h₁, _) = >>=-succeeds _ (read_envelope_meta version body) h in
      let ((message, rest), h₂, read) = >>=-succeeds _ (read_message uuid k body₁) h₁ in
      ground (arith, read_message-Kinded k body₁ rest message read)

  -- A packet that decode accepts has the magic, a known version, the kind of its message, a
  -- length field that counts the bytes after the header, at most MAX_RELAY_DATAGRAM_SIZE bytes,
  -- and a payload of at most 4096.
  pub decode-Decoded :
      (packet : List ℕ) (envelope : RelayEnvelope)
      → decode uuid packet ≡ ok envelope
      → Decoded packet envelope
  unfolding decode
  decode-Decoded packet envelope h = record {
    starts = ==→≡ (take 4 packet) magic (ground arith);
    versioned = ground arith;
    kinded = body.0;
    measured = ground arith;
    bounded = ground arith;
    fits = body.1;
  }
    where
      body : Kinded (get_or packet 5 0) envelope.message
      body =
          decode_body-Kinded (get_or packet 4 0) (get_or packet 5 0) (drop 8 packet) envelope
            (ground arith)

  -- An accepted packet with bytes added is refused.
  pub decode_extended :
      (packet extra : List ℕ) (envelope : RelayEnvelope)
      → 0 < length extra
      → decode uuid packet ≡ ok envelope
      → (decode uuid (packet ++ extra) ≡ err (invalid_packet datagram_too_large))
        ⊎ (decode uuid (packet ++ extra) ≡ err (invalid_packet length_mismatch))
  unfolding decode
  decode_extended (a ∷ b ∷ c ∷ d ∷ e ∷ f ∷ g ∷ h ∷ rest) extra envelope pos accepted =
      ground (arith, length-append rest extra)
  decode_extended _ extra envelope pos accepted = ground arith
