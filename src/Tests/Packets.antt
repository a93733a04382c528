-- ===== src/Tests/Packets.antt =====
-- The theorems on room codes and on packets at concrete values.
use civ6_lan_bridge.Prelude.{
  ℕ, ◌<◌, ◌≤◌, ◌≡◌, ◌↔◌, ◌⊎◌, refl, arith, nat_key, list_key, some, ok, err, List, [], ◌∷◌, map,
  length, to_be_bytes, from_be_bytes, length-to_be_bytes, from_be_bytes-to_be_bytes,
}
use civ6_lan_bridge.Protocol.RoomCode.{
  RoomCode, IsRoomCode, to_ascii_uppercase, in_alphabet, parse, random, parse_iff, parse-random,
}
use civ6_lan_bridge.Protocol.Relay.{
  RelayMessage, gameplay_packet, RelayEnvelope, default_meta, payload_too_large, invalid_packet,
  max_relay_datagram_size,
}
use civ6_lan_bridge.Protocol.Relay.Codec.{UuidBytes, encode_packet, encode, encode_legacy, decode}
use civ6_lan_bridge.Protocol.Relay.Fields.{MetaFits, PayloadFits, payload_of}
use civ6_lan_bridge.Protocol.Relay.RoundTrip.{
  decode-encode, decode-encode_legacy, encode_packet_cases,
}
use civ6_lan_bridge.Protocol.Relay.Strict.{Decoded, decode-Decoded}

-- A UUID is its 16 bytes, high byte first.
abbrev pub uuid_bytes : UuidBytes
uuid_bytes = record {
  as_bytes = to_be_bytes 16;
  from_bytes = from_be_bytes;
  length-as_bytes = length-to_be_bytes 16;
  from_bytes-as_bytes = λ id h. from_be_bytes-to_be_bytes 16 id (omega (arith, h));
}

abbrev message : RelayMessage
message = gameplay_packet 90 62056 (1 ∷ 2 ∷ 3 ∷ [])

abbrev envelope : RelayEnvelope
envelope = record {
  meta = record { sequence = 5; connection_epoch = 1; sent_at_ms = 1000; path_id = some 1 };
  message = message;
}

meta-fits : MetaFits envelope.meta
meta-fits = record {
  sequence = omega arith;
  connection_epoch = omega arith;
  sent_at_ms = omega arith;
}

decode-encode_example :
    (packet : List ℕ) × (encode uuid_bytes envelope ≡ ok packet)
    × (decode uuid_bytes packet ≡ ok envelope)
    × (length packet ≤ max_relay_datagram_size)
decode-encode_example =
    decode-encode uuid_bytes envelope meta-fits (omega arith, omega arith) (omega arith)

decode-encode_legacy_example :
    (packet : List ℕ) × (encode_legacy uuid_bytes message ≡ ok packet)
    × (decode uuid_bytes packet ≡ ok (record { meta = default_meta; message = message }))
decode-encode_legacy_example =
    decode-encode_legacy uuid_bytes message (omega arith, omega arith) (omega arith)

encode_packet_cases_example :
    ((packet : List ℕ) × (encode_packet uuid_bytes message (some envelope.meta) 2 ≡ ok packet)
      × PayloadFits message)
    ⊎ ((encode_packet uuid_bytes message (some envelope.meta) 2
          ≡ err (invalid_packet payload_too_large))
        × (4096 < length (payload_of message)))
encode_packet_cases_example = encode_packet_cases uuid_bytes message (some envelope.meta) 2

-- The packet of the envelope above
pub encoded :
    (packet : List ℕ) × (encode uuid_bytes envelope ≡ ok packet)
    × (decode uuid_bytes packet ≡ ok envelope)
    × (length packet ≤ max_relay_datagram_size)
encoded = decode-encode uuid_bytes envelope meta-fits (omega arith, omega arith) (omega arith)

decode-Decoded_example : Decoded encoded.0 envelope
decode-Decoded_example = decode-Decoded uuid_bytes encoded.0 envelope encoded.2

abbrev typed : List ℕ
typed = b'r' ∷ b'e' ∷ b'l' ∷ b'a' ∷ b'y' ∷ b'2' ∷ []

abbrev upper : RoomCode
upper = b'R' ∷ b'E' ∷ b'L' ∷ b'A' ∷ b'Y' ∷ b'2' ∷ []

accepted : parse typed ≡ ok upper
unfolding parse to_ascii_uppercase in_alphabet
accepted = refl

parse_iff_example :
    (parse typed ≡ ok upper) ↔ ((upper ≡ map to_ascii_uppercase typed) × IsRoomCode upper)
parse_iff_example = parse_iff typed upper

parse-random_example : parse (random (to_be_bytes 16 12345)) ≡ ok (random (to_be_bytes 16 12345))
parse-random_example = parse-random (to_be_bytes 16 12345) (length-to_be_bytes 16 12345)
