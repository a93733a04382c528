-- ===== src/Protocol/Relay/Fields.antt =====
-- crates/protocol/src/relay.rs: the fields of each message, written and read one by one.
use mathlib.Core.List.{append_assoc, append-nil}
use civ6_lan_bridge.Prelude.{
  ℕ, ◌+◌, ◌<◌, ◌≤◌, ◌^◌, ◌≡◌, refl, nat_key, ok, err, List, [], ◌++◌, Option, none, some, length,
  to_be_bytes, ℕ_discrete, length-append, take-append, drop-append, length-to_be_bytes,
  from_be_bytes-to_be_bytes, arith,
}
use civ6_lan_bridge.Protocol.Ports.{max_civ6_datagram_size}
use civ6_lan_bridge.Protocol.Relay.{
  RelayMessage, discovery_request, discovery_to_host, discovery_response, discovery_to_client,
  gameplay_packet, gameplay_to_peer, relay_probe, relay_probe_ack, RelayEnvelopeMeta,
  payload_too_large, invalid_packet,
}
use civ6_lan_bridge.Protocol.Relay.Codec.{
  UuidBytes, kind, write_path, write_meta, write_ip, write_port, write_payload, write_id,
  write_message, read_exact, read_u64, read_u8, path_of, read_path, read_meta, read_ip, read_port,
  read_payload, read_id, read_message, read_request, read_to_host, read_response, read_to_client,
  read_gameplay, read_to_peer, read_probe, read_probe_ack,
}

-- The values that the fields of the source's types can hold.
pub record MetaFits (m : RelayEnvelopeMeta) : Type 0 where
  pub sequence : m.sequence < 2 ^ 64
  pub connection_epoch : m.connection_epoch < 2 ^ 64
  pub sent_at_ms : m.sent_at_ms < 2 ^ 64

abbrev pub IsUuid : ℕ → Type 0
IsUuid id = id < 2 ^ 128

abbrev pub IsU16 : ℕ → Type 0
IsU16 port = port < 2 ^ 16

abbrev pub IsU32 : ℕ → Type 0
IsU32 ip = ip < 2 ^ 32

abbrev pub FieldsFit : RelayMessage → Type 0
FieldsFit (discovery_request id port payload) = IsUuid id × IsU16 port
FieldsFit (discovery_to_host id ip port payload) = IsUuid id × IsU32 ip × IsU16 port
FieldsFit (discovery_response id host port payload) = IsUuid id × IsUuid host × IsU16 port
FieldsFit (discovery_to_client id ip port payload) = IsUuid id × IsU32 ip × IsU16 port
FieldsFit (gameplay_packet id port payload) = IsUuid id × IsU16 port
FieldsFit (gameplay_to_peer id ip port payload) = IsUuid id × IsU32 ip × IsU16 port
FieldsFit (relay_probe id) = IsUuid id × Unit {0}
FieldsFit (relay_probe_ack id) = IsUuid id × Unit {0}

abbrev pub payload_of : RelayMessage → List ℕ
payload_of (discovery_request id port payload) = payload
payload_of (discovery_to_host id ip port payload) = payload
payload_of (discovery_response id host port payload) = payload
payload_of (discovery_to_client id ip port payload) = payload
payload_of (gameplay_packet id port payload) = payload
payload_of (gameplay_to_peer id ip port payload) = payload
payload_of (relay_probe id) = []
payload_of (relay_probe_ack id) = []

abbrev pub PayloadFits : RelayMessage → Type 0
PayloadFits message = length (payload_of message) ≤ max_civ6_datagram_size

read_exact-append : {n : ℕ} (xs ys : List ℕ) → length xs ≡ n → read_exact n (xs ++ ys) ≡ ok (xs, ys)
unfolding read_exact
read_exact-append xs ys h = rw (← h, take-append, drop-append) (ground (arith, length-append xs ys))

read_u64-append : (x : ℕ) (ys : List ℕ) → x < 2 ^ 64 → read_u64 (to_be_bytes 8 x ++ ys) ≡ ok (x, ys)
unfolding read_u64
read_u64-append x ys h =
    rw (read_exact-append (to_be_bytes 8 x) ys (length-to_be_bytes 8 x))
      (rw (from_be_bytes-to_be_bytes 8 x h))

pub read_port-append :
    (x : ℕ) (ys : List ℕ) → IsU16 x → read_port (to_be_bytes 2 x ++ ys) ≡ ok (x, ys)
unfolding read_port
read_port-append x ys h =
    rw (read_exact-append (to_be_bytes 2 x) ys (length-to_be_bytes 2 x))
      (rw (from_be_bytes-to_be_bytes 2 x h))

pub read_ip-append : (x : ℕ) (ys : List ℕ) → IsU32 x → read_ip (to_be_bytes 4 x ++ ys) ≡ ok (x, ys)
unfolding read_ip
read_ip-append x ys h =
    rw (read_exact-append (to_be_bytes 4 x) ys (length-to_be_bytes 4 x))
      (unfold to_be_bytes in ground arith)

read_path-write_path :
    (path_id : Option ℕ) (rest : List ℕ)
    → read_path (write_path path_id ++ rest) ≡ ok (path_id, rest)
unfolding write_path read_u8 read_exact read_path path_of ℕ_discrete
read_path-write_path none rest = ground arith
read_path-write_path (some p) rest = ground arith

-- The metadata of a v2 envelope is read back, whatever follows it.
pub read_meta-write_meta :
    (m : RelayEnvelopeMeta) (rest : List ℕ)
    → MetaFits m
    → read_meta (write_meta [] m ++ rest) ≡ ok (m, rest)
unfolding write_meta read_meta
read_meta-write_meta m rest f = simp append_assoc (
    rw (read_u64-append _ _ f.sequence) (
      rw (read_u64-append _ _ f.connection_epoch)
        (rw (read_u64-append _ _ f.sent_at_ms) (rw read_path-write_path))))

module _ (uuid : UuidBytes) where
  pub read_id-append :
      (x : ℕ) (ys : List ℕ) → IsUuid x → read_id uuid (uuid.as_bytes x ++ ys) ≡ ok (x, ys)
  unfolding read_id
  read_id-append x ys h =
      rw (read_exact-append (uuid.as_bytes x) ys (uuid.length-as_bytes x))
        (rw (uuid.from_bytes-as_bytes x h))

  -- The layout of a message's fields on the wire.
  unfoldable pub fields : RelayMessage → List ℕ
  fields (discovery_request id port payload) = uuid.as_bytes id ++ (to_be_bytes 2 port ++ payload)
  fields (discovery_to_host id ip port payload) =
      uuid.as_bytes id ++ (to_be_bytes 4 ip ++ (to_be_bytes 2 port ++ payload))
  fields (discovery_response id host port payload) =
      uuid.as_bytes id ++ (uuid.as_bytes host ++ (to_be_bytes 2 port ++ payload))
  fields (discovery_to_client id ip port payload) =
      uuid.as_bytes id ++ (to_be_bytes 4 ip ++ (to_be_bytes 2 port ++ payload))
  fields (gameplay_packet id port payload) = uuid.as_bytes id ++ (to_be_bytes 2 port ++ payload)
  fields (gameplay_to_peer id ip port payload) =
      uuid.as_bytes id ++ (to_be_bytes 4 ip ++ (to_be_bytes 2 port ++ payload))
  fields (relay_probe id) = uuid.as_bytes id
  fields (relay_probe_ack id) = uuid.as_bytes id

  ruleset writers = (write_id, write_ip, write_port)

  -- A message whose payload fits is written as its fields, behind what the buffer holds.
  pub write_message-fields :
      (buffer : List ℕ) (message : RelayMessage)
      → PayloadFits message
      → write_message uuid buffer message ≡ ok (buffer ++ fields message)
  unfolding write_message write_payload write_id write_ip write_port fields
  write_message-fields buffer (discovery_request id port payload) h =
      simp append_assoc (ground arith)
  write_message-fields buffer (relay_probe id) h = refl
  write_message-fields buffer (relay_probe_ack id) h = refl
  write_message-fields buffer _ h = simp append_assoc (ground arith)

  -- A message whose payload is too long is refused.
  pub write_message-err :
      (buffer : List ℕ) (message : RelayMessage)
      → max_civ6_datagram_size < length (payload_of message)
      → write_message uuid buffer message ≡ err (invalid_packet payload_too_large)
  unfolding write_message write_payload
  write_message-err buffer (relay_probe id) h = absurd (omega arith)
  write_message-err buffer _ h = ground arith

  read_payload-all :
      (payload : List ℕ)
      → length payload ≤ max_civ6_datagram_size
      → read_payload payload ≡ ok (payload, [])
  unfolding read_payload
  read_payload-all payload h = ground arith

  -- The fields of a message are read back, with nothing left over.
  pub read_message-fields :
      (message : RelayMessage)
      → FieldsFit message
      → PayloadFits message
      → read_message uuid (kind message) (fields message) ≡ ok (message, [])
  unfolding read_message read_request read_to_host read_response read_to_client read_gameplay
      read_to_peer read_probe read_probe_ack fields ℕ_discrete
  read_message-fields (discovery_request id port payload) f h =
      rw (read_id-append id _ f.0)
        (rw (read_port-append port _ f.1) (rw (read_payload-all payload h)))
  read_message-fields (discovery_to_host id ip port payload) f h = rw (read_id-append id _ f.0) (
      rw (read_ip-append ip _ f.1)
        (rw (read_port-append port _ f.2) (rw (read_payload-all payload h))))
  read_message-fields (discovery_response id host port payload) f h = rw (read_id-append id _ f.0) (
      rw (read_id-append host _ f.1)
        (rw (read_port-append port _ f.2) (rw (read_payload-all payload h))))
  read_message-fields (discovery_to_client id ip port payload) f h = rw (read_id-append id _ f.0) (
      rw (read_ip-append ip _ f.1)
        (rw (read_port-append port _ f.2) (rw (read_payload-all payload h))))
  read_message-fields (gameplay_packet id port payload) f h =
      rw (read_id-append id _ f.0)
        (rw (read_port-append port _ f.1) (rw (read_payload-all payload h)))
  read_message-fields (gameplay_to_peer id ip port payload) f h = rw (read_id-append id _ f.0) (
      rw (read_ip-append ip _ f.1)
        (rw (read_port-append port _ f.2) (rw (read_payload-all payload h))))
  read_message-fields (relay_probe id) f h =
      rw (← append-nil (uuid.as_bytes id)) (rw (read_id-append id [] f.0))
  read_message-fields (relay_probe_ack id) f h =
      rw (← append-nil (uuid.as_bytes id)) (rw (read_id-append id [] f.0))

  -- The fields take at most 34 bytes beside the payload.
  pub length-fields-le :
      (message : RelayMessage) → length (fields message) ≤ 34 + length (payload_of message)
  unfolding fields
  length-fields-le (relay_probe id) = omega (arith, uuid.length-as_bytes)
  length-fields-le _ = omega (arith, length-append {0}, length-to_be_bytes, uuid.length-as_bytes)
