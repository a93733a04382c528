-- ===== src/Client.antt =====
-- crates/client-core/src/lib.rs: the client's errors, its configuration and its relay transport.
pub mod Control
pub mod Relay
pub mod Session
pub mod Samples
pub mod Backoff
pub mod Probe
pub mod Sending
pub mod Reconnect
use civ6_lan_bridge.Prelude.{
  ℕ, ◌+◌, ◌-◌, ◌<◌, zero, suc, ◌==◌, Bool, true, false, not, if◌then◌else◌, nat_key, length, take,
  Option, none, some, List, [], ◌∷◌, Result, ok, err,
}
use civ6_lan_bridge.Protocol.Relay.{
  RelayMessage, RelayEnvelopeMeta, RelayEnvelope, RelayCodecError, max_relay_datagram_size,
}
use civ6_lan_bridge.Protocol.Relay.Codec.{UuidBytes, encode, decode}
use civ6_lan_bridge.Router.State.{Instant, Duration}

abbrev pub default_relay_port : ℕ
default_relay_port = 32000

pub data ClientError : Type 0 where
  http : ClientError
  http_status : ℕ → List ℕ → ClientError
  relay_codec : RelayCodecError → ClientError
  relay_io relay_timeout : ClientError
  relay_payload_too_large : ℕ → ℕ → ClientError
  invalid_response : ClientError

pub record ClientConfig : Type 0 where
  pub control_url : List ℕ
  pub bearer_token : List ℕ
  pub relay_ip : ℕ
  pub relay_port : ℕ

unfoldable pub ends_with_slash : List ℕ → Bool
ends_with_slash [] = false
ends_with_slash (c ∷ []) = c == b'/'
ends_with_slash (c ∷ d ∷ text) = ends_with_slash (d ∷ text)

-- `String::pop`, for its effect
unfoldable pub pop : List ℕ → List ℕ
pop [] = []
pop (c ∷ []) = []
pop (c ∷ d ∷ text) = c ∷ pop (d ∷ text)

-- The loop of `normalize_control_url`, on fuel
unfoldable pub pop_slashes : ℕ → List ℕ → List ℕ
pop_slashes zero text = text
pop_slashes (suc fuel) text =
    let rest = pop_slashes fuel (pop text) in if ends_with_slash text then rest else text

unfoldable pub normalize_control_url : ClientConfig → ClientConfig
normalize_control_url config = record config {
  control_url = pop_slashes (length config.control_url) config.control_url;
}

-- What comes of waiting for a datagram
pub data Received : Type 0 where
  datagram : List ℕ → Received
  timed_out failed : Received

-- What the session uses of what it runs on: the transport, whose `receive` ends by the given
-- timeout; the clock, in milliseconds; the random identifiers.
pub record Net : Type 1 where
  pub Outside : Type 0
  pub path_id : Option ℕ
  pub send_packet : List ℕ → Outside → Bool × Outside
  pub receive_packet : Duration → Outside → Received × Outside
  pub now : Outside → Instant
  pub sleep : Duration → Outside → Outside
  pub system_time : Outside → Option ℕ
  pub new_request_id : Outside → ℕ × Outside

abbrev pub of_codec {ℓ} : {A : Type ℓ} → Result RelayCodecError A → Result ClientError A
of_codec (ok a) = ok a
of_codec (err e) = err (relay_codec e)

module _ (uuid : UuidBytes) (net : Net) where
  abbrev pub sent : Bool × net.Outside → Result ClientError (Unit {0}) × net.Outside
  sent (true, o) = (ok tt, o)
  sent (false, o) = (err relay_io, o)

  -- `RelayClient::send_envelope`
  unfoldable pub send_envelope :
      RelayMessage → RelayEnvelopeMeta → net.Outside → Result ClientError (Unit {0}) × net.Outside
  send_envelope message meta o = elim (encode uuid (record { meta = meta; message = message })) [
    | err e ↦ (err (relay_codec e), o)
    | ok packet ↦ sent (net.send_packet packet o)
  ]

  abbrev pub decoded : Received × net.Outside → Result ClientError RelayEnvelope × net.Outside
  decoded (datagram packet, o) = (of_codec (decode uuid (take max_relay_datagram_size packet)), o)
  decoded (timed_out, o) = (err relay_timeout, o)
  decoded (failed, o) = (err relay_io, o)

  -- `RelayClient::receive_envelope` under `tokio::time::timeout`
  unfoldable pub receive_envelope :
      Duration → net.Outside → Result ClientError RelayEnvelope × net.Outside
  receive_envelope timeout o = decoded (net.receive_packet timeout o)
