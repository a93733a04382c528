-- ===== src/Client/Session.antt =====
-- crates/client-core/src/lib.rs: `RelaySession`, its state and what changes it.
use civ6_lan_bridge.Prelude.{
  ℕ, zero, suc, ◌+◌, ◌-◌, ◌*◌, ◌/◌, ◌^◌, min, max, Bool, true, false, leb, ltb, if◌then◌else◌,
  length, drop, Option, none, some, List, [], ◌∷◌, ◌++◌, Result, ok, err,
}
use civ6_lan_bridge.Protocol.Relay.{
  RelayMessage, discovery_request, discovery_to_host, discovery_response, discovery_to_client,
  gameplay_packet, gameplay_to_peer, relay_probe, relay_probe_ack, RelayEnvelopeMeta, new_meta,
  default_safe_relay_payload_size,
}
use civ6_lan_bridge.Router.State.{Duration}
use civ6_lan_bridge.Client.{ClientError, relay_payload_too_large}

pub data RelayConnectionState : Type 0 where
  disconnected connecting authenticated room_joined healthy degraded reconnecting resynced :
      RelayConnectionState

-- Durations are in milliseconds.
pub record RelaySessionConfig : Type 0 where
  pub probe_interval : Duration
  pub probe_timeout : Duration
  pub degraded_after_failures : ℕ
  pub reconnect_initial_backoff : Duration
  pub reconnect_max_backoff : Duration
  pub discovery_retry_interval : Duration
  pub discovery_retry_window : Duration
  pub safe_payload_size : ℕ
  pub path_id : Option ℕ

abbrev pub default_config : RelaySessionConfig
default_config = record {
  probe_interval = 2000;
  probe_timeout = 750;
  degraded_after_failures = 3;
  reconnect_initial_backoff = 250;
  reconnect_max_backoff = 8000;
  discovery_retry_interval = 250;
  discovery_retry_window = 5000;
  safe_payload_size = default_safe_relay_payload_size;
  path_id = none;
}

pub record RelaySessionSnapshot : Type 0 where
  pub state : RelayConnectionState
  pub consecutive_probe_failures : ℕ
  pub reconnect_attempts : ℕ
  pub connection_epoch : ℕ
  pub last_rtt_ms : Option ℕ
  pub rtt_p50_ms : Option ℕ
  pub rtt_p95_ms : Option ℕ

unfoldable pub new_snapshot : ℕ → RelaySessionSnapshot
new_snapshot connection_epoch = record {
  state = disconnected;
  consecutive_probe_failures = 0;
  reconnect_attempts = 0;
  connection_epoch = connection_epoch;
  last_rtt_ms = none;
  rtt_p50_ms = none;
  rtt_p95_ms = none;
}

-- The session without its client, which is an argument of what sends and receives.
pub record RelaySession : Type 0 where
  pub config : RelaySessionConfig
  pub snapshot : RelaySessionSnapshot
  pub next_sequence : ℕ
  pub rtt_samples_ms : List ℕ

unfoldable pub with_config : ℕ → RelaySessionConfig → RelaySession
with_config connection_epoch config = record {
  config = config;
  snapshot = new_snapshot connection_epoch;
  next_sequence = 0;
  rtt_samples_ms = [];
}

abbrev pub in_state : RelayConnectionState → RelaySession → RelaySession
in_state state session = record session { snapshot = record session.snapshot { state = state } }

unfoldable pub mark_authenticated : ℕ → RelaySession → RelaySession
mark_authenticated connection_epoch session = record session {
  snapshot = record session.snapshot { connection_epoch = connection_epoch; state = authenticated };
}

unfoldable pub mark_room_joined : RelaySession → RelaySession
mark_room_joined session = in_state room_joined session

unfoldable pub mark_disconnected : RelaySession → RelaySession
mark_disconnected session = in_state disconnected session

abbrev pub u32_max : ℕ
u32_max = 2 ^ 32 - 1

abbrev pub u64_max : ℕ
u64_max = 2 ^ 64 - 1

unfoldable pub record_probe_failure : RelaySession → Bool × RelaySession
record_probe_failure session =
    let failures = min (session.snapshot.consecutive_probe_failures + 1) u32_max in
    let counted = record session {
      snapshot = record session.snapshot { consecutive_probe_failures = failures };
    } in
    if leb session.config.degraded_after_failures failures
    then (true, in_state degraded counted)
    else (false, counted)

-- `Duration::MAX`, in milliseconds
abbrev pub duration_max : Duration
duration_max = (2 ^ 64 - 1) * 1000 + 999

unfoldable pub reconnect_delay : RelaySession → Duration
reconnect_delay session =
    let attempt = min session.snapshot.reconnect_attempts 5 in
    min (min (session.config.reconnect_initial_backoff * 2 ^ attempt) duration_max)
      session.config.reconnect_max_backoff

abbrev pub or_else {ℓ} : {A : Type ℓ} → Option A → Option A → Option A
or_else none other = other
or_else (some a) other = some a

-- With what the system's clock reads, and the path that the client names
unfoldable pub next_envelope_meta :
    Option ℕ → Option ℕ → RelaySession → RelayEnvelopeMeta × RelaySession
next_envelope_meta clock client_path session =
    let sequence = max (min (session.next_sequence + 1) u64_max) 1 in
    (
      new_meta clock sequence session.snapshot.connection_epoch
          (or_else session.config.path_id client_path),
      record session { next_sequence = sequence },
    )

-- `sort_unstable`
unfoldable pub insert_sorted : ℕ → List ℕ → List ℕ
insert_sorted a [] = a ∷ []
insert_sorted a (b ∷ rest) =
    let later = insert_sorted a rest in if leb a b then a ∷ b ∷ rest else b ∷ later

unfoldable pub sort : List ℕ → List ℕ
sort [] = []
sort (a ∷ rest) = insert_sorted a (sort rest)

-- `get(..).copied()`
unfoldable pub get_elem? : List ℕ → ℕ → Option ℕ
get_elem? [] i = none
get_elem? (a ∷ rest) zero = some a
get_elem? (a ∷ rest) (suc i) = get_elem? rest i

abbrev pub make_room : List ℕ → List ℕ
make_room samples = if leb 128 (length samples) then drop 1 samples else samples

unfoldable pub record_probe_success : Duration → RelaySession → RelaySession
record_probe_success rtt session =
    let rtt_ms = min rtt u64_max in
    let kept = make_room session.rtt_samples_ms ++ (rtt_ms ∷ []) in
    let samples = sort kept in
    record session {
      rtt_samples_ms = kept;
      snapshot = record session.snapshot {
        consecutive_probe_failures = 0;
        last_rtt_ms = some rtt_ms;
        rtt_p50_ms = get_elem? samples ((length samples - 1) * 50 / 100);
        rtt_p95_ms = get_elem? samples ((length samples - 1) * 95 / 100);
      };
    }

unfoldable pub payload_size : RelayMessage → ℕ
payload_size (discovery_request _ _ payload) = length payload
payload_size (discovery_to_host _ _ _ payload) = length payload
payload_size (discovery_response _ _ _ payload) = length payload
payload_size (discovery_to_client _ _ _ payload) = length payload
payload_size (gameplay_packet _ _ payload) = length payload
payload_size (gameplay_to_peer _ _ _ payload) = length payload
payload_size (relay_probe _) = 0
payload_size (relay_probe_ack _) = 0

unfoldable pub ensure_safe_payload : RelayMessage → RelaySession → Result ClientError (Unit {0})
ensure_safe_payload message session =
    if ltb session.config.safe_payload_size (payload_size message)
    then err (relay_payload_too_large (payload_size message) session.config.safe_payload_size)
    else ok tt
