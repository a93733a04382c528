-- ===== src/Tests/Clients.antt =====
-- The theorems on the client's session, on a transport that loses every packet.
use civ6_lan_bridge.Prelude.{
  ℕ, ◌+◌, ◌*◌, ◌<◌, ◌≤◌, ◌≡◌, ◌↔◌, refl, arith, true, nat_key, Option, none, some, ok, [], ◌∷◌,
  Result, ℕ_discrete,
}
use civ6_lan_bridge.Prelude.HashMap
use civ6_lan_bridge.Protocol.Relay.{RelayMessage, discovery_request}
use civ6_lan_bridge.Server.Metrics.{RelayMetrics, default_metrics, record_sequence, new_sequence}
use civ6_lan_bridge.Client.{Net, ClientError, ClientConfig, datagram, timed_out}
use civ6_lan_bridge.Client.Control.{
  Http, HttpRequest, delete_method, chars, is_success, read_reply, request_empty, delete_peer,
}
use civ6_lan_bridge.Client.Session.{
  RelaySession, RelaySessionSnapshot, in_state, reconnecting, default_config, with_config,
  new_snapshot, mark_room_joined, record_probe_success, record_probe_failure, reconnect_delay,
  next_envelope_meta,
}
use civ6_lan_bridge.Client.Samples.{Summed, record_probe_success-Summed}
use civ6_lan_bridge.Client.Backoff.{attempts_made, reconnect_delay_bounds}
use civ6_lan_bridge.Client.Probe.{Ran}
use civ6_lan_bridge.Client.Sending.{
  Monotonic, Pauses, Spaced, send_discovery_with_retry, send_discovery_with_retry_ends,
}
use civ6_lan_bridge.Client.Reconnect.{
  probing, backing_off, Running, run_step, resync, count_attempt, fail_times,
  record_probe_failure_iff,
}
use civ6_lan_bridge.Client.Reconnect.Resumption.{after_envelopes, reconnected_envelopes}
use civ6_lan_bridge.Client.Reconnect.Phases.{Sound, run_step-Sound}
use civ6_lan_bridge.Tests.Packets.{uuid_bytes, encoded}

-- What is outside is the clock.
abbrev net : Net
net = record {
  Outside = ℕ;
  path_id = some 1;
  send_packet = λ packet clock. (true, clock);
  receive_packet = λ timeout clock. (timed_out, clock + timeout + 1);
  now = λ clock. clock;
  sleep = λ pause clock. clock + pause;
  system_time = λ clock. none;
  new_request_id = λ clock. (7, clock);
}

clock : Monotonic uuid_bytes net
clock = record { sending = λ packet o. omega arith }

pauses : Pauses uuid_bytes net
pauses = record { sleeping = λ pause o. omega arith }

abbrev session : RelaySession
session = mark_room_joined (with_config 1 default_config)

record_probe_success-Summed_example :
    Summed (record_probe_success 40 (with_config 1 default_config))
record_probe_success-Summed_example =
    record_probe_success-Summed (with_config 1 default_config) 40
      (unfold with_config in omega arith)

reconnect_delay_bounds_example :
    (reconnect_delay (attempts_made (with_config 1 default_config) 6)
      ≤ (with_config 1 default_config).config.reconnect_max_backoff)
    × (reconnect_delay (attempts_made (with_config 1 default_config) 6)
        ≤ reconnect_delay (attempts_made (with_config 1 default_config) (6 + 1)))
    × (reconnect_delay (attempts_made (with_config 1 default_config) (6 + 1))
        ≤ 2 * reconnect_delay (attempts_made (with_config 1 default_config) 6))
    × (5 ≤ 6
        → reconnect_delay (attempts_made (with_config 1 default_config) 6)
          ≡ reconnect_delay (attempts_made (with_config 1 default_config) 5))
reconnect_delay_bounds_example = reconnect_delay_bounds (with_config 1 default_config) 6

-- A transport on which the packet of another's envelope comes in at once, however often
abbrev flooding : Net
flooding = record net { receive_packet = λ timeout clock. (datagram encoded.0, clock) }

abbrev ask : RelayMessage
ask = discovery_request 70 62900 (1 ∷ 2 ∷ [])

send_discovery_with_retry_ends_example :
    (ran : Ran uuid_bytes net ℕ) × (send_discovery_with_retry uuid_bytes net
        (session.config.discovery_retry_window + 1)
        ask
        session
        10
      ≡ some ran)
    × Spaced uuid_bytes net session ran.0
send_discovery_with_retry_ends_example =
    send_discovery_with_retry_ends uuid_bytes net clock pauses ask session 10
      (unfold with_config mark_room_joined in omega arith)

record_probe_failure_iff_example :
    ((record_probe_failure (fail_times 2 session)).0 ≡ true)
    ↔ (session.config.degraded_after_failures ≤ 2 + 1)
record_probe_failure_iff_example =
    record_probe_failure_iff 2 session (unfold with_config mark_room_joined new_snapshot in refl)
      (omega arith)

abbrev reconnect : RelaySessionSnapshot → ℕ → Result ClientError ℕ × ℕ
reconnect snapshot clock = (ok 2, clock)

abbrev lost : RelaySession
lost = fail_times 3 session

abbrev back : RelaySession
back = resync 2 (count_attempt (in_state reconnecting lost))

abbrev clock_then : ℕ
clock_then = 10 + reconnect_delay (in_state reconnecting lost)

resumed :
    run_step uuid_bytes net reconnect 800 (backing_off, (lost, 10))
    ≡ some (probing, (back, clock_then))
unfolding run_step resync
resumed = refl

abbrev metrics : RelayMetrics
metrics = (record_sequence (default_metrics 0) 1 40).1

tracked : HashMap.get metrics.sequence_tracker 1 ≡ some 40
unfolding record_sequence default_metrics HashMap.get HashMap.lookup HashMap.insert HashMap.without
    HashMap.new HashMap.len ℕ_discrete
tracked = refl

reconnected_envelopes_example :
    ((record_sequence metrics 1
        (next_envelope_meta none net.path_id
          (after_envelopes none net.path_id 39 back)).0.sequence).0
      ≡ new_sequence)
    ↔ (40 < 39 + 1)
reconnected_envelopes_example =
    reconnected_envelopes uuid_bytes net reconnect metrics 1 40 800 lost back 10 clock_then none 39
      resumed tracked (omega arith)

abbrev before : Running uuid_bytes net
before = (backing_off, (lost, 10))

before-Sound : Sound uuid_bytes net before
unfolding fail_times record_probe_failure with_config mark_room_joined new_snapshot
before-Sound = record { window = omega arith; phase = (omega arith, tt) }

run_step-Sound_example : Sound uuid_bytes net (probing, (back, clock_then))
run_step-Sound_example =
    run_step-Sound uuid_bytes net reconnect 800 before (probing, (back, clock_then)) before-Sound
      resumed

-- A web that keeps the request that it was last sent, and answers with `204 No Content`
abbrev web : Http
web = record {
  Web = Option HttpRequest;
  perform = λ request w. (some (record { response_status = 204; content = [] }), some request);
  read_health = λ content. none;
  read_auth = λ content. none;
  read_room = λ content. none;
  read_peer = λ content. none;
  read_host = λ content. none;
  read_gameplay = λ content. none;
  read_metrics = λ content. none;
  read_message = λ content. none;
  id_text = λ id. id ∷ [];
}

abbrev local : ClientConfig
local = record {
  control_url = chars "http://bridge";
  bearer_token = chars "abc";
  relay_ip = 1;
  relay_port = 32000;
}

peer_deleted : delete_peer web local (chars "ROOM22") b'7' none ≡ (
  ok tt,
  some (record {
    method = delete_method;
    url = chars "http://bridge/v1/rooms/ROOM22/peers/7";
    bearer = chars "abc";
    json = none;
  }),
)
unfolding delete_peer request_empty read_reply is_success chars
peer_deleted = refl
