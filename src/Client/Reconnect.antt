-- ===== src/Client/Reconnect.antt =====
-- crates/client-core/src/lib.rs: `run_with_reconnect`, as steps. Between its two loops stand two
-- phases: the next probe, and the next try to reconnect.
pub mod Resumption
pub mod Phases
use civ6_lan_bridge.Prelude.{
  ℕ, zero, suc, ◌+◌, ◌-◌, ◌≤◌, ◌<◌, ◌≡◌, ◌≢◌, ◌⊎◌, inl, inr, ◌↔◌, refl, sym, ap, subst, ◌∙◌, min,
  Bool, true, false, leb, if◌then◌else◌, length, drop, Option, none, some, Result, ok, err, List,
  [], ◌∷◌, ◌++◌, arith,
}
use civ6_lan_bridge.Protocol.Relay.Codec.{UuidBytes}
use civ6_lan_bridge.Router.State.{Instant, Duration}
use civ6_lan_bridge.Client.{ClientError, Net}
use civ6_lan_bridge.Client.Session.{
  RelaySession, RelaySessionConfig, RelaySessionSnapshot, RelayConnectionState, disconnected,
  connecting, authenticated, room_joined, healthy, degraded, reconnecting, resynced, in_state,
  record_probe_failure, reconnect_delay, u32_max, with_config,
}
use civ6_lan_bridge.Client.Probe.{Ran, probe_once}

pub data Phase : Type 0 where
  probing backing_off : Phase

-- What a probe that succeeded makes of the state
abbrev pub settled_from : RelayConnectionState → RelaySession → RelaySession
settled_from resynced session = in_state healthy session
settled_from room_joined session = in_state healthy session
settled_from disconnected session = session
settled_from connecting session = session
settled_from authenticated session = session
settled_from healthy session = session
settled_from degraded session = session
settled_from reconnecting session = session

abbrev pub count_attempt : RelaySession → RelaySession
count_attempt session = record session {
  snapshot = record session.snapshot {
    reconnect_attempts = min (session.snapshot.reconnect_attempts + 1) u32_max;
  };
}

unfoldable pub resync : ℕ → RelaySession → RelaySession
resync connection_epoch session = record session {
  snapshot = record session.snapshot {
    connection_epoch = connection_epoch;
    consecutive_probe_failures = 0;
    reconnect_attempts = 0;
    state = resynced;
  };
  next_sequence = 0;
}

module _ (uuid : UuidBytes) (net : Net) where
  abbrev pub Running : Type 0
  Running = Phase × (RelaySession × net.Outside)

  abbrev pub after_failure : Bool × RelaySession → net.Outside → Running
  after_failure (true, session) o = (backing_off, (session, o))
  after_failure (false, session) o = (probing, (session, net.sleep session.config.probe_interval o))

  -- The arms of the outer loop
  abbrev pub after_probe : Option (Ran uuid net Duration) → Option Running
  after_probe none = none
  after_probe (some (ok rtt, (session, o))) = some (
    probing,
    (settled_from session.snapshot.state session, net.sleep session.config.probe_interval o),
  )
  after_probe (some (err error, (session, o))) =
      some (after_failure (record_probe_failure session) o)

  -- The arms of the inner loop
  abbrev pub after_reconnect : RelaySession → Result ClientError ℕ × net.Outside → Running
  after_reconnect session (ok connection_epoch, o) = (probing, (resync connection_epoch session, o))
  after_reconnect session (err error, o) = (backing_off, (session, o))

  -- One round of the loop that the run is in. `reconnect` is the caller's; the fuel is a probe's.
  unfoldable pub run_step :
      (RelaySessionSnapshot → net.Outside → Result ClientError ℕ × net.Outside)
      → ℕ
      → Running
      → Option Running
  run_step reconnect fuel (probing, (session, o)) = after_probe (probe_once uuid net fuel session o)
  run_step reconnect fuel (backing_off, (session, o)) =
      let waiting = in_state reconnecting session in
      let tried = count_attempt waiting in
      some
        (after_reconnect tried (reconnect tried.snapshot (net.sleep (reconnect_delay waiting) o)))

-- A number of probes that fail in a row
unfoldable pub fail_times : ℕ → RelaySession → RelaySession
fail_times zero session = session
fail_times (suc n) session = (record_probe_failure (fail_times n session)).1

record_probe_failure_lem :
    (session : RelaySession)
    → ((record_probe_failure session).1.config ≡ session.config)
      × ((record_probe_failure session).1.snapshot.consecutive_probe_failures
          ≡ min (session.snapshot.consecutive_probe_failures + 1) u32_max)
      × ((record_probe_failure session).0
          ≡ leb session.config.degraded_after_failures
              (min (session.snapshot.consecutive_probe_failures + 1) u32_max))
unfolding record_probe_failure
record_probe_failure_lem session = (ground arith, ground arith, ground arith)

fail_times_lem :
    (n : ℕ) (session : RelaySession)
    → session.snapshot.consecutive_probe_failures ≡ 0
    → ((fail_times n session).config ≡ session.config)
      × ((fail_times n session).snapshot.consecutive_probe_failures ≡ min n u32_max)
unfolding fail_times
fail_times_lem zero session none_yet = (refl, ground (arith, none_yet))
fail_times_lem (suc n) session none_yet =
    let (config, failures) = fail_times_lem n session none_yet in
    let (config', failures', _) = record_probe_failure_lem (fail_times n session) in
    (config' ∙ config, ground (arith, failures, failures'))

-- From no failure on, a failing probe is reported as the end of the connection exactly if the
-- failures in a row, this one included, are at least as many as configured, for fewer than 2^32
-- - 1 failures before it.
pub record_probe_failure_iff :
    (n : ℕ) (session : RelaySession)
    → session.snapshot.consecutive_probe_failures ≡ 0
    → n < u32_max
    → ((record_probe_failure (fail_times n session)).0 ≡ true)
      ↔ (session.config.degraded_after_failures ≤ n + 1)
record_probe_failure_iff n session none_yet bound =
    let (config, failures) = fail_times_lem n session none_yet in
    let threshold = ap (λ (c : RelaySessionConfig). c.degraded_after_failures) config in
    let (_, _, verdict) = record_probe_failure_lem (fail_times n session) in
    (
      λ h. ground (arith, failures, threshold, verdict),
      λ h. ground (arith, failures, threshold, verdict),
    )
