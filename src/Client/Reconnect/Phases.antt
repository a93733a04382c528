-- ===== src/Client/Reconnect/Phases.antt =====
-- crates/client-core/src/lib.rs: what holds of a `RelaySession` throughout `run_with_reconnect`.
use civ6_lan_bridge.Prelude.{
  ℕ, zero, suc, ◌+◌, ◌-◌, ◌≤◌, ◌<◌, ◌≡◌, ◌⊎◌, inl, inr, refl, sym, ap, subst, min, Bool, true,
  false, leb, ltb, if◌then◌else◌, length, Option, none, some, Result, ok, err, arith,
}
use civ6_lan_bridge.Protocol.Relay.{RelayEnvelope}
use civ6_lan_bridge.Protocol.Relay.Codec.{UuidBytes}
use civ6_lan_bridge.Router.State.{Instant, Duration}
use civ6_lan_bridge.Client.{ClientError, relay_timeout, Net, receive_envelope}
use civ6_lan_bridge.Client.Session.{
  RelaySession, RelaySessionConfig, RelaySessionSnapshot, RelayConnectionState, disconnected,
  connecting, authenticated, room_joined, healthy, degraded, reconnecting, resynced, in_state,
  record_probe_failure, u32_max, record_probe_success, next_envelope_meta,
}
use civ6_lan_bridge.Client.Samples.{record_probe_success-Summed}
use civ6_lan_bridge.Client.Probe.{
  Ran, probe_once, await_ack, on_response, then_await, started_from, acknowledges,
}
use civ6_lan_bridge.Client.Reconnect.{
  Phase, probing, backing_off, Running, run_step, after_failure, after_probe, after_reconnect,
  resync, count_attempt, settled_from,
}

-- The states of a session that is on its way to reconnect
abbrev pub Lost : RelayConnectionState → Type 0
Lost degraded = Unit
Lost reconnecting = Unit
Lost disconnected = ⊥
Lost connecting = ⊥
Lost authenticated = ⊥
Lost room_joined = ⊥
Lost healthy = ⊥
Lost resynced = ⊥

some_inv : {A : Type 0} {a b : A} → some a ≡ some b → a ≡ b
some_inv e = cc

-- How a probe leaves the session that it was begun with
record Probed (before : RelaySession) (result : Result ClientError Duration) (after : RelaySession)
    : Type 0 where
  config : after.config ≡ before.config
  state : after.snapshot.state ≡ before.snapshot.state
  window : length before.rtt_samples_ms ≤ 128 → length after.rtt_samples_ms ≤ 128
  failures :
      (after.snapshot.consecutive_probe_failures ≡ 0)
      ⊎ (after.snapshot.consecutive_probe_failures ≡ before.snapshot.consecutive_probe_failures)

unharmed : (session : RelaySession) (e : ClientError) → Probed session (err e) session
unharmed session e = record { config = refl; state = refl; window = λ h. h; failures = inr refl }

acknowledged :
    (session : RelaySession) (rtt : Duration)
    → Probed session (ok rtt) (record_probe_success rtt session)
unfolding record_probe_success
acknowledged session rtt = record {
  config = refl;
  state = refl;
  window = λ h. (record_probe_success-Summed session rtt h).size.1;
  failures = inl refl;
}

-- What the phase says of the failures and the state
abbrev pub OfPhase : Phase → RelaySession → Type 0
OfPhase probing session =
    ((session.snapshot.consecutive_probe_failures ≡ 0)
      ⊎ (session.snapshot.consecutive_probe_failures < session.config.degraded_after_failures))
    × ¬ (Lost session.snapshot.state)
OfPhase backing_off session =
    (session.config.degraded_after_failures ≤ session.snapshot.consecutive_probe_failures)
    × Lost session.snapshot.state

module _ (uuid : UuidBytes) (net : Net) where
  abbrev After : RelaySession → Option (Ran uuid net Duration) → Type 0
  After session none = Unit
  After session (some (result, (session', o))) = Probed session result session'

  await_ack-Probed :
      (fuel request_id : ℕ) (started : Instant) (session : RelaySession) (o : net.Outside)
      → After session (await_ack uuid net fuel request_id started session o)
  unfolding await_ack
  await_ack-Probed zero request_id started session o = tt
  await_ack-Probed (suc fuel) request_id started session o =
      go (ltb session.config.probe_timeout (net.now o - started))
        (λ o'. await_ack-Probed fuel request_id started session o')
    where
      again : net.Outside → Option (Ran uuid net Duration)
      again o' = await_ack uuid net fuel request_id started session o'

      settle :
          (t : Bool) (o' : net.Outside)
          → ((o' : net.Outside) → After session (again o'))
          → After session (elim t as (λ _. Option (Ran uuid net Duration)) [
            | true ↦ some (
              ok (net.now o' - started),
              (record_probe_success (net.now o' - started) session, o'),
            )
            | false ↦ again o'
          ])
      settle true o' rest = acknowledged session (net.now o' - started)
      settle false o' rest = rest o'

      respond :
          (r : Result ClientError RelayEnvelope × net.Outside)
          → ((o' : net.Outside) → After session (again o'))
          → After session (on_response uuid net request_id started session again r)
      respond (err e, o') rest = unharmed session e
      respond (ok envelope, o') rest = settle (acknowledges request_id envelope.message) o' rest

      go :
          (t : Bool)
          → ((o' : net.Outside) → After session (again o'))
          → After session (elim t as (λ _. Option (Ran uuid net Duration)) [
            | true ↦ some (err relay_timeout, (session, o))
            | false ↦
                on_response uuid net request_id started session again (
                  receive_envelope uuid net
                    (session.config.probe_timeout - (net.now o - started))
                    o)
          ])
      go true rest = unharmed session relay_timeout
      go false rest = respond _ rest

  then_await-Probed :
      (fuel request_id : ℕ) (started : Instant) (session : RelaySession)
      (r : Result ClientError (Unit {0}) × net.Outside)
      → After session (then_await uuid net fuel request_id started session r)
  then_await-Probed fuel request_id started session (err e, o) = unharmed session e
  then_await-Probed fuel request_id started session (ok _, o) =
      await_ack-Probed fuel request_id started session o

  -- Between two rounds: a window of at most 128 samples; while it probes, fewer failures in a row
  -- than configured, and a state that is neither degraded nor reconnecting; while it backs off, as
  -- many failures as configured, and one of those two states.
  pub record Sound (running : Running uuid net) : Type 0 where
    pub window : length running.1.0.rtt_samples_ms ≤ 128
    pub phase : OfPhase running.0 running.1.0

  begun :
      (state : RelayConnectionState) (session : RelaySession)
      → session.snapshot.state ≡ state
      → OfPhase probing session
      → length session.rtt_samples_ms ≤ 128
      → OfPhase probing (started_from state session)
        × (length (started_from state session).rtt_samples_ms ≤ 128)
  begun disconnected session e sound h = ((sound.0, λ lost. lost), h)
  begun connecting session e sound h = (sound, h)
  begun authenticated session e sound h = (sound, h)
  begun room_joined session e sound h = (sound, h)
  begun healthy session e sound h = (sound, h)
  begun degraded session e sound h = (sound, h)
  begun reconnecting session e sound h = (sound, h)
  begun resynced session e sound h = (sound, h)

  settled :
      (state : RelayConnectionState) (session : RelaySession)
      → OfPhase probing session
      → OfPhase probing (settled_from state session)
        × ((settled_from state session).rtt_samples_ms ≡ session.rtt_samples_ms)
  settled resynced session sound = ((sound.0, λ lost. lost), refl)
  settled room_joined session sound = ((sound.0, λ lost. lost), refl)
  settled disconnected session sound = (sound, refl)
  settled connecting session sound = (sound, refl)
  settled authenticated session sound = (sound, refl)
  settled healthy session sound = (sound, refl)
  settled degraded session sound = (sound, refl)
  settled reconnecting session sound = (sound, refl)

  failed-Sound :
      (session : RelaySession) (o : net.Outside)
      → OfPhase probing session
      → length session.rtt_samples_ms ≤ 128
      → Sound (after_failure uuid net (record_probe_failure session) o)
  unfolding record_probe_failure
  failed-Sound session o sound h =
      go
        (leb session.config.degraded_after_failures
          (min (session.snapshot.consecutive_probe_failures + 1) u32_max))
        refl
    where
      counted : RelaySession
      counted = record session {
        snapshot = record session.snapshot {
          consecutive_probe_failures =
              min (session.snapshot.consecutive_probe_failures + 1) u32_max;
        };
      }

      go :
          (t : Bool)
          → leb session.config.degraded_after_failures
              (min (session.snapshot.consecutive_probe_failures + 1) u32_max)
            ≡ t
          → Sound (
              after_failure uuid net
                (if t then (true, in_state degraded counted) else (false, counted))
                o)
      go true e = record { window = h; phase = (ground arith, tt) }
      go false e = record { window = h; phase = (inr (ground arith), sound.1) }

  carried :
      (before session : RelaySession) (result : Result ClientError Duration)
      → Probed before result session
      → OfPhase probing before
      → OfPhase probing session
  carried before session result probed (few, calm) = (
    ground (
      arith,
      few,
      probed.failures,
      ap (λ (c : RelaySessionConfig). c.degraded_after_failures) probed.config,
    ),
    subst (λ state. ¬ (Lost state)) (sym probed.state) calm,
  )

  probed-Sound :
      (before : RelaySession) (ran : Option (Ran uuid net Duration)) (running : Running uuid net)
      → OfPhase probing before
      → length before.rtt_samples_ms ≤ 128
      → After before ran
      → after_probe uuid net ran ≡ some running
      → Sound running
  probed-Sound before none running sound h probed e = cc
  probed-Sound before (some (ok rtt, (session, o))) running sound h probed e =
      let sound' = carried before session (ok rtt) probed sound in
      let (phase, same) = settled session.snapshot.state session sound' in
      subst Sound (some_inv e) (record {
        window = subst (λ xs. length xs ≤ 128) (sym same) (probed.window h);
        phase = phase;
      })
  probed-Sound before (some (err error, (session, o))) running sound h probed e =
      subst Sound (some_inv e)
        (failed-Sound session o (carried before session (err error) probed sound) (probed.window h))

  -- Every round of a run keeps this: a session that probes has had fewer failures in a row than
  -- make it reconnect, or none, and is neither degraded nor reconnecting; one that backs off has
  -- had as many and is one of the two; and the window has at most 128 samples.
  pub run_step-Sound :
      (reconnect : RelaySessionSnapshot → net.Outside → Result ClientError ℕ × net.Outside)
      (fuel : ℕ) (running next : Running uuid net)
      → Sound running
      → run_step uuid net reconnect fuel running ≡ some next
      → Sound next
  unfolding run_step probe_once next_envelope_meta resync
  run_step-Sound reconnect fuel (probing, (session, o)) next sound stepped =
      let (sound', h) = begun session.snapshot.state session refl sound.phase sound.window in
      probed-Sound _ _ next sound' h (then_await-Probed fuel _ _ _ _) stepped
  run_step-Sound reconnect fuel (backing_off, (session, o)) next sound stepped =
      go (reconnect _ _) stepped
    where
      tried : RelaySession
      tried = count_attempt (in_state reconnecting session)

      go :
          (r : Result ClientError ℕ × net.Outside)
          → some (after_reconnect uuid net tried r) ≡ some next
          → Sound next
      go (ok epoch, o') e =
          subst Sound (some_inv e)
            (record { window = sound.window; phase = (inl refl, λ lost. lost) })
      go (err error, o') e =
          subst Sound (some_inv e) (record { window = sound.window; phase = (sound.phase.0, tt) })
