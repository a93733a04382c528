-- ===== src/Client/Sending.antt =====
-- crates/client-core/src/lib.rs: `send_gameplay` and `send_discovery_with_retry`.
use civ6_lan_bridge.Prelude.{
  ℕ, zero, suc, ◌+◌, ◌*◌, ◌≤◌, ◌<◌, ◌≡◌, refl, subst, ◌∙◌, ◌%◌, ◌^◌, Bool, true, false, ltb, Option,
  none, some, Result, ok, err, arith, List,
}
use native.Mathlib.Nat.{mod-le, mul-le-mul_left, mul_comm}
use civ6_lan_bridge.Protocol.Relay.{
  RelayMessage, discovery_request, discovery_to_host, discovery_response, discovery_to_client,
  gameplay_packet, gameplay_to_peer, relay_probe, relay_probe_ack, RelayEnvelopeMeta,
  RelayCodecError,
}
use civ6_lan_bridge.Protocol.Relay.Codec.{UuidBytes, encode}
use civ6_lan_bridge.Router.State.{Instant, Duration}
use civ6_lan_bridge.Client.{ClientError, invalid_response, relay_codec, Net, sent, send_envelope}
use civ6_lan_bridge.Client.Session.{
  RelaySession, RelaySessionConfig, next_envelope_meta, ensure_safe_payload,
}
use civ6_lan_bridge.Client.Probe.{Ran}

module _ (uuid : UuidBytes) (net : Net) where
  -- The session's next envelope, of this message, is sent.
  unfoldable pub send_next : RelayMessage → RelaySession → net.Outside → Ran uuid net (Unit {0})
  send_next message session o =
      let (meta, counted) = next_envelope_meta (net.system_time o) net.path_id session in
      let (result, o') = send_envelope uuid net message meta o in (result, (counted, o'))

  unfoldable pub send_gameplay : RelayMessage → RelaySession → net.Outside → Ran uuid net (Unit {0})
  send_gameplay message session o = elim (ensure_safe_payload message session) [
    | err e ↦ (err e, (session, o))
    | ok _ ↦ send_next message session o
  ]

  abbrev pub finish : ℕ → Option ClientError → Result ClientError ℕ
  finish sends none = ok sends
  finish sends (some error) = err error

  -- The end of a round, with the pause; `again` is the next round. The count is a `u32`, which
  -- wraps in a release build.
  abbrev pub after_send :
      ℕ
      → (ℕ → Option ClientError → RelaySession → net.Outside → Option (Ran uuid net ℕ))
      → Ran uuid net (Unit {0})
      → Option (Ran uuid net ℕ)
  after_send sends again (ok _, (session, o)) =
      again ((sends + 1) % 2 ^ 32) none session
        (net.sleep session.config.discovery_retry_interval o)
  after_send sends again (err error, (session, o)) =
      again sends (some error) session (net.sleep session.config.discovery_retry_interval o)

  -- The loop, on fuel
  unfoldable pub retry :
      ℕ
      → Instant
      → RelayMessage
      → ℕ
      → Option ClientError
      → RelaySession
      → net.Outside
      → Option (Ran uuid net ℕ)
  retry zero deadline message sends last_error session o = none
  retry (suc fuel) deadline message sends last_error session o = elim (ltb (net.now o) deadline) [
    | false ↦ some (finish sends last_error, (session, o))
    | true ↦ elim (ensure_safe_payload message session) [
      | err e ↦ some (err e, (session, o))
      | ok _ ↦
          after_send sends
            (λ sends' error session' o'. retry fuel deadline message sends' error session' o')
            (send_next message session o)
    ]
  ]

  unfoldable pub send_discovery_with_retry :
      ℕ → RelayMessage → RelaySession → net.Outside → Option (Ran uuid net ℕ)
  send_discovery_with_retry fuel (discovery_request id port payload) session o =
      retry fuel (net.now o + session.config.discovery_retry_window)
        (discovery_request id port payload) 0 none session o
  send_discovery_with_retry fuel (discovery_to_host _ _ _ _) session o =
      some (err invalid_response, (session, o))
  send_discovery_with_retry fuel (discovery_response _ _ _ _) session o =
      some (err invalid_response, (session, o))
  send_discovery_with_retry fuel (discovery_to_client _ _ _ _) session o =
      some (err invalid_response, (session, o))
  send_discovery_with_retry fuel (gameplay_packet _ _ _) session o =
      some (err invalid_response, (session, o))
  send_discovery_with_retry fuel (gameplay_to_peer _ _ _ _) session o =
      some (err invalid_response, (session, o))
  send_discovery_with_retry fuel (relay_probe _) session o =
      some (err invalid_response, (session, o))
  send_discovery_with_retry fuel (relay_probe_ack _) session o =
      some (err invalid_response, (session, o))

  -- The clock does not go back while a datagram goes out.
  pub record Monotonic : Type 0 where
    pub sending :
        (packet : List ℕ) (o : net.Outside) → net.now o ≤ net.now (net.send_packet packet o).1

  sent_then :
      (o : net.Outside) (r : Bool × net.Outside)
      → net.now o ≤ net.now r.1
      → net.now o ≤ net.now (sent uuid net r).1
  sent_then o (true, o') h = h
  sent_then o (false, o') h = h

  sent_later :
      (clock : Monotonic) (message : RelayMessage) (meta : RelayEnvelopeMeta) (o : net.Outside)
      → net.now o ≤ net.now (send_envelope uuid net message meta o).1
  unfolding send_envelope
  sent_later clock message meta o = go (encode uuid (record { meta = meta; message = message }))
    where
      go :
          (encoded : Result RelayCodecError (List ℕ))
          → net.now o
            ≤ net.now
                (elim encoded as (λ _. Result ClientError (Unit {0}) × net.Outside) [
                  | err e ↦ (err (relay_codec e), o)
                  | ok packet ↦ sent uuid net (net.send_packet packet o)
                ]).1
      go (err e) = ground arith
      go (ok packet) = sent_then o (net.send_packet packet o) (clock.sending packet o)

  -- A pause takes the time it is to take.
  pub record Pauses : Type 0 where
    pub sleeping :
        (pause : Duration) (o : net.Outside) → net.now o + pause ≤ net.now (net.sleep pause o)

  -- A count of sends whose pauses fit in the window, but for the last
  abbrev pub Spaced : RelaySession → Result ClientError ℕ → Type 0
  Spaced session (err e) = Unit
  Spaced session (ok sends) =
      sends * session.config.discovery_retry_interval
      < session.config.discovery_retry_window + session.config.discovery_retry_interval

  wrapped : (sends interval : ℕ) → ((sends + 1) % 2 ^ 32) * interval ≤ sends * interval + interval
  wrapped sends interval =
      let product : interval * ((sends + 1) % 2 ^ 32) ≤ interval * (sends + 1) =
        mul-le-mul_left interval (mod-le (sends + 1) (2 ^ 32)) in
      subst (λ x. x ≤ sends * interval + interval) (mul_comm interval ((sends + 1) % 2 ^ 32))
        (omega (arith, product, mul_comm interval (sends + 1)))

  -- Behind one send: the same configuration, and a clock that has not gone back
  record Sent (session : RelaySession) (o : net.Outside) (ran : Ran uuid net (Unit {0}))
      : Type 0 where
    configured : ran.1.0.config ≡ session.config
    later : net.now o ≤ net.now ran.1.1

  send_next-Sent :
      (clock : Monotonic) (message : RelayMessage) (session : RelaySession) (o : net.Outside)
      → Sent session o (send_next message session o)
  unfolding send_next next_envelope_meta
  send_next-Sent clock message session o = record {
    configured = refl;
    later = sent_later clock message _ o;
  }

  module _ (clock : Monotonic) (pauses : Pauses) (start : Instant) (message : RelayMessage)
      (first : RelaySession) (positive : 0 < first.config.discovery_retry_interval) where
    abbrev Ends : Option (Ran uuid net ℕ) → Type 0
    Ends o = (ran : Ran uuid net ℕ) × (o ≡ some ran) × Spaced first ran.0

    -- What a round finds: the pauses so far are over, and there is fuel for the time that is left.
    record Round (fuel sends : ℕ) (session : RelaySession) (o : net.Outside) : Type 0 where
      configured : session.config ≡ first.config
      paused : start + sends * first.config.discovery_retry_interval ≤ net.now o
      spaced :
          sends * first.config.discovery_retry_interval
          < first.config.discovery_retry_window + first.config.discovery_retry_interval
      fuelled : start + first.config.discovery_retry_window < net.now o + fuel
      fed : 0 < fuel

    slept :
        {fuel sends : ℕ} {session : RelaySession} {o : net.Outside} (session' : RelaySession)
        (o' : net.Outside) {result : Result ClientError (Unit {0})}
        → Sent session o (result, (session', o'))
        → Round (suc fuel) sends session o
        → net.now o' + first.config.discovery_retry_interval
          ≤ net.now (net.sleep session'.config.discovery_retry_interval o')
    slept session' o' one round =
        subst
          (λ (c : RelaySessionConfig).
            net.now o' + c.discovery_retry_interval
            ≤ net.now (net.sleep session'.config.discovery_retry_interval o'))
          (one.configured ∙ round.configured)
          (pauses.sleeping session'.config.discovery_retry_interval o')

    again-Ends :
        (fuel sends : ℕ) (session : RelaySession) (o : net.Outside)
        (again : ℕ → Option ClientError → RelaySession → net.Outside → Option (Ran uuid net ℕ))
        (ran : Ran uuid net (Unit {0}))
        → net.now o < start + first.config.discovery_retry_window
        → Round (suc fuel) sends session o
        → Sent session o ran
        → ((sends' : ℕ) (error : Option ClientError) (session' : RelaySession) (o' : net.Outside)
            → Round fuel sends' session' o'
            → Ends (again sends' error session' o'))
        → Ends (after_send sends again ran)
    again-Ends fuel sends session o again (ok _, (session', o')) in_time round one more =
        more ((sends + 1) % 2 ^ 32) none session' _ (record {
          configured = one.configured ∙ round.configured;
          paused = ground (
            arith,
            slept session' o' one round,
            one.later,
            round.paused,
            wrapped sends first.config.discovery_retry_interval,
          );
          spaced =
              ground
                (arith, in_time, round.paused, wrapped sends first.config.discovery_retry_interval);
          fuelled = ground (arith, slept session' o' one round, one.later, round.fuelled, positive);
          fed = ground (arith, in_time, round.fuelled);
        })
    again-Ends fuel sends session o again (err error, (session', o')) in_time round one more =
        more sends (some error) session' _ (record {
          configured = one.configured ∙ round.configured;
          paused = ground (arith, slept session' o' one round, one.later, round.paused);
          spaced = round.spaced;
          fuelled = ground (arith, slept session' o' one round, one.later, round.fuelled, positive);
          fed = ground (arith, in_time, round.fuelled);
        })

    finished :
        (sends : ℕ) (last_error : Option ClientError)
        → sends * first.config.discovery_retry_interval
          < first.config.discovery_retry_window + first.config.discovery_retry_interval
        → Spaced first (finish sends last_error)
    finished sends none h = h
    finished sends (some error) h = tt

    retry-Ends :
        (fuel sends : ℕ) (last_error : Option ClientError) (session : RelaySession)
        (o : net.Outside)
        → Round fuel sends session o
        → Ends (
            retry fuel
              (start + first.config.discovery_retry_window)
              message
              sends
              last_error
              session
              o)
    unfolding retry
    retry-Ends zero sends last_error session o round = ground (arith, round.fed)
    retry-Ends (suc fuel) sends last_error session o round =
        go (ltb (net.now o) (start + first.config.discovery_retry_window)) refl
          (ensure_safe_payload message session)
          (λ sends' error session' o' next. retry-Ends fuel sends' error session' o' next)
      where
        deadline : Instant
        deadline = start + first.config.discovery_retry_window

        again : ℕ → Option ClientError → RelaySession → net.Outside → Option (Ran uuid net ℕ)
        again sends' error session' o' = retry fuel deadline message sends' error session' o'

        go :
            (t : Bool)
            → ltb (net.now o) deadline ≡ t
            → (safe : Result ClientError (Unit {0}))
            → ((sends' : ℕ) (error : Option ClientError) (session' : RelaySession)
                  (o' : net.Outside)
                → Round fuel sends' session' o'
                → Ends (again sends' error session' o'))
            → Ends (elim t as (λ _. Option (Ran uuid net ℕ)) [
              | false ↦ some (finish sends last_error, (session, o))
              | true ↦ elim safe as (λ _. Option (Ran uuid net ℕ)) [
                | err e ↦ some (err e, (session, o))
                | ok _ ↦ after_send sends again (send_next message session o)
              ]
            ])
        go false over safe more = (_, refl, finished sends last_error round.spaced)
        go true left (err e) more = (_, refl, tt)
        go true left (ok _) more =
            again-Ends fuel sends session o again (send_next message session o)
              (ground (arith, left)) round (send_next-Sent clock message session o) more

  -- Where pauses take the time they are to take and the clock does not go back while datagrams
  -- go out, retries with a pause that is not 0 end within as many rounds as the window has
  -- milliseconds, and one more; and as many sends as they report have pauses that, but for the
  -- last, fit in the window.
  pub send_discovery_with_retry_ends :
      (clock : Monotonic) (pauses : Pauses) (message : RelayMessage) (session : RelaySession)
      (o : net.Outside)
      → 0 < session.config.discovery_retry_interval
      → (ran : Ran uuid net ℕ) × (send_discovery_with_retry
            (session.config.discovery_retry_window + 1)
            message
            session
            o
          ≡ some ran)
        × Spaced session ran.0
  unfolding send_discovery_with_retry
  send_discovery_with_retry_ends clock pauses (discovery_request id port payload) session o
        positive =
      retry-Ends clock pauses (net.now o) (discovery_request id port payload) session positive
        (session.config.discovery_retry_window + 1) 0 none session o
        (record {
          configured = refl;
          paused = ground arith;
          spaced = ground (arith, positive);
          fuelled = ground arith;
          fed = ground arith;
        })
  send_discovery_with_retry_ends clock pauses (discovery_to_host _ _ _ _) session o positive =
      (_, refl, tt)
  send_discovery_with_retry_ends clock pauses (discovery_response _ _ _ _) session o positive =
      (_, refl, tt)
  send_discovery_with_retry_ends clock pauses (discovery_to_client _ _ _ _) session o positive =
      (_, refl, tt)
  send_discovery_with_retry_ends clock pauses (gameplay_packet _ _ _) session o positive =
      (_, refl, tt)
  send_discovery_with_retry_ends clock pauses (gameplay_to_peer _ _ _ _) session o positive =
      (_, refl, tt)
  send_discovery_with_retry_ends clock pauses (relay_probe _) session o positive = (_, refl, tt)
  send_discovery_with_retry_ends clock pauses (relay_probe_ack _) session o positive = (_, refl, tt)
