-- ===== src/Client/Probe.antt =====
-- crates/client-core/src/lib.rs: `RelaySession::probe_once`.
use civ6_lan_bridge.Prelude.{
  ℕ, zero, suc, ◌-◌, ◌≤◌, ◌≡◌, Bool, true, false, ◌==◌, ltb, nat_key, Option, none, some, Result,
  ok, err,
}
use civ6_lan_bridge.Protocol.Relay.{
  RelayMessage, discovery_request, discovery_to_host, discovery_response, discovery_to_client,
  gameplay_packet, gameplay_to_peer, relay_probe, relay_probe_ack, RelayEnvelope,
}
use civ6_lan_bridge.Protocol.Relay.Codec.{UuidBytes}
use civ6_lan_bridge.Router.State.{Instant, Duration}
use civ6_lan_bridge.Client.{ClientError, relay_timeout, Net, send_envelope, receive_envelope}
use civ6_lan_bridge.Client.Session.{
  RelaySession, RelayConnectionState, disconnected, connecting, authenticated, room_joined, healthy,
  degraded, reconnecting, resynced, in_state, next_envelope_meta, record_probe_success,
}

-- `matches!` against the acknowledgement of the request
unfoldable pub acknowledges : ℕ → RelayMessage → Bool
acknowledges request_id (relay_probe_ack actual) = actual == request_id
acknowledges request_id (relay_probe _) = false
acknowledges request_id (discovery_request _ _ _) = false
acknowledges request_id (discovery_to_host _ _ _ _) = false
acknowledges request_id (discovery_response _ _ _ _) = false
acknowledges request_id (discovery_to_client _ _ _ _) = false
acknowledges request_id (gameplay_packet _ _ _) = false
acknowledges request_id (gameplay_to_peer _ _ _ _) = false

abbrev pub started_from : RelayConnectionState → RelaySession → RelaySession
started_from disconnected session = in_state connecting session
started_from connecting session = session
started_from authenticated session = session
started_from room_joined session = session
started_from healthy session = session
started_from degraded session = session
started_from reconnecting session = session
started_from resynced session = session

module _ (uuid : UuidBytes) (net : Net) where
  abbrev pub Ran : Type 0 → Type 0
  Ran A = Result ClientError A × (RelaySession × net.Outside)

  -- What the loop does with a response; `again` is its next round.
  abbrev pub on_response :
      ℕ
      → Instant
      → RelaySession
      → (net.Outside → Option (Ran Duration))
      → Result ClientError RelayEnvelope × net.Outside
      → Option (Ran Duration)
  on_response request_id started session again (err e, o) = some (err e, (session, o))
  on_response request_id started session again (ok envelope, o) =
      elim (acknowledges request_id envelope.message) [
        | true ↦
            let rtt = net.now o - started in some (ok rtt, (record_probe_success rtt session, o))
        | false ↦ again o
      ]

  -- The loop of `probe_once`, on fuel: it waits for what is left of the timeout.
  unfoldable pub await_ack : ℕ → ℕ → Instant → RelaySession → net.Outside → Option (Ran Duration)
  await_ack zero request_id started session o = none
  await_ack (suc fuel) request_id started session o =
      elim (ltb session.config.probe_timeout (net.now o - started)) [
        | true ↦ some (err relay_timeout, (session, o))
        | false ↦
            on_response request_id started session
              (λ o'. await_ack fuel request_id started session o')
              (receive_envelope uuid net (session.config.probe_timeout - (net.now o - started)) o)
      ]

  abbrev pub then_await :
      ℕ
      → ℕ
      → Instant
      → RelaySession
      → Result ClientError (Unit {0}) × net.Outside
      → Option (Ran Duration)
  then_await fuel request_id started session (err e, o) = some (err e, (session, o))
  then_await fuel request_id started session (ok _, o) = await_ack fuel request_id started session o

  unfoldable pub probe_once : ℕ → RelaySession → net.Outside → Option (Ran Duration)
  probe_once fuel session o =
      let begun = started_from session.snapshot.state session in
      let (request_id, o₁) = net.new_request_id o in
      let (meta, counted) = next_envelope_meta (net.system_time o₁) net.path_id begun in
      then_await fuel request_id (net.now o₁) counted
        (send_envelope uuid net (relay_probe request_id) meta o₁)

  -- What comes in is an envelope that is not the answer, and then the rest holds.
  abbrev pub Foreign :
      ℕ → Result ClientError RelayEnvelope × net.Outside → (net.Outside → Type 0) → Type 0
  Foreign request_id (err e, o) Rest = ⊥
  Foreign request_id (ok envelope, o) Rest =
      (acknowledges request_id envelope.message ≡ false) × Rest o

  -- So many datagrams come in, one after the other, each within what is left of the timeout, and
  -- none is the answer.
  unfoldable pub Flooded : ℕ → ℕ → Duration → Instant → net.Outside → Type 0
  Flooded zero request_id timeout started o = Unit
  Flooded (suc n) request_id timeout started o =
      (net.now o - started ≤ timeout)
      × Foreign request_id (receive_envelope uuid net (timeout - (net.now o - started)) o)
          (λ o'. Flooded n request_id timeout started o')

  -- What comes of sending the probe
  abbrev pub probe_sent : RelaySession → net.Outside → Result ClientError (Unit {0}) × net.Outside
  probe_sent session o =
      let (request_id, o₁) = net.new_request_id o in
      send_envelope uuid net (relay_probe request_id)
        (next_envelope_meta (net.system_time o₁) net.path_id
          (started_from session.snapshot.state session)).0
        o₁
