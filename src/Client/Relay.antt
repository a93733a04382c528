-- ===== src/Client/Relay.antt =====
-- crates/client-core/src/lib.rs: `RelayClient` outside of a session, with packets of the first
-- version.
use civ6_lan_bridge.Prelude.{
  ℕ, zero, suc, ◌-◌, ◌≤◌, ◌≡◌, ◌↔◌, refl, Bool, true, false, ltb, Option, none, some, Result, ok,
  err, arith,
}
use civ6_lan_bridge.Protocol.Relay.{RelayMessage, RelayEnvelopeMeta, RelayEnvelope, relay_probe}
use civ6_lan_bridge.Protocol.Relay.Codec.{UuidBytes, encode_legacy}
use civ6_lan_bridge.Router.State.{Instant, Duration}
use civ6_lan_bridge.Client.{
  ClientError, relay_codec, relay_timeout, Net, sent, send_envelope, receive_envelope,
}
use civ6_lan_bridge.Client.Probe.{acknowledges, Foreign, Flooded}

module _ (uuid : UuidBytes) (net : Net) where
  abbrev pub Sent : Type 0 → Type 0
  Sent A = Result ClientError A × net.Outside

  unfoldable pub send : RelayMessage → net.Outside → Sent (Unit {0})
  send message o = elim (encode_legacy uuid message) [
    | err e ↦ (err (relay_codec e), o)
    | ok packet ↦ sent uuid net (net.send_packet packet o)
  ]

  abbrev message_of : Sent RelayEnvelope → Sent RelayMessage
  message_of (err e, o) = (err e, o)
  message_of (ok envelope, o) = (ok envelope.message, o)

  -- `RelayClient::receive` under `tokio::time::timeout`
  unfoldable pub receive : Duration → net.Outside → Sent RelayMessage
  receive timeout o = message_of (receive_envelope uuid net timeout o)

  abbrev and_then : {A B : Type 0} → Sent A → (net.Outside → Sent B) → Sent B
  and_then (err e, o) next = (err e, o)
  and_then (ok _, o) next = next o

  unfoldable exchange_envelope :
      RelayMessage → RelayEnvelopeMeta → Duration → net.Outside → Sent RelayEnvelope
  exchange_envelope message meta timeout o =
      and_then (send_envelope uuid net message meta o) (receive_envelope uuid net timeout)

  unfoldable exchange : RelayMessage → Duration → net.Outside → Sent RelayMessage
  exchange message timeout o = and_then (send message o) (receive timeout)

  abbrev on_message :
      ℕ → (net.Outside → Option (Sent (Unit {0}))) → Sent RelayMessage → Option (Sent (Unit {0}))
  on_message request_id again (err e, o) = some (err e, o)
  on_message request_id again (ok message, o) = elim (acknowledges request_id message) [
    | true ↦ some (ok tt, o)
    | false ↦ again o
  ]

  -- The loop of `probe`, on fuel
  unfoldable pub probe_loop : ℕ → ℕ → Duration → Instant → net.Outside → Option (Sent (Unit {0}))
  probe_loop zero request_id timeout started o = none
  probe_loop (suc fuel) request_id timeout started o = elim (ltb timeout (net.now o - started)) [
    | true ↦ some (err relay_timeout, o)
    | false ↦
        on_message request_id (λ o'. probe_loop fuel request_id timeout started o')
          (receive (timeout - (net.now o - started)) o)
  ]

  abbrev probe_from : ℕ → ℕ → Duration → Sent (Unit {0}) → Option (Sent (Unit {0}))
  probe_from fuel request_id timeout (err e, o) = some (err e, o)
  probe_from fuel request_id timeout (ok _, o) = probe_loop fuel request_id timeout (net.now o) o

  unfoldable pub probe : ℕ → Duration → net.Outside → Option (Sent (Unit {0}))
  probe fuel timeout o =
      let (request_id, o₁) = net.new_request_id o in
      probe_from fuel request_id timeout (send (relay_probe request_id) o₁)

  on_message_iff :
      (request_id : ℕ) (again : net.Outside → Option (Sent (Unit {0})))
      (Rest : net.Outside → Type 0) (r : Sent RelayEnvelope)
      → ((o : net.Outside) → (again o ≡ none) ↔ Rest o)
      → (on_message request_id again (message_of r) ≡ none) ↔ Foreign uuid net request_id r Rest
  on_message_iff request_id again Rest (err e, o) more = (λ h. ground arith, absurd)
  on_message_iff request_id again Rest (ok envelope, o) more =
      go (acknowledges request_id envelope.message)
    where
      go :
          (t : Bool)
          → ((elim t as (λ _. Option (Sent (Unit {0}))) [
            | true ↦ some (ok tt, o)
            | false ↦ again o
          ])
              ≡ none)
            ↔ ((t ≡ false) × Rest o)
      go true = (λ h. ground arith, λ (h, _). ground arith)
      go false = (λ h. (refl, (more o).0 h), λ (_, rest). (more o).1 rest)

  probe_loop_iff :
      (n request_id : ℕ) (timeout : Duration) (started : Instant) (o : net.Outside)
      → (probe_loop n request_id timeout started o ≡ none)
        ↔ Flooded uuid net n request_id timeout started o
  unfolding probe_loop Flooded receive
  probe_loop_iff zero request_id timeout started o = (λ h. tt, λ _. refl)
  probe_loop_iff (suc n) request_id timeout started o =
      go (ltb timeout (net.now o - started)) refl (
        on_message_iff request_id (λ o'. probe_loop n request_id timeout started o')
          (λ o'. Flooded uuid net n request_id timeout started o') wait
          (λ o'. probe_loop_iff n request_id timeout started o'))
    where
      wait : Sent RelayEnvelope
      wait = receive_envelope uuid net (timeout - (net.now o - started)) o

      Rest : Type 0
      Rest =
          Foreign uuid net request_id wait (λ o'. Flooded uuid net n request_id timeout started o')

      response : Option (Sent (Unit {0}))
      response =
          on_message request_id (λ o'. probe_loop n request_id timeout started o') (message_of wait)

      go :
          (t : Bool)
          → ltb timeout (net.now o - started) ≡ t
          → (response ≡ none) ↔ Rest
          → ((elim t as (λ _. Option (Sent (Unit {0}))) [
            | true ↦ some (err relay_timeout, o)
            | false ↦ response
          ])
              ≡ none)
            ↔ ((net.now o - started ≤ timeout) × Rest)
      go true over rest = (λ h. ground arith, λ (h, _). ground (arith, over))
      go false left rest = (λ h. (ground (arith, left), rest.0 h), λ (_, h). rest.1 h)

  probe_from_iff :
      (n request_id : ℕ) (timeout : Duration) (r : Sent (Unit {0}))
      → (probe_from n request_id timeout r ≡ none)
        ↔ ((r.0 ≡ ok tt) × Flooded uuid net n request_id timeout (net.now r.1) r.1)
  probe_from_iff n request_id timeout (err e, o) = (λ h. ground arith, λ (h, _). ground arith)
  probe_from_iff n request_id timeout (ok u, o) =
      let both = probe_loop_iff n request_id timeout (net.now o) o in
      (λ h. (refl, both.0 h), λ (_, h). both.1 h)

  -- Outside of a session too, a probe is still waiting after so many rounds of its loop exactly if
  -- it has been sent and as many datagrams have come in since, none of them the answer.
  probe_iff :
      (n : ℕ) (timeout : Duration) (o : net.Outside)
      → (probe n timeout o ≡ none) ↔ (
          ((send (relay_probe (net.new_request_id o).0) (net.new_request_id o).1).0 ≡ ok tt)
          × Flooded uuid net n
              (net.new_request_id o).0
              timeout
              (net.now (send (relay_probe (net.new_request_id o).0) (net.new_request_id o).1).1)
              (send (relay_probe (net.new_request_id o).0) (net.new_request_id o).1).1)
  unfolding probe
  probe_iff n timeout o =
      probe_from_iff n (net.new_request_id o).0 timeout
        (send (relay_probe (net.new_request_id o).0) (net.new_request_id o).1)
