-- ===== src/Client/Reconnect/Resumption.antt =====
-- crates/client-core/src/lib.rs and server/src/metrics.rs: the numbers of the envelopes that a
-- client sends after it has reconnected, before the server's sequence tracker.
use civ6_lan_bridge.Prelude.{
  ℕ, zero, suc, ◌+◌, ◌≤◌, ◌<◌, ◌≡◌, ◌≢◌, ◌↔◌, nat_key, Option, some, Result, ok, err, arith,
}
use civ6_lan_bridge.Prelude.HashMap
use civ6_lan_bridge.Protocol.Ports.{PeerId}
use civ6_lan_bridge.Protocol.Relay.{new_meta}
use civ6_lan_bridge.Protocol.Relay.Codec.{UuidBytes}
use civ6_lan_bridge.Server.Metrics.{RelayMetrics, record_sequence, new_sequence}
use civ6_lan_bridge.Client.{ClientError, Net}
use civ6_lan_bridge.Client.Session.{
  RelaySession, RelaySessionSnapshot, next_envelope_meta, in_state, reconnecting, u64_max,
}
use civ6_lan_bridge.Client.Reconnect.{
  probing, backing_off, run_step, after_reconnect, resync, count_attempt,
}

-- The session after a number of envelopes
unfoldable pub after_envelopes : (clock client_path : Option ℕ) → ℕ → RelaySession → RelaySession
after_envelopes clock client_path zero session = session
after_envelopes clock client_path (suc n) session =
    (next_envelope_meta clock client_path (after_envelopes clock client_path n session)).1

after_envelopes_lem :
    (clock client_path : Option ℕ) (n : ℕ) (session : RelaySession)
    → session.next_sequence + n ≤ u64_max
    → (after_envelopes clock client_path n session).next_sequence ≡ session.next_sequence + n
unfolding after_envelopes next_envelope_meta
after_envelopes_lem clock client_path zero session h = ground arith
after_envelopes_lem clock client_path (suc n) session h =
    ground (arith, after_envelopes_lem clock client_path n session (ground (arith, h)))

-- The envelopes of a session are numbered one after the other, up to 2^64 - 1.
pub next_envelope_meta_counts :
    (clock client_path : Option ℕ) (n : ℕ) (session : RelaySession)
    → session.next_sequence + n < u64_max
    → (next_envelope_meta clock client_path
        (after_envelopes clock client_path n session)).0.sequence
      ≡ session.next_sequence + n + 1
unfolding next_envelope_meta new_meta
next_envelope_meta_counts clock client_path n session h =
    ground (arith, after_envelopes_lem clock client_path n session (ground (arith, h)))

tracked_iff :
    (m : RelayMetrics) (peer_id : PeerId) (previous sequence : ℕ)
    → HashMap.get m.sequence_tracker peer_id ≡ some previous
    → sequence ≢ 0
    → ((record_sequence m peer_id sequence).0 ≡ new_sequence) ↔ (previous < sequence)
unfolding record_sequence
tracked_iff m peer_id previous sequence e positive = (λ h. ground arith, λ h. ground arith)

module _ (uuid : UuidBytes) (net : Net)
    (reconnect : RelaySessionSnapshot → net.Outside → Result ClientError ℕ × net.Outside) where
  resumed_sequence :
      (fuel : ℕ) (session session' : RelaySession) (o o' : net.Outside)
      → run_step uuid net reconnect fuel (backing_off, (session, o))
        ≡ some (probing, (session', o'))
      → session'.next_sequence ≡ 0
  unfolding run_step resync
  resumed_sequence fuel session session' o o' h =
      go (count_attempt (in_state reconnecting session)) _ h
    where
      go :
          (tried : RelaySession) (r : Result ClientError ℕ × net.Outside)
          → some (after_reconnect uuid net tried r) ≡ some (probing, (session', o'))
          → session'.next_sequence ≡ 0
      go tried (ok epoch, o'') e = cc
      go tried (err error, o'') e = cc

  -- After a run has reconnected, a server whose tracker still has a number of the peer finds the
  -- n-th next envelope of the client new exactly if n is greater than that number, for n up to
  -- 2^64 - 1.
  pub reconnected_envelopes :
      (m : RelayMetrics) (peer_id : PeerId) (previous fuel : ℕ) (session session' : RelaySession)
      (o o' : net.Outside) (clock : Option ℕ) (n : ℕ)
      → run_step uuid net reconnect fuel (backing_off, (session, o))
        ≡ some (probing, (session', o'))
      → HashMap.get m.sequence_tracker peer_id ≡ some previous
      → n < u64_max
      → ((record_sequence m peer_id
            (next_envelope_meta clock net.path_id
              (after_envelopes clock net.path_id n session')).0.sequence).0
          ≡ new_sequence)
        ↔ (previous < n + 1)
  reconnected_envelopes m peer_id previous fuel session session' o o' clock n resumed tracked
        bound =
      let start = resumed_sequence fuel session session' o o' resumed in
      let numbered =
        next_envelope_meta_counts clock net.path_id n session' (ground (arith, start, bound)) in
      let (there, back) =
        tracked_iff m peer_id previous _ tracked (λ e. ground (arith, e, numbered)) in
      (
        λ h. ground (arith, there h, numbered, start),
        λ h. back (ground (arith, h, numbered, start)),
      )
