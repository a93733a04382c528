-- ===== src/Server/Metrics/Replay.antt =====
-- server/src/metrics.rs: the verdicts of the sequence tracker, and the sizes of the caches.
use civ6_lan_bridge.Prelude.{
  ℕ, ◌-◌, ◌<◌, ◌≤◌, ◌≡◌, ◌≢◌, refl, ◌==◌, ltb, leb, nat_key, if◌then◌else◌, some, arith, List,
}
use civ6_lan_bridge.Prelude.HashMap
use civ6_lan_bridge.Protocol.Ports.{PeerId}
use civ6_lan_bridge.Router.State.{Instant}
use civ6_lan_bridge.Server.Metrics.{
  RelayMetrics, SequenceDisposition, SeenPacketCache, legacy, new_sequence, duplicate, reordered,
  record_sequence, record_received, see_packet, clean_up,
}

pub record_sequence-tracks :
    (m : RelayMetrics) (peer_id : PeerId) (sequence : ℕ)
    → (record_sequence m peer_id sequence).0 ≡ new_sequence
    → (HashMap.get (record_sequence m peer_id sequence).1.sequence_tracker peer_id ≡ some sequence)
      × (sequence ≢ 0)
unfolding record_sequence
record_sequence-tracks m peer_id sequence fresh = (
  ground (
    arith,
    HashMap.get-insert m.sequence_tracker peer_id sequence peer_id,
    HashMap.get-insert HashMap.new peer_id sequence peer_id,
    HashMap.get-modify m.sequence_tracker peer_id (λ _. sequence) peer_id,
  ),
  ground arith,
)

-- What the tracker says of a number after the peer's last one.
unfoldable pub verdict : ℕ → ℕ → SequenceDisposition
verdict previous sequence =
    if sequence == 0
    then legacy
    else if sequence == previous
    then duplicate
    else if ltb sequence previous
    then reordered
    else new_sequence

pub record_sequence-verdict :
    (m : RelayMetrics) (peer_id : PeerId) (previous sequence : ℕ)
    → HashMap.get m.sequence_tracker peer_id ≡ some previous
    → (record_sequence m peer_id sequence).0 ≡ verdict previous sequence
unfolding record_sequence verdict
record_sequence-verdict m peer_id previous sequence e = ground arith

-- After a sequence number of a peer has been found new, the same number is a duplicate, a
-- smaller one but 0 is out of order, whether it has been accepted before or not, and a greater
-- one is new.
pub record_sequence_replay :
    (m : RelayMetrics) (peer_id : PeerId) (sequence again : ℕ)
    → (record_sequence m peer_id sequence).0 ≡ new_sequence
    → ((record_sequence (record_sequence m peer_id sequence).1 peer_id sequence).0 ≡ duplicate)
      × (again < sequence
          → again ≢ 0
          → (record_sequence (record_sequence m peer_id sequence).1 peer_id again).0 ≡ reordered)
      × (sequence < again
          → (record_sequence (record_sequence m peer_id sequence).1 peer_id again).0 ≡ new_sequence)
unfolding verdict
record_sequence_replay m peer_id sequence again fresh =
    let t = (record_sequence m peer_id sequence).1 in
    let (tracks, positive) = record_sequence-tracks m peer_id sequence fresh in
    (
      ground (arith, positive, record_sequence-verdict t peer_id sequence sequence tracks),
      λ less nonzero. ground (arith, record_sequence-verdict t peer_id sequence again tracks),
      λ more. ground (arith, record_sequence-verdict t peer_id sequence again tracks),
    )

-- At most 65536 entries each in the cache of fingerprints and in the sequence tracker.
pub record Bounded (m : RelayMetrics) : Type 0 where
  pub seen : HashMap.len m.seen_packets.entries ≤ 65536
  pub tracked : HashMap.len m.sequence_tracker ≤ 65536

len-new : HashMap.len (HashMap.new {K = ℕ} {V = ℕ}) ≡ 0
unfolding HashMap.len HashMap.new
len-new = refl

insert-le :
    (entries : HashMap.HashMap ℕ ℕ) (k v : ℕ)
    → HashMap.len entries ≤ 65536
    → HashMap.len
        (HashMap.insert (if leb 65536 (HashMap.len entries) then HashMap.new else entries) k v)
      ≤ 65536
insert-le entries k v b =
    ground (arith, len-new, HashMap.len-insert entries k v, HashMap.len-insert HashMap.new k v)

clean_up-le :
    (cache : SeenPacketCache) (now : Instant)
    → HashMap.len (clean_up cache now).entries ≤ HashMap.len cache.entries
unfolding clean_up
clean_up-le cache now =
    ground (arith, HashMap.len-retain-le cache.entries (λ _ timestamp. leb (now - timestamp) 60))

see_packet-le :
    (cache : SeenPacketCache) (fingerprint : ℕ) (now : Instant)
    → HashMap.len cache.entries ≤ 65536
    → HashMap.len (see_packet cache fingerprint now).1.entries ≤ 65536
unfolding see_packet
see_packet-le cache fingerprint now b = ground (
  arith,
  clean_up-le cache now,
  insert-le (clean_up cache now).entries fingerprint now,
  HashMap.len-insert (clean_up cache now).entries fingerprint now,
)

-- If the cache of fingerprints and the sequence tracker have at most 65536 entries each, they do
-- after record_received.
pub record_received-Bounded :
    (fingerprint : List ℕ → ℕ) (m : RelayMetrics) (packet : List ℕ) (now : Instant)
    → Bounded m
    → Bounded (record_received fingerprint m packet now)
unfolding record_received
record_received-Bounded fingerprint m packet now b = record {
  seen = see_packet-le m.seen_packets (fingerprint packet) now b.seen;
  tracked = b.tracked;
}

-- If the cache of fingerprints and the sequence tracker have at most 65536 entries each, they do
-- after record_sequence.
pub record_sequence-Bounded :
    (m : RelayMetrics) (peer_id : PeerId) (sequence : ℕ)
    → Bounded m
    → Bounded (record_sequence m peer_id sequence).1
unfolding record_sequence
record_sequence-Bounded m peer_id sequence b = record {
  seen = ground (arith, b.seen);
  tracked = ground (
    arith,
    b.tracked,
    insert-le m.sequence_tracker peer_id sequence,
    HashMap.len-modify m.sequence_tracker peer_id (λ _. sequence),
  );
}
