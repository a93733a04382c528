-- ===== src/Server/Metrics.antt =====
-- server/src/metrics.rs: the relay's counters, its cache of seen packets and its sequence tracker.
-- The mutexes are never poisoned, and `fingerprint` is the hash that `DefaultHasher` gives.
pub mod Replay
pub mod Snapshot
use civ6_lan_bridge.Prelude.{
  ℕ, ◌+◌, ◌-◌, ◌%◌, ◌^◌, Bool, true, false, not, ◌&&◌, ◌==◌, ltb, leb, nat_key, if◌then◌else◌,
  length, Option, none, some, List,
}
use civ6_lan_bridge.Prelude.HashMap
use civ6_lan_bridge.Prelude.HashMap.{HashMap}
use civ6_lan_bridge.Protocol.Ports.{PeerId}
use civ6_lan_bridge.Router.State.{Instant}
use civ6_lan_bridge.Router.Rooms.{RouterStats}

abbrev pub max_seen_packets : ℕ
max_seen_packets = 65536

abbrev pub max_sequence_trackers : ℕ
max_sequence_trackers = 65536

-- In seconds, like the interval below
abbrev pub seen_packet_ttl : ℕ
seen_packet_ttl = 60

abbrev pub seen_packet_cleanup_interval : ℕ
seen_packet_cleanup_interval = 1

pub record SeenPacketCache : Type 0 where
  pub entries : HashMap ℕ Instant
  pub last_cleanup : Instant

pub data SequenceDisposition : Type 0 where
  legacy new_sequence duplicate reordered : SequenceDisposition

-- `sequence_tracker` is the field `last_seen` of `SequenceTracker`.
pub record RelayMetrics : Type 0 where
  pub received_packets : ℕ
  pub sent_packets : ℕ
  pub dropped_packets : ℕ
  pub duplicated_packets : ℕ
  pub authentication_failures : ℕ
  pub bytes_in : ℕ
  pub bytes_out : ℕ
  pub seen_packets : SeenPacketCache
  pub sequence_tracker : HashMap PeerId ℕ
  pub reordered_packets : ℕ
  pub sequence_duplicates : ℕ
  pub rate_limited_packets : ℕ
  pub oversized_packets : ℕ
  pub probe_successes : ℕ
  pub probe_failures : ℕ
  pub last_probe_at_ms : ℕ

-- `RelayMetrics::default`; `now` is when the cache is made.
unfoldable pub default_metrics : Instant → RelayMetrics
default_metrics now = record {
  received_packets = 0;
  sent_packets = 0;
  dropped_packets = 0;
  duplicated_packets = 0;
  authentication_failures = 0;
  bytes_in = 0;
  bytes_out = 0;
  seen_packets = record { entries = HashMap.new; last_cleanup = now };
  sequence_tracker = HashMap.new;
  reordered_packets = 0;
  sequence_duplicates = 0;
  rate_limited_packets = 0;
  oversized_packets = 0;
  probe_successes = 0;
  probe_failures = 0;
  last_probe_at_ms = 0;
}

-- `fetch_add` of an `AtomicU64`
abbrev pub fetch_add : ℕ → ℕ → ℕ
fetch_add a b = (a + b) % 2 ^ 64

-- Once a second, the entries that are too old go.
unfoldable pub clean_up : SeenPacketCache → Instant → SeenPacketCache
clean_up seen now =
    if leb seen_packet_cleanup_interval (now - seen.last_cleanup)
    then record {
      entries = HashMap.retain seen.entries (λ _ timestamp. leb (now - timestamp) seen_packet_ttl);
      last_cleanup = now;
    }
    else seen

-- The body of the closure in `record_received`: whether the packet is a duplicate, and the cache.
unfoldable pub see_packet : SeenPacketCache → ℕ → Instant → Bool × SeenPacketCache
see_packet cache fingerprint now =
    let seen = clean_up cache now in
    let is_duplicate = HashMap.contains_key seen.entries fingerprint in
    let entries =
      if not is_duplicate && leb max_seen_packets (HashMap.len seen.entries)
      then HashMap.new
      else seen.entries in
    (is_duplicate, record seen { entries = HashMap.insert entries fingerprint now })

unfoldable pub record_received : (List ℕ → ℕ) → RelayMetrics → List ℕ → Instant → RelayMetrics
record_received fingerprint m packet now =
    let (is_duplicate, cache) = see_packet m.seen_packets (fingerprint packet) now in
    record m {
      received_packets = fetch_add m.received_packets 1;
      bytes_in = fetch_add m.bytes_in (length packet);
      seen_packets = cache;
      duplicated_packets =
          if is_duplicate then fetch_add m.duplicated_packets 1 else m.duplicated_packets;
    }

unfoldable pub record_sent : RelayMetrics → ℕ → RelayMetrics
record_sent m packet_len = record m {
  sent_packets = fetch_add m.sent_packets 1;
  bytes_out = fetch_add m.bytes_out packet_len;
}

unfoldable pub record_sequence : RelayMetrics → PeerId → ℕ → SequenceDisposition × RelayMetrics
record_sequence m peer_id sequence =
    if sequence == 0 then (legacy, m) else elim (HashMap.get m.sequence_tracker peer_id) [
      | none ↦
          let last_seen =
            if leb max_sequence_trackers (HashMap.len m.sequence_tracker)
            then HashMap.new
            else m.sequence_tracker in
          (new_sequence, record m { sequence_tracker = HashMap.insert last_seen peer_id sequence })
      | some previous ↦
          if sequence == previous
          then (duplicate, record m { sequence_duplicates = fetch_add m.sequence_duplicates 1 })
          else if ltb sequence previous
          then (reordered, record m { reordered_packets = fetch_add m.reordered_packets 1 })
          else (
            new_sequence,
            record m {
              sequence_tracker = HashMap.modify m.sequence_tracker peer_id (λ _. sequence);
            },
          )
    ]

unfoldable pub record_rate_limited : RelayMetrics → RelayMetrics
record_rate_limited m = record m { rate_limited_packets = fetch_add m.rate_limited_packets 1 }

unfoldable pub record_oversized : RelayMetrics → RelayMetrics
record_oversized m = record m { oversized_packets = fetch_add m.oversized_packets 1 }

-- `unix_ms` is `unix_time_ms()`.
unfoldable pub record_probe : RelayMetrics → Bool → ℕ → RelayMetrics
record_probe m success unix_ms = record m {
  probe_successes = if success then fetch_add m.probe_successes 1 else m.probe_successes;
  probe_failures = if success then m.probe_failures else fetch_add m.probe_failures 1;
  last_probe_at_ms = unix_ms;
}

unfoldable pub record_authentication_failure : RelayMetrics → RelayMetrics
record_authentication_failure m = record m {
  authentication_failures = fetch_add m.authentication_failures 1;
}

unfoldable pub record_drop : RelayMetrics → Bool → RelayMetrics
record_drop m authentication_failure =
    let dropped = record m { dropped_packets = fetch_add m.dropped_packets 1 } in
    if authentication_failure then record_authentication_failure dropped else dropped
