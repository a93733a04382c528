-- ===== src/Server/Metrics/Snapshot.antt =====
-- server/src/metrics.rs: what the counters are reported as.
use civ6_lan_bridge.Prelude.{ℕ}
use civ6_lan_bridge.Router.Rooms.{RouterStats}
use civ6_lan_bridge.Server.Metrics.{RelayMetrics}

pub record RelayMetricsSnapshot : Type 0 where
  pub sent_packets : ℕ
  pub received_packets : ℕ
  pub dropped_packets : ℕ
  pub duplicated_packets : ℕ
  pub reordered_packets : ℕ
  pub sequence_duplicates : ℕ
  pub rate_limited_packets : ℕ
  pub oversized_packets : ℕ
  pub probe_successes : ℕ
  pub probe_failures : ℕ
  pub last_probe_at_ms : ℕ
  pub bytes_in : ℕ
  pub bytes_out : ℕ
  pub active_peers : ℕ
  pub suspended_peers : ℕ
  pub active_rooms : ℕ
  pub active_hosts : ℕ
  pub active_gameplay_sessions : ℕ
  pub authentication_failures : ℕ

unfoldable pub snapshot : RelayMetrics → RouterStats → RelayMetricsSnapshot
snapshot m router = record {
  sent_packets = m.sent_packets;
  received_packets = m.received_packets;
  dropped_packets = m.dropped_packets;
  duplicated_packets = m.duplicated_packets;
  reordered_packets = m.reordered_packets;
  sequence_duplicates = m.sequence_duplicates;
  rate_limited_packets = m.rate_limited_packets;
  oversized_packets = m.oversized_packets;
  probe_successes = m.probe_successes;
  probe_failures = m.probe_failures;
  last_probe_at_ms = m.last_probe_at_ms;
  bytes_in = m.bytes_in;
  bytes_out = m.bytes_out;
  active_peers = router.active_peers;
  suspended_peers = router.suspended_peers;
  active_rooms = router.active_rooms;
  active_hosts = router.active_hosts;
  active_gameplay_sessions = router.active_gameplay_sessions;
  authentication_failures = m.authentication_failures;
}
