-- ===== src/Router/Expiry.antt =====
-- crates/router/src/lib.rs: `expire`, which the relay calls once a second, and `disconnect_peer`.
pub mod Fresh
use civ6_lan_bridge.Prelude.{
  ℕ, ◌+◌, Bool, true, false, not, ◌&&◌, ◌||◌, ◌==◌, ltb, leb, nat_key, if◌then◌else◌, length,
  Option, none, some, is_some, List, [], ◌∷◌,
}
use civ6_lan_bridge.Prelude.HashMap
use civ6_lan_bridge.Prelude.HashMap.{HashMap}
use civ6_lan_bridge.Protocol.Ports.{PeerId, HostSessionId}
use civ6_lan_bridge.Router.State.{
  Instant, PeerState, HostState, DiscoveryState, GameplayState, RoomRouter,
}
use civ6_lan_bridge.Router.Hosts.{remove_hosts}
use civ6_lan_bridge.Router.Peers.{leave_room}

pub record ExpirationReport : Type 0 where
  pub expired_hosts : ℕ
  pub expired_discoveries : ℕ
  pub expired_gameplay_sessions : ℕ

abbrev pub plays : PeerId → GameplayState → Bool
plays peer_id session = session.client_peer_id == peer_id || session.host_peer_id == peer_id

abbrev pub suspend : Instant → PeerState → PeerState
suspend now peer = record peer { disconnected_at = some now }

-- What is left of a peer's sessions and requests: nothing.
unfoldable pub forget : RoomRouter → PeerId → RoomRouter
forget s peer_id = record s {
  gameplay = HashMap.retain s.gameplay (λ _ session. not (plays peer_id session));
  discoveries =
      HashMap.retain s.discoveries
        (λ _ (discovery : DiscoveryState). not (discovery.client_peer_id == peer_id));
}

unfoldable pub disconnect_peer : RoomRouter → PeerId → Instant → RoomRouter
disconnect_peer s peer_id now = elim (HashMap.get s.peers peer_id) [
  | none ↦ s
  | some _ ↦
      let s₁ = record s { peers = HashMap.modify s.peers peer_id (suspend now) } in
      let host_ids =
        HashMap.keys_where s₁.hosts (λ _ (host : HostState). host.peer_id == peer_id) in
      forget (remove_hosts s₁ host_ids) peer_id
]

unfoldable pub disconnect_all : RoomRouter → List PeerId → Instant → RoomRouter
disconnect_all s [] now = s
disconnect_all s (id ∷ ids) now = disconnect_all (disconnect_peer s id now) ids now

-- `if let Some(peer) = .. { let _ = self.leave_room(peer.room_id, peer_id); }`
unfoldable pub leave_if_present : RoomRouter → PeerId → RoomRouter
leave_if_present s peer_id = elim (HashMap.get s.peers peer_id) [
  | none ↦ s
  | some peer ↦ (leave_room s peer.room_id peer_id).1
]

unfoldable pub leave_all : RoomRouter → List PeerId → RoomRouter
leave_all s [] = s
leave_all s (id ∷ ids) = leave_all (leave_if_present s id) ids

abbrev pub host_over : Instant → HostState → Bool
host_over now host = leb host.expires_at now

abbrev pub discovery_over : Instant → DiscoveryState → Bool
discovery_over now discovery = leb discovery.expires_at now

abbrev pub gameplay_over : Instant → GameplayState → Bool
gameplay_over now session = leb session.expires_at now

-- Connected, and silent for `peer_ttl`.
abbrev pub gone_silent : RoomRouter → Instant → PeerState → Bool
gone_silent s now peer =
    not (is_some peer.disconnected_at) && leb (peer.last_seen + s.config.peer_ttl) now

abbrev over_since : ℕ → Instant → Option Instant → Bool
over_since grace now none = false
over_since grace now (some disconnected_at) = leb (disconnected_at + grace) now

-- Disconnected for `peer_grace_ttl`.
abbrev pub grace_over : RoomRouter → Instant → PeerState → Bool
grace_over s now peer = over_since s.config.peer_grace_ttl now peer.disconnected_at

unfoldable pub over_hosts : RoomRouter → Instant → List HostSessionId
over_hosts s now = HashMap.keys_where s.hosts (λ _ host. host_over now host)

unfoldable pub expire_hosts : RoomRouter → Instant → RoomRouter
expire_hosts s now = remove_hosts s (over_hosts s now)

unfoldable pub expire_discoveries : RoomRouter → Instant → RoomRouter
expire_discoveries s now = record s {
  discoveries =
      HashMap.remove_all s.discoveries
        (HashMap.keys_where s.discoveries (λ _ discovery. discovery_over now discovery));
}

unfoldable pub expire_gameplay : RoomRouter → Instant → RoomRouter
expire_gameplay s now = record s {
  gameplay =
      HashMap.remove_all s.gameplay
        (HashMap.keys_where s.gameplay (λ _ session. gameplay_over now session));
}

unfoldable pub disconnect_silent : RoomRouter → Instant → RoomRouter
disconnect_silent s now =
    disconnect_all s (HashMap.keys_where s.peers (λ _ peer. gone_silent s now peer)) now

unfoldable pub expire_peers : RoomRouter → Instant → RoomRouter
expire_peers s now = leave_all s (HashMap.keys_where s.peers (λ _ peer. grace_over s now peer))

-- The counts are those of the three lists of keys that the source collects.
unfoldable pub expire : RoomRouter → Instant → ExpirationReport × RoomRouter
expire s now =
    let s₁ = expire_hosts s now in
    let s₂ = expire_discoveries s₁ now in
    let s₃ = expire_gameplay s₂ now in
    (
      record {
        expired_hosts = length (over_hosts s now);
        expired_discoveries =
            length
              (HashMap.keys_where s₁.discoveries (λ _ discovery. discovery_over now discovery));
        expired_gameplay_sessions =
            length (HashMap.keys_where s₂.gameplay (λ _ session. gameplay_over now session));
      },
      expire_peers (disconnect_silent s₃ now) now,
    )
