-- ===== src/Router/Peers/Recovery.antt =====
-- crates/router/src/lib.rs: the recovery window of `resume_peer`.
use civ6_lan_bridge.Prelude.{◌+◌, ◌-◌, ◌^◌, ◌<◌, ◌≡◌, refl, nat_key, none, some, arith, ok}
use civ6_lan_bridge.Prelude.HashMap
use civ6_lan_bridge.Protocol.Ports.{PeerId}
use civ6_lan_bridge.Router.State.{PeerState, RoomRouter, Instant}
use civ6_lan_bridge.Router.Rooms.{snapshot_of}
use civ6_lan_bridge.Router.Peers.{mark_peer_seen, resume_peer, resume_state, next_epoch}

-- What a peer can be resumed to, at a time and in a room.
abbrev resumed_at : Instant → PeerState → PeerState
resumed_at now peer = record peer {
  connection_epoch = next_epoch peer.connection_epoch;
  disconnected_at = none;
  last_seen = now;
}

-- A disconnected peer that resumes in its room before its grace period is over is connected
-- again at once, with the same address and the next epoch, if its epoch is less than 2^64 - 1.
pub resume_peer_reconnects :
    (s : RoomRouter) (peer_id : PeerId) (now since : Instant) (peer : PeerState)
    → HashMap.get s.peers peer_id ≡ some peer
    → peer.disconnected_at ≡ some since
    → now < since + s.config.peer_grace_ttl
    → peer.connection_epoch < 2 ^ 64 - 1
    → (resumed : PeerState) × ((resume_peer s peer.room_id peer_id now).0
        ≡ ok (snapshot_of peer_id resumed))
      × (HashMap.get (resume_peer s peer.room_id peer_id now).1.peers peer_id ≡ some resumed)
      × (resumed.connection_epoch ≡ peer.connection_epoch + 1)
      × (resumed.virtual_ip ≡ peer.virtual_ip)
      × ((mark_peer_seen (resume_peer s peer.room_id peer_id now).1 peer_id now).0 ≡ ok tt)
unfolding resume_peer resume_state mark_peer_seen
resume_peer_reconnects s peer_id now since peer e d early small = (
  resumed_at now peer,
  ground arith,
  ground (arith, HashMap.get-modify s.peers peer_id (λ _. resumed_at now peer) peer_id),
  ground arith,
  refl,
  ground (arith, HashMap.get-modify s.peers peer_id (λ _. resumed_at now peer) peer_id),
)
