-- ===== src/Server/Relay/Replays.antt =====
-- server/src/relay.rs: a repeated message, whatever the relay carries for others in between.
use civ6_lan_bridge.Prelude.{
  ℕ, ◌+◌, ◌≤◌, ◌<◌, ◌≡◌, ◌≢◌, refl, ◌∙◌, nat_key, arith, ok, err, List, [], ◌∷◌, length, All,
}
use civ6_lan_bridge.Prelude.HashMap
use civ6_lan_bridge.Protocol.Ports.{PeerId}
use civ6_lan_bridge.Protocol.Relay.{RelayMessage, RelayEnvelopeMeta}
use civ6_lan_bridge.Router.State.{RoomRouter, Instant}
use civ6_lan_bridge.Router.Peers.{mark_peer_seen, see}
use civ6_lan_bridge.Server.Metrics.{RelayMetrics, new_sequence, duplicate, record_sequence}
use civ6_lan_bridge.Server.Metrics.Replay.{record_sequence-tracks, record_sequence-verdict, verdict}
use civ6_lan_bridge.Server.State.{AppState}
use civ6_lan_bridge.Server.Relay.Isolation.{act-same_peers}
use civ6_lan_bridge.Server.Relay.{
  Clocks, OutboundDatagram, duplicate_sequence, route_message, carry,
}

-- A message that the relay carries for a peer
pub record Turn : Type 0 where
  pub peer : PeerId
  pub meta : RelayEnvelopeMeta
  pub message : RelayMessage
  pub clocks : Clocks

abbrev pub carry_all : ℕ → List Turn → AppState → AppState
carry_all relay_port [] st = st
carry_all relay_port (turn ∷ turns) st =
    carry_all relay_port turns (carry st relay_port turn.peer turn.meta turn.message turn.clocks).1

-- What stays of the peer while others are served: its number and its state.
record Kept (p : PeerId) (before after : AppState) : Type 0 where
  number :
      HashMap.get after.metrics.sequence_tracker p ≡ HashMap.get before.metrics.sequence_tracker p
  state : HashMap.get after.router.peers p ≡ HashMap.get before.router.peers p

record_sequence-other :
    (m : RelayMetrics) (other p : PeerId) (sequence : ℕ)
    → other ≢ p
    → HashMap.len m.sequence_tracker < 65536
    → (HashMap.get (record_sequence m other sequence).1.sequence_tracker p
        ≡ HashMap.get m.sequence_tracker p)
      × (HashMap.len (record_sequence m other sequence).1.sequence_tracker
          ≤ HashMap.len m.sequence_tracker + 1)
unfolding record_sequence
record_sequence-other m other p sequence differ room = (
  ground (
    arith,
    HashMap.get-insert m.sequence_tracker other sequence p,
    HashMap.get-modify m.sequence_tracker other (λ _. sequence) p,
  ),
  ground (
    arith,
    HashMap.len-insert m.sequence_tracker other sequence,
    HashMap.len-modify m.sequence_tracker other (λ _. sequence),
  ),
)

mark_peer_seen-other :
    (s : RoomRouter) (other p : PeerId) (now : Instant)
    → other ≢ p
    → HashMap.get (mark_peer_seen s other now).1.peers p ≡ HashMap.get s.peers p
unfolding mark_peer_seen
mark_peer_seen-other s other p now differ =
    ground (arith, HashMap.get-modify s.peers other (see now) p)

carry-other :
    (st : AppState) (relay_port : ℕ) (turn : Turn) (p : PeerId)
    → turn.peer ≢ p
    → HashMap.len st.metrics.sequence_tracker < 65536
    → Kept p st (carry st relay_port turn.peer turn.meta turn.message turn.clocks).1
      × (HashMap.len
            (carry st relay_port turn.peer turn.meta turn.message
              turn.clocks).1.metrics.sequence_tracker
          ≤ HashMap.len st.metrics.sequence_tracker + 1)
unfolding carry route_message
carry-other st relay_port turn p differ room =
    let (number, size) =
      record_sequence-other st.metrics turn.peer p turn.meta.sequence differ room in
    let seen = mark_peer_seen-other st.router turn.peer p turn.clocks.now differ in
    let same =
      act-same_peers (mark_peer_seen st.router turn.peer turn.clocks.now).1 turn.peer turn.message
        turn.clocks.now in
    (
      record { number = ground (arith, number); state = ground (arith, seen, same) },
      ground (arith, size),
    )

carry_all-others :
    (relay_port : ℕ) (p : PeerId) (turns : List Turn) (st : AppState)
    → All (λ (turn : Turn). turn.peer ≢ p) turns
    → HashMap.len st.metrics.sequence_tracker + length turns ≤ 65536
    → Kept p st (carry_all relay_port turns st)
carry_all-others relay_port p [] st others room = record { number = refl; state = refl }
carry_all-others relay_port p (turn ∷ turns) st (other, others) room =
    let (kept, size) = carry-other st relay_port turn p other (ground (arith, room)) in
    let rest =
      carry_all-others relay_port p turns
        (carry st relay_port turn.peer turn.meta turn.message turn.clocks).1 others
        (ground (arith, room, size)) in
    record { number = rest.number ∙ kept.number; state = rest.state ∙ kept.state }

mark_peer_seen_again :
    (s t : RoomRouter) (p : PeerId) (now later : Instant)
    → (mark_peer_seen s p now).0 ≡ ok tt
    → HashMap.get t.peers p ≡ HashMap.get (mark_peer_seen s p now).1.peers p
    → (mark_peer_seen t p later).0 ≡ ok tt
unfolding mark_peer_seen
mark_peer_seen_again s t p now later h same =
    ground (arith, h, same, HashMap.get-modify s.peers p (see now) p)

-- What carrying a message with a new sequence number does before the message is routed.
carry_passed :
    (st : AppState) (relay_port : ℕ) (source : PeerId) (meta : RelayEnvelopeMeta)
    (message : RelayMessage) (clocks : Clocks) (out : List OutboundDatagram)
    → (carry st relay_port source meta message clocks).0 ≡ ok out
    → ((mark_peer_seen st.router source clocks.now).0 ≡ ok tt)
      × ((carry st relay_port source meta message clocks).1.metrics
          ≡ (record_sequence st.metrics source meta.sequence).1)
      × ((carry st relay_port source meta message clocks).1.router.peers
          ≡ (mark_peer_seen st.router source clocks.now).1.peers)
unfolding carry route_message
carry_passed st relay_port source meta message clocks out done = (
  ground arith,
  ground arith,
  ground (
    arith,
    act-same_peers (mark_peer_seen st.router source clocks.now).1 source message clocks.now,
  ),
)

carry_duplicate :
    (st : AppState) (relay_port : ℕ) (source : PeerId) (meta : RelayEnvelopeMeta)
    (message : RelayMessage) (clocks : Clocks)
    → (mark_peer_seen st.router source clocks.now).0 ≡ ok tt
    → (record_sequence st.metrics source meta.sequence).0 ≡ duplicate
    → (carry st relay_port source meta message clocks).0 ≡ err (duplicate_sequence meta.sequence)
unfolding carry
carry_duplicate st relay_port source meta message clocks seen h = ground arith

-- A message whose sequence number was new when the relay carried it is refused as a duplicate
-- when it comes again, whatever messages of other peers the relay carries in between, if the
-- tracker has room for as many peers more.
pub carry_replay :
    (st : AppState) (relay_port : ℕ) (source : PeerId) (meta : RelayEnvelopeMeta)
    (message : RelayMessage) (clocks again : Clocks) (out : List OutboundDatagram)
    (between : List Turn)
    → (record_sequence st.metrics source meta.sequence).0 ≡ new_sequence
    → (carry st relay_port source meta message clocks).0 ≡ ok out
    → All (λ (turn : Turn). turn.peer ≢ source) between
    → HashMap.len (carry st relay_port source meta message clocks).1.metrics.sequence_tracker
        + length between
      ≤ 65536
    → (carry
        (carry_all relay_port between (carry st relay_port source meta message clocks).1)
        relay_port
        source
        meta
        message
        again).0
      ≡ err (duplicate_sequence meta.sequence)
unfolding verdict
carry_replay st relay_port source meta message clocks again out between fresh done others room =
    let t = (carry st relay_port source meta message clocks).1 in
    let u = carry_all relay_port between t in
    let (seen, metrics, same) = carry_passed st relay_port source meta message clocks out done in
    let kept = carry_all-others relay_port source between t others room in
    let (tracks, positive) = record_sequence-tracks st.metrics source meta.sequence fresh in
    carry_duplicate u relay_port source meta message again
      (mark_peer_seen_again st.router u.router source clocks.now again.now seen
        (ground (arith, kept.state, same)))
      (ground (
        arith,
        positive,
        record_sequence-verdict u.metrics source meta.sequence meta.sequence
            (ground (arith, kept.number, metrics, tracks)),
      ))
