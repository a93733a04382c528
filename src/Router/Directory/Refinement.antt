-- ===== src/Router/Directory/Refinement.antt =====
-- crates/router/src/lib.rs: `RoomRouter` as an implementation of a directory of peers.
use civ6_lan_bridge.Prelude.{◌≡◌, inl, inr, ap, nat_key, Result, ok, err, Result-cases, arith}
use civ6_lan_bridge.Prelude.HashMap
use civ6_lan_bridge.Protocol.Ports.{RoomId, PeerId, VirtualIp}
use civ6_lan_bridge.Router.State.{PeerState, RoomRouter, RouterConfig, Instant, new, RouterError}
use civ6_lan_bridge.Router.Peers.{join_room, leave_room, restore_peer}
use civ6_lan_bridge.Router.Invariant.{Valid}
use civ6_lan_bridge.Router.Invariant.Reachable.{
  Step, creates, creates_with_id, removes_empty, joins, restores, sees, resumes, leaves, registers,
  beats, beats_for_room, unregisters, asks, selects, routes, ends, dispatches, expires, Reachable,
  starts, steps, Reachable-Valid,
}
use civ6_lan_bridge.Router.Directory.{
  Event, still, entering, leaving, aging, Same, Entered, Single, Change, directory, place_of,
  Change-Single,
}
use civ6_lan_bridge.Router.Directory.Placing.{
  create_room-peers, create_room_with_id-peers, remove_empty_room-peers, register_host-peers,
  heartbeat_host-peers, heartbeat_host_for_room-peers, unregister_host-peers, begin_discovery-peers,
  select_host-peers, route_gameplay_datagram-peers, remove_gameplay_session-peers, dispatch-peers,
  mark_peer_seen-directory, resume_peer-directory, join_room-directory, leave_room-directory,
  expire-Thinner,
}

-- A call that is refused is no event.
abbrev performed : {A : Type 0} → Result RouterError A → Event → Event
performed (ok _) e = e
performed (err _) e = still

-- What each method's call is to the directory
unfoldable pub event : {s t : RoomRouter} → Step s t → Event
event {s} (creates r code) = still
event {s} (creates_with_id r code) = still
event {s} (removes_empty r) = still
event {s} (joins r p ip now) = performed (join_room s r p ip now).0 (entering r p ip)
event {s} (restores r p ip now) = performed (restore_peer s r p ip now).0 (entering r p ip)
event {s} (sees p now) = still
event {s} (resumes r p now) = still
event {s} (leaves r p) = performed (leave_room s r p).0 (leaving p)
event {s} (registers r p h now fresh) = still
event {s} (beats h now) = still
event {s} (beats_for_room r p h now) = still
event {s} (unregisters h) = still
event {s} (asks r p d port now) = still
event {s} (selects r p h g now) = still
event {s} (routes g p now) = still
event {s} (ends g) = still
event {s} (dispatches ingress) = still
event {s} (expires now) = aging

-- Where the table of peers is the same, so is the directory.
unmoved :
    {before after : HashMap.HashMap PeerId PeerState}
    → after ≡ before
    → Same (λ q. place_of (HashMap.get before q)) (λ q. place_of (HashMap.get after q))
unmoved same q = ap (λ peers. place_of (HashMap.get peers q)) same

join_room-Entered :
    (s : RoomRouter) (r : RoomId) (p : PeerId) (ip : VirtualIp) (now : Instant) (joined : Unit {0})
    → Valid s
    → (join_room s r p ip now).0 ≡ ok joined
    → Entered r p ip (directory s) (directory (join_room s r p ip now).1)
unfolding join_room place_of
join_room-Entered s r p ip now snapshot v joined = record {
  nowhere = ground (arith, joined);
  unused = λ q t. ground (arith, joined, v.ips_agree ip q);
  placed = λ q. join_room-directory s r p ip now q joined;
}

join_room-Same :
    (s : RoomRouter) (r : RoomId) (p : PeerId) (ip : VirtualIp) (now : Instant) (e : RouterError)
    → (join_room s r p ip now).0 ≡ err e
    → Same (directory s) (directory (join_room s r p ip now).1)
unfolding join_room
join_room-Same s r p ip now e refused q = ground (arith, refused)

leave_room-Same :
    (s : RoomRouter) (r : RoomId) (p : PeerId) (e : RouterError)
    → (leave_room s r p).0 ≡ err e
    → Same (directory s) (directory (leave_room s r p).1)
unfolding leave_room
leave_room-Same s r p e refused q = ground (arith, refused)

join_room-Change :
    (s : RoomRouter) (r : RoomId) (p : PeerId) (ip : VirtualIp) (now : Instant)
    → Valid s
    → Change
        (performed (join_room s r p ip now).0 (entering r p ip))
        (directory s)
        (directory (join_room s r p ip now).1)
unfolding Change
join_room-Change s r p ip now v = elim (Result-cases (join_room s r p ip now).0) [
  | inl (snapshot, joined) ↦ rw joined (join_room-Entered s r p ip now snapshot v joined)
  | inr (e, refused) ↦ rw refused (join_room-Same s r p ip now e refused)
]

leave_room-Change :
    (s : RoomRouter) (r : RoomId) (p : PeerId)
    → Change
        (performed (leave_room s r p).0 (leaving p))
        (directory s)
        (directory (leave_room s r p).1)
unfolding Change
leave_room-Change s r p = elim (Result-cases (leave_room s r p).0) [
  | inl (_, left) ↦ rw left (λ q. leave_room-directory s r p q left)
  | inr (e, refused) ↦ rw refused (leave_room-Same s r p e refused)
]

Step-Change :
    {s t : RoomRouter} (step : Step s t) → Valid s → Change (event step) (directory s) (directory t)
unfolding event Change
Step-Change {s} (creates r code) v = unmoved (create_room-peers s r code)
Step-Change {s} (creates_with_id r code) v = unmoved (create_room_with_id-peers s r code)
Step-Change {s} (removes_empty r) v = unmoved (remove_empty_room-peers s r)
Step-Change {s} (joins r p ip now) v = join_room-Change s r p ip now v
Step-Change {s} (restores r p ip now) v = unfold restore_peer in join_room-Change s r p ip now v
Step-Change {s} (sees p now) v = mark_peer_seen-directory s p now
Step-Change {s} (resumes r p now) v = resume_peer-directory s r p now
Step-Change {s} (leaves r p) v = leave_room-Change s r p
Step-Change {s} (registers r p h now fresh) v = unmoved (register_host-peers s r p h now)
Step-Change {s} (beats h now) v = unmoved (heartbeat_host-peers s h now)
Step-Change {s} (beats_for_room r p h now) v = unmoved (heartbeat_host_for_room-peers s r p h now)
Step-Change {s} (unregisters h) v = unmoved (unregister_host-peers s h)
Step-Change {s} (asks r p d port now) v = unmoved (begin_discovery-peers s r p d port now)
Step-Change {s} (selects r p h g now) v = unmoved (select_host-peers s r p h g now)
Step-Change {s} (routes g p now) v = unmoved (route_gameplay_datagram-peers s g p now)
Step-Change {s} (ends g) v = unmoved (remove_gameplay_session-peers s g)
Step-Change {s} (dispatches ingress) v = unmoved (dispatch-peers s ingress)
Step-Change {s} (expires now) v = expire-Thinner s now

-- In every router that calls of the methods make from a new one, a call does to the places of
-- the peers what it is as an event: a join that succeeds enters its peer, which was nowhere, in
-- its room at its address, which was unused, and nobody else; a departure that succeeds takes
-- away its peer's place alone; expire takes places away; every other call, and every refused
-- one, leaves all places as they are. So nothing moves a peer.
pub Reachable-Change :
    {config : RouterConfig} {s t : RoomRouter}
    → Reachable config s
    → (step : Step s t) → Change (event step) (directory s) (directory t)
Reachable-Change reached step = Step-Change step (Reachable-Valid reached)

new-Single : (config : RouterConfig) → Single (directory (new config))
unfolding new place_of
new-Single config p q r t ip at_p at_q = ground (arith, HashMap.get-new {V = PeerState} p)

-- In every router that calls of the methods make from a new one, no two peers are at one address,
-- in the same room or in different ones.
pub Reachable-Single :
    {config : RouterConfig} {s : RoomRouter} → Reachable config s → Single (directory s)
Reachable-Single {config} starts = new-Single config
Reachable-Single (steps r step) =
    Change-Single _ _ (event step) (Reachable-Change r step) (Reachable-Single r)
