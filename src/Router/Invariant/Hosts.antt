-- ===== src/Router/Invariant/Hosts.antt =====
-- crates/router/src/lib.rs: the invariant and `register_host`, `heartbeat_host`, `unregister_host`.
use civ6_lan_bridge.Prelude.{
  ◌+◌, ◌≡◌, inl, inr, ap, ◌∙◌, true, ◌==◌, nat_key, list_key, Option, none, some, arith,
  Option-cases, ==-refl, if◌then◌else◌, Result-cases, ok,
}
use civ6_lan_bridge.Prelude.HashMap
use civ6_lan_bridge.Prelude.HashMap.{update}
use civ6_lan_bridge.Prelude.HashSet
use civ6_lan_bridge.Protocol.Ports.{RoomId, PeerId, HostSessionId}
use civ6_lan_bridge.Router.State.{
  RoomState, PeerState, HostState, room_peer_key, RoomRouter, Instant,
}
use civ6_lan_bridge.Router.Rooms.{member_state}
use civ6_lan_bridge.Router.Hosts.{
  room_peer, remove_host, add_session, add_host, register_again, register_host, heartbeat_host,
  heartbeat_host_for_room, unregister_host, refresh,
}
use civ6_lan_bridge.Router.Invariant.{
  Valid, has_member, lists_session, hosted_in, satisfies, peer_leads_to, hosted_by,
}
use civ6_lan_bridge.Router.Invariant.Removal.{
  lists, remove_host-Valid, remove_host-Untouched, get-remove_host,
}

-- What `member_state` has tested.
pub member_state-ok :
    (s : RoomRouter) (r : RoomId) (p : PeerId) {peer : PeerState}
    → member_state s r p ≡ ok peer
    → (HashMap.get s.peers p ≡ some peer) × (peer.room_id ≡ r) × (has_member s r p ≡ true)
unfolding member_state
member_state-ok s r p h = ground arith

lists-add_session :
    (id h : HostSessionId) (o : Option RoomState)
    → satisfies (lists h) (update (add_session id) o)
      ≡ (if id == h then satisfies (λ _. true) o else satisfies (lists h) o)
lists-add_session id h none = ground arith
lists-add_session id h (some room) = ground (arith, HashSet.contains-insert room.host_sessions id h)

abbrev new_host : RoomRouter → RoomId → PeerId → PeerState → Instant → HostState
new_host s room_id peer_id peer now = record {
  room_id = room_id;
  peer_id = peer_id;
  virtual_ip = peer.virtual_ip;
  last_heartbeat = now;
  expires_at = now + s.config.host_ttl;
}

abbrev hosting : RoomRouter → RoomId → PeerId → PeerState → HostSessionId → Instant → RoomRouter
hosting s room_id peer_id peer session_id now = record s {
  hosts = HashMap.insert s.hosts session_id (new_host s room_id peer_id peer now);
  host_by_peer = HashMap.insert s.host_by_peer (room_peer room_id peer_id) session_id;
  rooms = HashMap.modify s.rooms room_id (add_session session_id);
}

module _ (s : RoomRouter) (room_id : RoomId) (peer_id : PeerId) (peer : PeerState)
    (session_id : HostSessionId) (now : Instant) (v : Valid s)
    (there : HashMap.get s.peers peer_id ≡ some peer) (placed : peer.room_id ≡ room_id)
    (fresh : HashMap.get s.hosts session_id ≡ none)
    (free : HashMap.get s.host_by_peer (room_peer room_id peer_id) ≡ none) where
  abbrev t : RoomRouter
  t = hosting s room_id peer_id peer session_id now

  hosting-sessions : (r : RoomId) (h : HostSessionId) → lists_session t r h ≡ hosted_in t h r
  hosting-sessions r h = ground (
    arith,
    there,
    fresh,
    HashMap.get-modify s.rooms room_id (add_session session_id) r,
    HashMap.get-insert s.hosts session_id (new_host s room_id peer_id peer now) h,
    lists-add_session session_id h (HashMap.get s.rooms r),
    v.sessions_agree r h,
    v.members_agree room_id peer_id,
  )

  hosting-hosts :
      (r : RoomId) (p : PeerId) (h : HostSessionId) → peer_leads_to t r p h ≡ hosted_by t h r p
  hosting-hosts r p h = ground (
    arith,
    fresh,
    free,
    HashMap.get-insert s.host_by_peer (room_peer room_id peer_id) session_id (room_peer r p),
    HashMap.get-insert s.hosts session_id (new_host s room_id peer_id peer now) h,
    v.hosts_agree r p h,
  )

  hosting-Valid : Valid t
  hosting-Valid = record {
    members_agree = λ r p.
        ground (
          arith,
          HashMap.get-modify s.rooms room_id (add_session session_id) r,
          v.members_agree r p,
        );
    ips_agree = v.ips_agree;
    codes_agree = λ c r.
        ground
          (arith, HashMap.get-modify s.rooms room_id (add_session session_id) r, v.codes_agree c r);
    sessions_agree = hosting-sessions;
    hosts_agree = hosting-hosts;
    hosts_stand = λ h. ground (
      arith,
      there,
      placed,
      HashMap.get-insert s.hosts session_id (new_host s room_id peer_id peer now) h,
      v.hosts_stand h,
    );
    gameplay_stands = v.gameplay_stands;
    discoveries_stand = v.discoveries_stand;
  }

  add_host-Valid : Valid (add_host s room_id peer_id peer session_id now).1
  unfolding add_host
  add_host-Valid = ground (arith, hosting-Valid)

refreshed-Valid :
    (s : RoomRouter) (id : HostSessionId) (now : Instant)
    → Valid s
    → Valid (record s { hosts = HashMap.modify s.hosts id (refresh s now) })
refreshed-Valid s id now v = record {
  members_agree = v.members_agree;
  ips_agree = v.ips_agree;
  codes_agree = v.codes_agree;
  sessions_agree =
      λ r h. ground (arith, HashMap.get-modify s.hosts id (refresh s now) h, v.sessions_agree r h);
  hosts_agree =
      λ r p h. ground (arith, HashMap.get-modify s.hosts id (refresh s now) h, v.hosts_agree r p h);
  hosts_stand =
      λ h. ground (arith, HashMap.get-modify s.hosts id (refresh s now) h, v.hosts_stand h);
  gameplay_stands = v.gameplay_stands;
  discoveries_stand = v.discoveries_stand;
}

-- A peer whose session is removed hosts nothing.
host_by_peer-remove_host :
    (s : RoomRouter) (r : RoomId) (p : PeerId) (id : HostSessionId)
    → Valid s
    → HashMap.get s.host_by_peer (room_peer r p) ≡ some id
    → HashMap.get (remove_host s id).host_by_peer (room_peer r p) ≡ none
unfolding remove_host
host_by_peer-remove_host s r p id v led = elim (Option-cases (HashMap.get s.hosts id)) [
  | inl e ↦ rw (e, remove_host) (ground (arith, e, v.hosts_agree r p id, ==-refl id))
  | inr (host, e) ↦
      rw (e, remove_host)
        (ground (
          arith,
          e,
          v.hosts_agree r p id,
          HashMap.get-remove s.host_by_peer (room_peer host.room_id host.peer_id) (room_peer r p),
        ))
]

module _ (s : RoomRouter) (room_id : RoomId) (peer_id : PeerId) (peer : PeerState)
    (session_id : HostSessionId) (now : Instant) (v : Valid s)
    (there : HashMap.get s.peers peer_id ≡ some peer) (placed : peer.room_id ≡ room_id)
    (fresh : HashMap.get s.hosts session_id ≡ none) where
  replaced-Valid :
      (existing_id : HostSessionId)
      → HashMap.get s.host_by_peer (room_peer room_id peer_id) ≡ some existing_id
      → Valid (add_host (remove_host s existing_id) room_id peer_id peer session_id now).1
  replaced-Valid existing_id led =
      add_host-Valid (remove_host s existing_id) room_id peer_id peer session_id now
        (remove_host-Valid s existing_id v)
        (ap (λ peers. HashMap.get peers peer_id) (remove_host-Untouched s existing_id).peers
          ∙ there)
        placed (ground (arith, fresh, get-remove_host s existing_id session_id))
        (host_by_peer-remove_host s room_id peer_id existing_id v led)

  register_again-Valid :
      (existing_id : HostSessionId)
      → HashMap.get s.host_by_peer (room_peer room_id peer_id) ≡ some existing_id
      → Valid (register_again s room_id peer_id peer existing_id session_id now).1
  unfolding register_again
  register_again-Valid existing_id led = elim (Option-cases (HashMap.get s.hosts existing_id)) [
    | inl e ↦ rw (e, register_again) (replaced-Valid existing_id led)
    | inr (host, e) ↦
        rw (e, register_again)
          (ground (arith, replaced-Valid existing_id led, refreshed-Valid s existing_id now v))
  ]

-- `register_host` keeps the tables in agreement, whether it refreshes the peer's session, replaces
-- an expired one, adds one or fails, if the identifier that it draws is not in use.
pub register_host-Valid :
    (s : RoomRouter) (room_id : RoomId) (peer_id : PeerId) (session_id : HostSessionId)
    (now : Instant)
    → HashMap.get s.hosts session_id ≡ none
    → Valid s
    → Valid (register_host s room_id peer_id session_id now).1
unfolding register_host
register_host-Valid s room_id peer_id session_id now fresh v =
    elim (Result-cases (member_state s room_id peer_id)) [
      | inr (e, failed) ↦ rw (failed, register_host) v
      | inl (peer, found) ↦
          let (there, placed, _) = member_state-ok s room_id peer_id found in
          elim (Option-cases (HashMap.get s.host_by_peer (room_peer room_id peer_id))) [
            | inl none_yet ↦
                rw (found, none_yet, register_host)
                  (add_host-Valid s room_id peer_id peer session_id now v there placed fresh
                    none_yet)
            | inr (existing_id, led) ↦
                rw (found, led, register_host)
                  (register_again-Valid s room_id peer_id peer session_id now v there placed fresh
                    existing_id led)
          ]
    ]

pub heartbeat_host-Valid :
    (s : RoomRouter) (id : HostSessionId) (now : Instant)
    → Valid s
    → Valid (heartbeat_host s id now).1
unfolding heartbeat_host
heartbeat_host-Valid s id now v = ground (arith, refreshed-Valid s id now v)

pub heartbeat_host_for_room-Valid :
    (s : RoomRouter) (room_id : RoomId) (peer_id : PeerId) (id : HostSessionId) (now : Instant)
    → Valid s
    → Valid (heartbeat_host_for_room s room_id peer_id id now).1
unfolding heartbeat_host_for_room
heartbeat_host_for_room-Valid s room_id peer_id id now v =
    ground (arith, heartbeat_host-Valid s id now v)

pub unregister_host-Valid :
    (s : RoomRouter) (id : HostSessionId) → Valid s → Valid (unregister_host s id).1
unfolding unregister_host
unregister_host-Valid s id v = ground (arith, remove_host-Valid s id v)
