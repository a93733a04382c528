-- ===== src/Router/Invariant/Joins.antt =====
-- crates/router/src/lib.rs: the invariant and `join_room`.
use civ6_lan_bridge.Prelude.{
  ◌≡◌, inl, inr, true, nat_key, list_key, none, some, arith, Option-cases,
}
use civ6_lan_bridge.Prelude.HashMap
use civ6_lan_bridge.Prelude.HashSet
use civ6_lan_bridge.Protocol.Ports.{RoomId, PeerId, HostSessionId, VirtualIp}
use civ6_lan_bridge.Protocol.RoomCode.{RoomCode}
use civ6_lan_bridge.Router.State.{RoomState, room_peer_key, RoomRouter, Instant}
use civ6_lan_bridge.Router.Peers.{join_room, add_member, new_peer}
use civ6_lan_bridge.Router.Invariant.{
  Valid, has_member, in_room, ip_leads_to, has_ip, code_leads_to, has_code, lists_session,
  hosted_in, stands_at, holds_for_mono, host_stands, host_stands_mono, session_stands,
  session_stands_mono, discovery_stands,
}

-- What `join_room` leaves behind when it lets the peer in.
abbrev joined : RoomRouter → RoomId → PeerId → VirtualIp → Instant → RoomRouter
joined s room_id peer_id virtual_ip now = record s {
  rooms = HashMap.modify s.rooms room_id (add_member peer_id);
  peers = HashMap.insert s.peers peer_id (new_peer room_id virtual_ip now);
  virtual_ips = HashMap.insert s.virtual_ips virtual_ip peer_id;
}

module _ (s : RoomRouter) (room_id : RoomId) (peer_id : PeerId) (virtual_ip : VirtualIp)
    (now : Instant) (v : Valid s) (room : RoomState)
    (found : HashMap.get s.rooms room_id ≡ some room) (fresh : HashMap.get s.peers peer_id ≡ none)
    (free : HashMap.get s.virtual_ips virtual_ip ≡ none) where
  s' : RoomRouter
  s' = joined s room_id peer_id virtual_ip now

  members : (r : RoomId) (p : PeerId) → has_member s' r p ≡ in_room s' r p
  unfolding s'
  members r p = ground (
    arith,
    found,
    fresh,
    HashMap.get-modify s.rooms room_id (add_member peer_id) r,
    HashMap.get-insert s.peers peer_id (new_peer room_id virtual_ip now) p,
    HashSet.contains-insert room.members peer_id p,
    v.members_agree r p,
  )

  ips : (ip : VirtualIp) (p : PeerId) → ip_leads_to s' ip p ≡ has_ip s' p ip
  unfolding s'
  ips ip p = ground (
    arith,
    free,
    fresh,
    HashMap.get-insert s.virtual_ips virtual_ip peer_id ip,
    HashMap.get-insert s.peers peer_id (new_peer room_id virtual_ip now) p,
    v.ips_agree ip p,
  )

  codes : (c : RoomCode) (r : RoomId) → code_leads_to s' c r ≡ has_code s' r c
  unfolding s'
  codes c r =
      ground (arith, HashMap.get-modify s.rooms room_id (add_member peer_id) r, v.codes_agree c r)

  sessions : (r : RoomId) (h : HostSessionId) → lists_session s' r h ≡ hosted_in s' h r
  unfolding s'
  sessions r h =
      ground
        (arith, HashMap.get-modify s.rooms room_id (add_member peer_id) r, v.sessions_agree r h)

  stands :
      (r : RoomId) (p : PeerId) (ip : VirtualIp)
      → stands_at s r p ip ≡ true
      → stands_at s' r p ip ≡ true
  unfolding s'
  stands r p ip h =
      ground (arith, fresh, HashMap.get-insert s.peers peer_id (new_peer room_id virtual_ip now) p)

  in_room-s' : (r : RoomId) (p : PeerId) → in_room s r p ≡ true → in_room s' r p ≡ true
  unfolding s'
  in_room-s' r p h =
      ground (arith, fresh, HashMap.get-insert s.peers peer_id (new_peer room_id virtual_ip now) p)

  joined-Valid : Valid s'
  unfolding s'
  joined-Valid = record {
    members_agree = members;
    ips_agree = ips;
    codes_agree = codes;
    sessions_agree = sessions;
    hosts_agree = v.hosts_agree;
    hosts_stand = λ h.
        holds_for_mono (host_stands s) (host_stands s') (HashMap.get s.hosts h)
          (host_stands_mono s s' stands) (v.hosts_stand h);
    gameplay_stands = λ g.
        holds_for_mono (session_stands s) (session_stands s') (HashMap.get s.gameplay g)
          (session_stands_mono s s' stands) (v.gameplay_stands g);
    discoveries_stand = λ d.
        holds_for_mono (discovery_stands s) (discovery_stands s') (HashMap.get s.discoveries d)
          (λ q. in_room-s' q.room_id q.client_peer_id) (v.discoveries_stand d);
  }

-- `join_room` keeps the tables in agreement, whether it lets the peer in or not.
pub join_room-Valid :
    (s : RoomRouter) (room_id : RoomId) (peer_id : PeerId) (virtual_ip : VirtualIp) (now : Instant)
    → Valid s
    → Valid (join_room s room_id peer_id virtual_ip now).1
unfolding join_room s'
join_room-Valid s room_id peer_id virtual_ip now v =
    elim (Option-cases (HashMap.get s.rooms room_id)) [
      | inl e ↦ rw (e, join_room) v
      | inr (room, e) ↦
          rw (e, join_room) (ground (arith, joined-Valid s room_id peer_id virtual_ip now v room e))
    ]
