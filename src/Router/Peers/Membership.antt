-- ===== src/Router/Peers/Membership.antt =====
-- crates/router/src/lib.rs: `join_room` and `leave_room`: who is admitted, and what is left behind.
use civ6_lan_bridge.Prelude.{
  ◌<◌, ◌≡◌, ◌↔◌, ◌⊎◌, true, false, ◌||◌, ◌==◌, nat_key, none, some, arith, ok,
}
use civ6_lan_bridge.Prelude.HashMap
use civ6_lan_bridge.Prelude.HashSet
use civ6_lan_bridge.Protocol.Ports.{
  RoomId, PeerId, VirtualIp, HostSessionId, GameplaySessionId, DiscoveryRequestId,
}
use civ6_lan_bridge.Router.State.{
  RoomState, HostState, DiscoveryState, GameplayState, RoomRouter, Instant,
}
use civ6_lan_bridge.Router.Rooms.{peer_for_virtual_ip}
use civ6_lan_bridge.Router.Peers.{
  join_room, leave_room, evict, drop_peer, drop_discoveries, drop_gameplay, drop_hosts, new_peer,
}
use civ6_lan_bridge.Router.Invariant.{Valid, satisfies, stands_at, has_member, ip_leads_to, has_ip}
use civ6_lan_bridge.Router.Invariant.Joins.{join_room-Valid}
use civ6_lan_bridge.Router.Invariant.Leaving.{leave_room-Valid}

-- A peer is admitted to a room that there is exactly if the room and the router have a place,
-- the peer is in no room, and nobody has the address; a refused peer changes nothing.
pub join_room_iff :
    (s : RoomRouter) (room_id : RoomId) (peer_id : PeerId) (virtual_ip : VirtualIp) (now : Instant)
    (room : RoomState)
    → HashMap.get s.rooms room_id ≡ some room
    → (((join_room s room_id peer_id virtual_ip now).0 ≡ ok tt) ↔ (
        (HashSet.len room.members < s.config.max_peers_per_room)
        × (HashMap.len s.peers < s.config.max_total_peers)
        × (HashMap.get s.peers peer_id ≡ none)
        × (HashMap.get s.virtual_ips virtual_ip ≡ none)))
      × (((join_room s room_id peer_id virtual_ip now).0 ≡ ok tt)
          ⊎ ((join_room s room_id peer_id virtual_ip now).1 ≡ s))
unfolding join_room
join_room_iff s room_id peer_id virtual_ip now room e =
    ((λ h. ground arith, λ h. ground arith), ground arith)

pub join_room-stands :
    (s : RoomRouter) (room_id : RoomId) (peer_id : PeerId) (virtual_ip : VirtualIp) (now : Instant)
    → (join_room s room_id peer_id virtual_ip now).0 ≡ ok tt
    → (stands_at (join_room s room_id peer_id virtual_ip now).1 room_id peer_id virtual_ip ≡ true)
      × (peer_for_virtual_ip (join_room s room_id peer_id virtual_ip now).1 virtual_ip
          ≡ some peer_id)
unfolding join_room peer_for_virtual_ip
join_room-stands s room_id peer_id virtual_ip now done = (
  ground (arith, HashMap.get-insert s.peers peer_id (new_peer room_id virtual_ip now) peer_id),
  ground (arith, HashMap.get-insert s.virtual_ips virtual_ip peer_id virtual_ip),
)

-- In a router whose tables agree, an admitted peer stands in its room under its address, is a
-- member, is found by the address, and is the only one that holds it.
pub join_room_places :
    (s : RoomRouter) (room_id : RoomId) (peer_id : PeerId) (virtual_ip : VirtualIp) (now : Instant)
    → Valid s
    → (join_room s room_id peer_id virtual_ip now).0 ≡ ok tt
    → (stands_at (join_room s room_id peer_id virtual_ip now).1 room_id peer_id virtual_ip ≡ true)
      × (has_member (join_room s room_id peer_id virtual_ip now).1 room_id peer_id ≡ true)
      × (peer_for_virtual_ip (join_room s room_id peer_id virtual_ip now).1 virtual_ip
          ≡ some peer_id)
      × ((other : PeerId)
          → has_ip (join_room s room_id peer_id virtual_ip now).1 other virtual_ip
            ≡ (peer_id == other))
unfolding peer_for_virtual_ip
join_room_places s room_id peer_id virtual_ip now v done =
    let w = join_room-Valid s room_id peer_id virtual_ip now v in
    let placed = join_room-stands s room_id peer_id virtual_ip now done in
    (
      placed.0,
      ground (arith, w.members_agree room_id peer_id, placed.0),
      placed.1,
      λ other. ground (arith, w.ips_agree virtual_ip other, placed.1),
    )

-- What is left of a peer that is not in the table of peers.
module _ (s : RoomRouter) (p : PeerId) (v : Valid s) (gone : HashMap.get s.peers p ≡ none) where
  no_room : (r : RoomId) → has_member s r p ≡ false
  no_room r = ground (arith, v.members_agree r p)

  no_ip : (ip : VirtualIp) → ip_leads_to s ip p ≡ false
  no_ip ip = ground (arith, v.ips_agree ip p)

  no_host :
      (h : HostSessionId)
      → satisfies (λ (host : HostState). host.peer_id == p) (HashMap.get s.hosts h) ≡ false
  no_host h = ground (arith, v.hosts_stand h)

  no_session :
      (g : GameplaySessionId)
      → satisfies
          (λ (session : GameplayState). session.client_peer_id == p || session.host_peer_id == p)
          (HashMap.get s.gameplay g)
        ≡ false
  no_session g = ground (arith, v.gameplay_stands g)

  no_request :
      (d : DiscoveryRequestId)
      → satisfies
          (λ (discovery : DiscoveryState). discovery.client_peer_id == p)
          (HashMap.get s.discoveries d)
        ≡ false
  no_request d = ground (arith, v.discoveries_stand d)

leave_room-peers :
    (s : RoomRouter) (room_id : RoomId) (peer_id : PeerId)
    → (leave_room s room_id peer_id).0 ≡ ok tt
    → HashMap.get (leave_room s room_id peer_id).1.peers peer_id ≡ none
unfolding leave_room evict drop_peer
leave_room-peers s room_id peer_id done = ground (
  arith,
  HashMap.get-remove
      (drop_discoveries (drop_gameplay (drop_hosts s room_id peer_id) room_id peer_id) room_id
        peer_id).peers
      peer_id peer_id,
)

-- No room counts the peer as a member, no address leads to it, and it has no host session, no
-- gameplay session and no discovery request.
pub record Gone (s : RoomRouter) (p : PeerId) : Type 0 where
  pub rooms : (r : RoomId) → has_member s r p ≡ false
  pub ips : (ip : VirtualIp) → ip_leads_to s ip p ≡ false
  pub hosts :
      (h : HostSessionId)
      → satisfies (λ (host : HostState). host.peer_id == p) (HashMap.get s.hosts h) ≡ false
  pub gameplay :
      (g : GameplaySessionId)
      → satisfies
          (λ (session : GameplayState). session.client_peer_id == p || session.host_peer_id == p)
          (HashMap.get s.gameplay g)
        ≡ false
  pub discoveries :
      (d : DiscoveryRequestId)
      → satisfies
          (λ (discovery : DiscoveryState). discovery.client_peer_id == p)
          (HashMap.get s.discoveries d)
        ≡ false

-- In a router whose tables agree, after a peer has left its room no room counts it, no address
-- leads to it, and it has no host session, no gameplay session and no discovery request.
pub leave_room_clears :
    (s : RoomRouter) (room_id : RoomId) (peer_id : PeerId)
    → Valid s
    → (leave_room s room_id peer_id).0 ≡ ok tt
    → Gone (leave_room s room_id peer_id).1 peer_id
leave_room_clears s room_id peer_id v done =
    let t = (leave_room s room_id peer_id).1 in
    let w = leave_room-Valid s room_id peer_id v in
    let gone = leave_room-peers s room_id peer_id done in
    record {
      rooms = no_room t peer_id w gone;
      ips = no_ip t peer_id w gone;
      hosts = no_host t peer_id w gone;
      gameplay = no_session t peer_id w gone;
      discoveries = no_request t peer_id w gone;
    }
