-- ===== src/Router/Invariant/Reachable.antt =====
-- crates/router/src/lib.rs: the calls that change a router, and the routers that they make.
use civ6_lan_bridge.Prelude.{◌≡◌, none, nat_key}
use civ6_lan_bridge.Prelude.HashMap
use civ6_lan_bridge.Protocol.Ports.{
  RoomId, PeerId, HostSessionId, VirtualIp, GameplaySessionId, DiscoveryRequestId, Civ6UdpPort,
}
use civ6_lan_bridge.Protocol.RoomCode.{RoomCode}
use civ6_lan_bridge.Router.State.{RoomRouter, RouterConfig, Instant, new}
use civ6_lan_bridge.Router.Rooms.{create_room, create_room_with_id, remove_empty_room}
use civ6_lan_bridge.Router.Hosts.{
  register_host, heartbeat_host, heartbeat_host_for_room, unregister_host,
}
use civ6_lan_bridge.Router.Peers.{join_room, restore_peer, mark_peer_seen, resume_peer, leave_room}
use civ6_lan_bridge.Router.Discovery.{begin_discovery}
use civ6_lan_bridge.Router.Gameplay.{select_host, route_gameplay_datagram, remove_gameplay_session}
use civ6_lan_bridge.Router.Expiry.{expire}
use civ6_lan_bridge.Router.Dispatch.{dispatch, RelayIngress}
use civ6_lan_bridge.Router.Invariant.{Valid}
use civ6_lan_bridge.Router.Invariant.Rooms.{
  new-Valid, create_room-Valid, create_room_with_id-Valid, remove_empty_room-Valid,
}
use civ6_lan_bridge.Router.Invariant.Joins.{join_room-Valid}
use civ6_lan_bridge.Router.Invariant.Hosts.{
  register_host-Valid, heartbeat_host-Valid, heartbeat_host_for_room-Valid, unregister_host-Valid,
}
use civ6_lan_bridge.Router.Invariant.Sessions.{
  mark_peer_seen-Valid, resume_peer-Valid, begin_discovery-Valid, select_host-Valid,
  route_gameplay_datagram-Valid, remove_gameplay_session-Valid, dispatch-Valid,
}
use civ6_lan_bridge.Router.Invariant.Leaving.{leave_room-Valid}
use civ6_lan_bridge.Router.Invariant.Expiring.{expire-Valid}

-- One call of a method that changes the router; a refused call is a step too. Identifiers that
-- the source draws at random are arguments, and a host session's is not in use.
pub data Step (s : RoomRouter) : RoomRouter → Type 0 where
  creates : (r : RoomId) (code : RoomCode) → Step s (create_room s r code).1
  creates_with_id : (r : RoomId) (code : RoomCode) → Step s (create_room_with_id s r code).1
  removes_empty : (r : RoomId) → Step s (remove_empty_room s r).1
  joins :
      (r : RoomId) (p : PeerId) (ip : VirtualIp) (now : Instant) → Step s (join_room s r p ip now).1
  restores :
      (r : RoomId) (p : PeerId) (ip : VirtualIp) (now : Instant)
      → Step s (restore_peer s r p ip now).1
  sees : (p : PeerId) (now : Instant) → Step s (mark_peer_seen s p now).1
  resumes : (r : RoomId) (p : PeerId) (now : Instant) → Step s (resume_peer s r p now).1
  leaves : (r : RoomId) (p : PeerId) → Step s (leave_room s r p).1
  registers :
      (r : RoomId) (p : PeerId) (h : HostSessionId) (now : Instant)
      → HashMap.get s.hosts h ≡ none
      → Step s (register_host s r p h now).1
  beats : (h : HostSessionId) (now : Instant) → Step s (heartbeat_host s h now).1
  beats_for_room :
      (r : RoomId) (p : PeerId) (h : HostSessionId) (now : Instant)
      → Step s (heartbeat_host_for_room s r p h now).1
  unregisters : (h : HostSessionId) → Step s (unregister_host s h).1
  asks :
      (r : RoomId) (p : PeerId) (d : DiscoveryRequestId) (port : Civ6UdpPort) (now : Instant)
      → Step s (begin_discovery s r p d port now).1
  selects :
      (r : RoomId) (p : PeerId) (h : HostSessionId) (g : GameplaySessionId) (now : Instant)
      → Step s (select_host s r p h g now).1
  routes :
      (g : GameplaySessionId) (p : PeerId) (now : Instant)
      → Step s (route_gameplay_datagram s g p now).1
  ends : (g : GameplaySessionId) → Step s (remove_gameplay_session s g).1
  dispatches : (ingress : RelayIngress) → Step s (dispatch s ingress).1
  expires : (now : Instant) → Step s (expire s now).1

pub data Reachable (config : RouterConfig) : RoomRouter → Type 0 where
  starts : Reachable config (new config)
  steps : {s t : RoomRouter} → Reachable config s → Step s t → Reachable config t

pub Step-Valid : {s t : RoomRouter} → Step s t → Valid s → Valid t
Step-Valid {s} (creates r code) v = create_room-Valid s r code v
Step-Valid {s} (creates_with_id r code) v = create_room_with_id-Valid s r code v
Step-Valid {s} (removes_empty r) v = remove_empty_room-Valid s r v
Step-Valid {s} (joins r p ip now) v = join_room-Valid s r p ip now v
Step-Valid {s} (restores r p ip now) v = unfold restore_peer in join_room-Valid s r p ip now v
Step-Valid {s} (sees p now) v = mark_peer_seen-Valid s p now v
Step-Valid {s} (resumes r p now) v = resume_peer-Valid s r p now v
Step-Valid {s} (leaves r p) v = leave_room-Valid s r p v
Step-Valid {s} (registers r p h now fresh) v = register_host-Valid s r p h now fresh v
Step-Valid {s} (beats h now) v = heartbeat_host-Valid s h now v
Step-Valid {s} (beats_for_room r p h now) v = heartbeat_host_for_room-Valid s r p h now v
Step-Valid {s} (unregisters h) v = unregister_host-Valid s h v
Step-Valid {s} (asks r p d port now) v = begin_discovery-Valid s r p d port now v
Step-Valid {s} (selects r p h g now) v = select_host-Valid s r p h g now v
Step-Valid {s} (routes g p now) v = route_gameplay_datagram-Valid s g p now v
Step-Valid {s} (ends g) v = remove_gameplay_session-Valid s g v
Step-Valid {s} (dispatches ingress) v = dispatch-Valid s ingress v
Step-Valid {s} (expires now) v = expire-Valid s now v

-- In every router that calls of the methods, refused ones included, make from a new one,
-- members, addresses, codes, host sessions, gameplay sessions and requests agree, as long as no
-- host session identifier is drawn twice.
pub Reachable-Valid : {config : RouterConfig} {s : RoomRouter} → Reachable config s → Valid s
Reachable-Valid {config} starts = new-Valid config
Reachable-Valid (steps r step) = Step-Valid step (Reachable-Valid r)
