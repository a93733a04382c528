-- ===== src/Router/Invariant/Dropping.antt =====
-- crates/router/src/lib.rs: the parts of `leave_room`.
use civ6_lan_bridge.Prelude.{
  ◌≡◌, inl, inr, true, false, ◌==◌, nat_key, list_key, Option, none, some, arith, Option-cases,
  if◌then◌else◌, List,
}
use civ6_lan_bridge.Prelude.HashMap
use civ6_lan_bridge.Prelude.HashMap.{HashMap, update}
use civ6_lan_bridge.Prelude.HashSet
use civ6_lan_bridge.Protocol.Ports.{
  RoomId, PeerId, HostSessionId, GameplaySessionId, DiscoveryRequestId,
}
use civ6_lan_bridge.Router.State.{RoomState, PeerState, HostState, room_peer_key, RoomRouter}
use civ6_lan_bridge.Router.Peers.{
  drop_hosts, drop_gameplay, drop_discoveries, drop_member, hosts_of, plays_in, asks_in,
}
use civ6_lan_bridge.Router.Invariant.{
  Valid, satisfies, session_stands, holds_for, stands_at, discovery_stands,
}
use civ6_lan_bridge.Router.Invariant.Removal.{get-remove_hosts}
use civ6_lan_bridge.Router.Invariant.Sessions.{gameplay-Valid, discoveries-Valid}

members-drop_member :
    (p q : PeerId) (o : Option RoomState)
    → satisfies (λ (room : RoomState). HashSet.contains room.members q) (update (drop_member p) o)
      ≡ (if p == q
          then false
          else satisfies (λ (room : RoomState). HashSet.contains room.members q) o)
members-drop_member p q none = ground arith
members-drop_member p q (some room) = ground (arith, HashSet.contains-remove room.members p q)

-- A peer that hosts nothing, plays nothing and asks for nothing can be dropped.
module _ (s : RoomRouter) (room_id : RoomId) (peer_id : PeerId) (peer : PeerState) (v : Valid s)
    (there : HashMap.get s.peers peer_id ≡ some peer) (placed : peer.room_id ≡ room_id)
    (no_hosts : (h : HostSessionId)
      → satisfies (hosts_of room_id peer_id) (HashMap.get s.hosts h) ≡ false)
    (no_play : (g : GameplaySessionId)
      → satisfies (plays_in room_id peer_id) (HashMap.get s.gameplay g) ≡ false)
    (no_request : (d : DiscoveryRequestId)
      → satisfies (asks_in room_id peer_id) (HashMap.get s.discoveries d) ≡ false) where
  abbrev pub dropped : RoomRouter
  dropped = record s {
    rooms = HashMap.modify s.rooms room_id (drop_member peer_id);
    peers = HashMap.remove s.peers peer_id;
    virtual_ips = HashMap.remove s.virtual_ips peer.virtual_ip;
  }

  pub dropped-Valid : Valid dropped
  dropped-Valid = record {
    members_agree = λ r p. ground (
      arith,
      there,
      placed,
      HashMap.get-modify s.rooms room_id (drop_member peer_id) r,
      HashMap.get-remove s.peers peer_id p,
      members-drop_member peer_id p (HashMap.get s.rooms r),
      v.members_agree r p,
    );
    ips_agree = λ ip p. ground (
      arith,
      there,
      HashMap.get-remove s.virtual_ips peer.virtual_ip ip,
      HashMap.get-remove s.peers peer_id p,
      v.ips_agree ip p,
      v.ips_agree ip peer_id,
    );
    codes_agree = λ c r.
        ground
          (arith, HashMap.get-modify s.rooms room_id (drop_member peer_id) r, v.codes_agree c r);
    sessions_agree = λ r h.
        ground
          (arith, HashMap.get-modify s.rooms room_id (drop_member peer_id) r, v.sessions_agree r h);
    hosts_agree = v.hosts_agree;
    hosts_stand = hosts;
    gameplay_stands = play;
    discoveries_stand = requests;
  }
    where
      hosts :
          (h : HostSessionId)
          → holds_for
              (λ (host : HostState). stands_at dropped host.room_id host.peer_id host.virtual_ip)
              (HashMap.get s.hosts h)
            ≡ true
      hosts h = elim (Option-cases (HashMap.get s.hosts h)) [
        | inl e ↦ rw e
        | inr (host, e) ↦ rw e (
            ground (
              arith,
              e,
              there,
              placed,
              no_hosts h,
              v.hosts_stand h,
              HashMap.get-remove s.peers peer_id host.peer_id,
            ))
      ]

      play :
          (g : GameplaySessionId)
          → holds_for (session_stands dropped) (HashMap.get s.gameplay g) ≡ true
      play g = elim (Option-cases (HashMap.get s.gameplay g)) [
        | inl e ↦ rw e
        | inr (session, e) ↦ rw e (
            ground (
              arith,
              e,
              there,
              placed,
              no_play g,
              v.gameplay_stands g,
              HashMap.get-remove s.peers peer_id session.host_peer_id,
              HashMap.get-remove s.peers peer_id session.client_peer_id,
            ))
      ]

      requests :
          (d : DiscoveryRequestId)
          → holds_for (discovery_stands dropped) (HashMap.get s.discoveries d) ≡ true
      requests d = elim (Option-cases (HashMap.get s.discoveries d)) [
        | inl e ↦ rw e
        | inr (request, e) ↦ rw e (
            ground (
              arith,
              e,
              there,
              placed,
              no_request d,
              v.discoveries_stand d,
              HashMap.get-remove s.peers peer_id request.client_peer_id,
            ))
      ]

module _ (s : RoomRouter) (room_id : RoomId) (peer_id : PeerId) where
  pub drop_hosts-none :
      (h : HostSessionId)
      → satisfies (hosts_of room_id peer_id) (HashMap.get (drop_hosts s room_id peer_id).hosts h)
        ≡ false
  unfolding drop_hosts
  drop_hosts-none h = ground (
    arith,
    get-remove_hosts s (HashMap.keys_where s.hosts (λ _ host. hosts_of room_id peer_id host)) h,
    HashMap.elem-keys_where s.hosts (λ _ host. hosts_of room_id peer_id host) h,
  )

  pub drop_gameplay-none :
      (g : GameplaySessionId)
      → satisfies
          (plays_in room_id peer_id)
          (HashMap.get (drop_gameplay s room_id peer_id).gameplay g)
        ≡ false
  unfolding drop_gameplay
  drop_gameplay-none g = ground (
    arith,
    HashMap.get-remove_all s.gameplay
        (HashMap.keys_where s.gameplay (λ _ session. plays_in room_id peer_id session)) g,
    HashMap.elem-keys_where s.gameplay (λ _ session. plays_in room_id peer_id session) g,
  )

  pub drop_discoveries-none :
      (d : DiscoveryRequestId)
      → satisfies
          (asks_in room_id peer_id)
          (HashMap.get (drop_discoveries s room_id peer_id).discoveries d)
        ≡ false
  unfolding drop_discoveries
  drop_discoveries-none d = ground (
    arith,
    HashMap.get-remove_all s.discoveries
        (HashMap.keys_where s.discoveries (λ _ discovery. asks_in room_id peer_id discovery)) d,
    HashMap.elem-keys_where s.discoveries (λ _ discovery. asks_in room_id peer_id discovery) d,
  )

-- Removing entries from the tables of sessions and requests keeps the rest.
pub remove_gameplay-Valid :
    (s : RoomRouter) (ids : List GameplaySessionId)
    → Valid s
    → Valid (record s { gameplay = HashMap.remove_all s.gameplay ids })
remove_gameplay-Valid s ids v =
    gameplay-Valid s (HashMap.remove_all s.gameplay ids)
      (λ g. ground (arith, HashMap.get-remove_all s.gameplay ids g, v.gameplay_stands g)) v

pub remove_discoveries-Valid :
    (s : RoomRouter) (ids : List DiscoveryRequestId)
    → Valid s
    → Valid (record s { discoveries = HashMap.remove_all s.discoveries ids })
remove_discoveries-Valid s ids v =
    discoveries-Valid s (HashMap.remove_all s.discoveries ids)
      (λ d. ground (arith, HashMap.get-remove_all s.discoveries ids d, v.discoveries_stand d)) v
