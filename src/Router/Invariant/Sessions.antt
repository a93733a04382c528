-- ===== src/Router/Invariant/Sessions.antt =====
-- crates/router/src/lib.rs: the invariant and the methods on peers that stay, on requests and on
-- gameplay sessions, and `dispatch`.
use civ6_lan_bridge.Prelude.{
  ℕ, ◌+◌, ◌<◌, ◌≡◌, inl, inr, refl, sym, ◌∙◌, Bool, true, ◌&&◌, ◌==◌, nat_key, list_key, Option,
  none, some, arith, Option-cases, Result-cases, ok, List, length,
}
use civ6_lan_bridge.Prelude.HashMap
use civ6_lan_bridge.Prelude.HashMap.{HashMap, update}
use civ6_lan_bridge.Protocol.Ports.{
  RoomId, PeerId, HostSessionId, VirtualIp, GameplaySessionId, DiscoveryRequestId, Civ6UdpPort,
}
use civ6_lan_bridge.Router.State.{
  PeerState, HostState, DiscoveryState, GameplayState, room_peer_key, RoomRouter, Instant,
}
use civ6_lan_bridge.Router.Rooms.{member_state, room_for_peer, validate_payload}
use civ6_lan_bridge.Router.Peers.{mark_peer_seen, resume_peer, resume_state, see}
use civ6_lan_bridge.Router.Discovery.{remember, begin_discovery}
use civ6_lan_bridge.Router.Gameplay.{
  playable, new_session, select_host, route_gameplay_datagram, keep_alive, remove_gameplay_session,
}
use civ6_lan_bridge.Router.Dispatch.{
  dispatch, dispatch_discovery, dispatch_gameplay, RelayIngress, discovery, discovery_response,
  gameplay,
}
use civ6_lan_bridge.Router.Invariant.{
  Valid, satisfies, session_stands, holds_for, stands_at, holds_for_mono, host_stands,
  host_stands_mono, session_stands_mono, discovery_stands,
}
use civ6_lan_bridge.Router.Invariant.Hosts.{member_state-ok}

-- A change of a peer's state that keeps its room and its address.
module _ (s : RoomRouter) (peer_id : PeerId) (f : PeerState → PeerState)
    (same_room : (peer : PeerState)
      → HashMap.get s.peers peer_id ≡ some peer
      → (f peer).room_id ≡ peer.room_id)
    (same_ip : (peer : PeerState)
      → HashMap.get s.peers peer_id ≡ some peer
      → (f peer).virtual_ip ≡ peer.virtual_ip) where
  abbrev t : RoomRouter
  t = record s { peers = HashMap.modify s.peers peer_id f }

  at_peer :
      (g : RoomId → VirtualIp → Bool) (p : PeerId)
      → satisfies (λ (peer : PeerState). g peer.room_id peer.virtual_ip) (HashMap.get t.peers p)
        ≡ satisfies (λ (peer : PeerState). g peer.room_id peer.virtual_ip) (HashMap.get s.peers p)
  at_peer g p = elim (Option-cases (HashMap.get s.peers peer_id)) [
    | inl e ↦ ground (arith, e, HashMap.get-modify s.peers peer_id f p)
    | inr (peer, e) ↦
        ground (arith, e, same_room peer e, same_ip peer e, HashMap.get-modify s.peers peer_id f p)
  ]

  pub peer_modified-Valid : Valid s → Valid t
  peer_modified-Valid v = record {
    members_agree = λ r p. v.members_agree r p ∙ sym (at_peer (λ room ip. room == r) p);
    ips_agree = λ ip p. v.ips_agree ip p ∙ sym (at_peer (λ room own. own == ip) p);
    codes_agree = v.codes_agree;
    sessions_agree = v.sessions_agree;
    hosts_agree = v.hosts_agree;
    hosts_stand = λ h.
        holds_for_mono (host_stands s) (host_stands t) (HashMap.get s.hosts h)
          (host_stands_mono s t stands) (v.hosts_stand h);
    gameplay_stands = λ g.
        holds_for_mono (session_stands s) (session_stands t) (HashMap.get s.gameplay g)
          (session_stands_mono s t stands) (v.gameplay_stands g);
    discoveries_stand = λ d.
        holds_for_mono (discovery_stands s) (discovery_stands t) (HashMap.get s.discoveries d)
          (λ q h. at_peer (λ room _. room == q.room_id) q.client_peer_id ∙ h)
          (v.discoveries_stand d);
  }
    where
      stands :
          (r : RoomId) (p : PeerId) (ip : VirtualIp)
          → stands_at s r p ip ≡ true
          → stands_at t r p ip ≡ true
      stands r p ip h = at_peer (λ room own. room == r && own == ip) p ∙ h

pub mark_peer_seen-Valid :
    (s : RoomRouter) (peer_id : PeerId) (now : Instant)
    → Valid s
    → Valid (mark_peer_seen s peer_id now).1
unfolding mark_peer_seen
mark_peer_seen-Valid s peer_id now v =
    ground (arith, peer_modified-Valid s peer_id (see now) (λ _ _. refl) (λ _ _. refl) v)

resume_state-same :
    (grace : ℕ) (now : Instant) (peer resumed : PeerState)
    → resume_state grace now peer ≡ some resumed
    → (resumed.room_id ≡ peer.room_id) × (resumed.virtual_ip ≡ peer.virtual_ip)
unfolding resume_state
resume_state-same grace now peer resumed h = ground arith

resumed-Valid :
    (s : RoomRouter) (peer_id : PeerId) (now : Instant) (peer resumed : PeerState)
    → Valid s
    → HashMap.get s.peers peer_id ≡ some peer
    → resume_state s.config.peer_grace_ttl now peer ≡ some resumed
    → Valid (record s { peers = HashMap.modify s.peers peer_id (λ _. resumed) })
resumed-Valid s peer_id now peer resumed v there h =
    peer_modified-Valid s peer_id (λ _. resumed) (λ p e. ground (arith, there, same))
      (λ p e. ground (arith, there, same)) v
  where
    same : (resumed.room_id ≡ peer.room_id) × (resumed.virtual_ip ≡ peer.virtual_ip)
    same = resume_state-same s.config.peer_grace_ttl now peer resumed h

pub resume_peer-Valid :
    (s : RoomRouter) (room_id : RoomId) (peer_id : PeerId) (now : Instant)
    → Valid s
    → Valid (resume_peer s room_id peer_id now).1
unfolding resume_peer
resume_peer-Valid s room_id peer_id now v = elim (Option-cases (HashMap.get s.peers peer_id)) [
  | inl e ↦ rw (e, resume_peer) v
  | inr (peer, e) ↦ elim (Option-cases (resume_state s.config.peer_grace_ttl now peer)) [
    | inl over ↦ rw (e, resume_peer) (ground (arith, over))
    | inr (resumed, h) ↦
        rw (e, resume_peer) (ground (arith, h, resumed-Valid s peer_id now peer resumed v e h))
  ]
]

pub discoveries-Valid :
    (s : RoomRouter) (discoveries : HashMap DiscoveryRequestId DiscoveryState)
    → ((d : DiscoveryRequestId) → holds_for (discovery_stands s) (HashMap.get discoveries d) ≡ true)
    → Valid s
    → Valid (record s { discoveries = discoveries })
discoveries-Valid s discoveries stand v = record {
  members_agree = v.members_agree;
  ips_agree = v.ips_agree;
  codes_agree = v.codes_agree;
  sessions_agree = v.sessions_agree;
  hosts_agree = v.hosts_agree;
  hosts_stand = v.hosts_stand;
  gameplay_stands = v.gameplay_stands;
  discoveries_stand = stand;
}

pub gameplay-Valid :
    (s : RoomRouter) (table : HashMap GameplaySessionId GameplayState)
    → ((g : GameplaySessionId) → holds_for (session_stands s) (HashMap.get table g) ≡ true)
    → Valid s
    → Valid (record s { gameplay = table })
gameplay-Valid s table stand v = record {
  members_agree = v.members_agree;
  ips_agree = v.ips_agree;
  codes_agree = v.codes_agree;
  sessions_agree = v.sessions_agree;
  hosts_agree = v.hosts_agree;
  hosts_stand = v.hosts_stand;
  gameplay_stands = stand;
  discoveries_stand = v.discoveries_stand;
}

pub remember-some :
    (room_id : RoomId) (client_peer_id : PeerId) (port : Civ6UdpPort) (expires_at : Instant)
    (old : Option DiscoveryState) (entry : DiscoveryState)
    → remember room_id client_peer_id port expires_at old ≡ some entry
    → entry ≡ record {
      room_id = room_id;
      client_peer_id = client_peer_id;
      destination_port = port;
      expires_at = expires_at;
    }
unfolding remember
remember-some room_id client_peer_id port expires_at none entry h = cc
remember-some room_id client_peer_id port expires_at (some old) entry h = ground arith

-- `begin_discovery` keeps the tables in agreement, also where it fails.
pub begin_discovery-Valid :
    (s : RoomRouter) (room_id : RoomId) (client_peer_id : PeerId) (request_id : DiscoveryRequestId)
    (port : Civ6UdpPort) (now : Instant)
    → Valid s
    → Valid (begin_discovery s room_id client_peer_id request_id port now).1
unfolding begin_discovery
begin_discovery-Valid s room_id client_peer_id request_id port now v =
    elim (Result-cases (member_state s room_id client_peer_id)) [
      | inr (e, failed) ↦ ground (arith, failed)
      | inl (peer, found) ↦ elim (Option-cases entry?) [
        | inl conflict ↦ ground (arith, found, conflict)
        | inr (entry, h) ↦
            let entry_lem =
              remember-some room_id client_peer_id port (now + s.config.discovery_ttl)
                (HashMap.get s.discoveries request_id) entry h in
            ground (
              arith,
              found,
              h,
              discoveries-Valid s (HashMap.insert s.discoveries request_id entry)
                  (λ d. ground (
                    arith,
                    entry_lem,
                    member_state-ok s room_id client_peer_id found,
                    HashMap.get-insert s.discoveries request_id entry d,
                    v.discoveries_stand d,
                  ))
                  v,
            )
      ]
    ]
  where
    entry? : Option DiscoveryState
    entry? =
        remember room_id client_peer_id port (now + s.config.discovery_ttl)
          (HashMap.get s.discoveries request_id)

playable-ok :
    (s : RoomRouter) (room_id : RoomId) (client_peer_id : PeerId) (host_session_id : HostSessionId)
    (now : Instant) (client : PeerState) (host : HostState)
    → playable s room_id client_peer_id host_session_id now ≡ ok (client, host)
    → (member_state s room_id client_peer_id ≡ ok client)
      × (HashMap.get s.hosts host_session_id ≡ some host)
      × (host.room_id ≡ room_id)
      × (now < host.expires_at)
      × (HashMap.len s.gameplay < s.config.max_gameplay_sessions)
unfolding playable
playable-ok s room_id client_peer_id host_session_id now client host h = ground arith

-- `select_host` keeps the tables in agreement, also where it fails.
pub select_host-Valid :
    (s : RoomRouter) (room_id : RoomId) (client_peer_id : PeerId) (host_session_id : HostSessionId)
    (session_id : GameplaySessionId) (now : Instant)
    → Valid s
    → Valid (select_host s room_id client_peer_id host_session_id session_id now).1
unfolding select_host
select_host-Valid s room_id client_peer_id host_session_id session_id now v =
    elim (Result-cases (playable s room_id client_peer_id host_session_id now)) [
      | inr (e, failed) ↦ rw (failed, select_host) v
      | inl ((client, host), h) ↦
          let (member, there, placed, _, _) =
            playable-ok s room_id client_peer_id host_session_id now client host h in
          let entry = new_session s room_id client_peer_id client host now in
          rw (h, select_host)
            (gameplay-Valid s (HashMap.insert s.gameplay session_id entry)
              (λ g. ground (
                arith,
                there,
                placed,
                member_state-ok s room_id client_peer_id member,
                HashMap.get-insert s.gameplay session_id entry g,
                v.hosts_stand host_session_id,
                v.gameplay_stands g,
              ))
              v)
    ]

pub route_gameplay_datagram-Valid :
    (s : RoomRouter) (session_id : GameplaySessionId) (source_peer_id : PeerId) (now : Instant)
    → Valid s
    → Valid (route_gameplay_datagram s session_id source_peer_id now).1
unfolding route_gameplay_datagram
route_gameplay_datagram-Valid s session_id source_peer_id now v =
    ground
      (arith, gameplay-Valid s (HashMap.modify s.gameplay session_id (keep_alive s now)) stand v)
  where
    stand :
        (g : GameplaySessionId)
        → holds_for
            (session_stands s)
            (HashMap.get (HashMap.modify s.gameplay session_id (keep_alive s now)) g)
          ≡ true
    stand g =
        ground (
          arith,
          HashMap.get-modify s.gameplay session_id (keep_alive s now) g,
          v.gameplay_stands g,
        )

pub remove_gameplay_session-Valid :
    (s : RoomRouter) (session_id : GameplaySessionId)
    → Valid s
    → Valid (remove_gameplay_session s session_id).1
unfolding remove_gameplay_session
remove_gameplay_session-Valid s session_id v =
    ground (arith, gameplay-Valid s (HashMap.remove s.gameplay session_id) stand v)
  where
    stand :
        (g : GameplaySessionId)
        → holds_for (session_stands s) (HashMap.get (HashMap.remove s.gameplay session_id) g) ≡ true
    stand g = ground (arith, HashMap.get-remove s.gameplay session_id g, v.gameplay_stands g)

dispatch_discovery-Valid :
    (s : RoomRouter) (source_peer_id : PeerId) (request_id : DiscoveryRequestId)
    (port : Civ6UdpPort) (payload : List ℕ) (now : Instant)
    → Valid s
    → Valid (dispatch_discovery s source_peer_id request_id port payload now).1
unfolding dispatch_discovery
dispatch_discovery-Valid s source_peer_id request_id port payload now v =
    elim (Result-cases (validate_payload s (length payload))) [
      | inr (e, failed) ↦ rw (failed, dispatch_discovery) v
      | inl (_, fits) ↦ elim (Option-cases (room_for_peer s source_peer_id)) [
        | inl unknown ↦ rw (fits, unknown, dispatch_discovery) v
        | inr (room_id, known) ↦
            rw (fits, known, dispatch_discovery)
              (begin_discovery-Valid s room_id source_peer_id request_id port now v)
      ]
    ]

-- `dispatch` keeps the tables in agreement, also where it drops the datagram.
pub dispatch-Valid :
    (s : RoomRouter) (ingress : RelayIngress) → Valid s → Valid (dispatch s ingress).1
unfolding dispatch dispatch_gameplay
dispatch-Valid s (discovery source_peer_id request_id port payload now) v =
    dispatch_discovery-Valid s source_peer_id request_id port payload now v
dispatch-Valid s (discovery_response host_session_id request_id port payload now) v = v
dispatch-Valid s (gameplay session_id source_peer_id port payload now) v =
    ground (arith, route_gameplay_datagram-Valid s session_id source_peer_id now v)
