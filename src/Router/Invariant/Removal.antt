-- ===== src/Router/Invariant/Removal.antt =====
-- crates/router/src/lib.rs: the invariant and `remove_host`, with the loops over it.
use civ6_lan_bridge.Prelude.{
  ◌≡◌, ◌⊎◌, inl, inr, refl, ◌∙◌, Bool, false, ◌==◌, nat_key, list_key, Option, none, some, arith,
  Option-cases, if◌then◌else◌, List, [], ◌∷◌, elem,
}
use civ6_lan_bridge.Prelude.HashMap
use civ6_lan_bridge.Prelude.HashMap.{update}
use civ6_lan_bridge.Prelude.HashSet
use civ6_lan_bridge.Protocol.Ports.{RoomId, PeerId, HostSessionId, GameplaySessionId}
use civ6_lan_bridge.Router.State.{RoomState, HostState, room_peer_key, RoomRouter}
use civ6_lan_bridge.Router.Hosts.{room_peer, remove_host, remove_hosts, drop_session, not_hosted_by}
use civ6_lan_bridge.Router.Invariant.{
  Valid, lists_session, hosted_in, satisfies, peer_leads_to, hosted_by,
}

abbrev removed : RoomRouter → HostSessionId → HostState → RoomRouter
removed s id host = record s {
  hosts = HashMap.remove s.hosts id;
  host_by_peer = HashMap.remove s.host_by_peer (room_peer host.room_id host.peer_id);
  rooms = HashMap.modify s.rooms host.room_id (drop_session id);
  gameplay = HashMap.retain s.gameplay (λ _ session. not_hosted_by host session);
}

abbrev pub lists : HostSessionId → RoomState → Bool
lists h room = HashSet.contains room.host_sessions h

lists-drop_session :
    (id h : HostSessionId) (o : Option RoomState)
    → satisfies (lists h) (update (drop_session id) o)
      ≡ (if id == h then false else satisfies (lists h) o)
lists-drop_session id h none = ground arith
lists-drop_session id h (some room) =
    ground (arith, HashSet.contains-remove room.host_sessions id h)

module _ (s : RoomRouter) (id : HostSessionId) (host : HostState) (v : Valid s)
    (found : HashMap.get s.hosts id ≡ some host) where
  removed-sessions :
      (r : RoomId) (h : HostSessionId)
      → lists_session (removed s id host) r h ≡ hosted_in (removed s id host) h r
  removed-sessions r h = ground (
    arith,
    found,
    HashMap.get-modify s.rooms host.room_id (drop_session id) r,
    HashMap.get-remove s.hosts id h,
    lists-drop_session id h (HashMap.get s.rooms r),
    v.sessions_agree r h,
  )

  removed-hosts :
      (r : RoomId) (p : PeerId) (h : HostSessionId)
      → peer_leads_to (removed s id host) r p h ≡ hosted_by (removed s id host) h r p
  removed-hosts r p h = ground (
    arith,
    found,
    HashMap.get-remove s.host_by_peer (room_peer host.room_id host.peer_id) (room_peer r p),
    HashMap.get-remove s.hosts id h,
    v.hosts_agree r p h,
    v.hosts_agree host.room_id host.peer_id id,
  )

  removed-Valid : Valid (removed s id host)
  removed-Valid = record {
    members_agree = λ r p.
        ground
          (arith, HashMap.get-modify s.rooms host.room_id (drop_session id) r, v.members_agree r p);
    ips_agree = v.ips_agree;
    codes_agree = λ c r.
        ground
          (arith, HashMap.get-modify s.rooms host.room_id (drop_session id) r, v.codes_agree c r);
    sessions_agree = removed-sessions;
    hosts_agree = removed-hosts;
    hosts_stand = λ h. ground (arith, HashMap.get-remove s.hosts id h, v.hosts_stand h);
    gameplay_stands = λ g. ground (
      arith,
      HashMap.get-retain s.gameplay (λ _ session. not_hosted_by host session) g,
      v.gameplay_stands g,
    );
    discoveries_stand = v.discoveries_stand;
  }

-- `remove_host` keeps the tables in agreement.
pub remove_host-Valid : (s : RoomRouter) (id : HostSessionId) → Valid s → Valid (remove_host s id)
unfolding remove_host
remove_host-Valid s id v = elim (Option-cases (HashMap.get s.hosts id)) [
  | inl e ↦ rw (e, remove_host) v
  | inr (host, e) ↦ rw (e, remove_host) (removed-Valid s id host v e)
]

pub remove_hosts-Valid :
    (s : RoomRouter) (ids : List HostSessionId) → Valid s → Valid (remove_hosts s ids)
unfolding remove_hosts
remove_hosts-Valid s [] v = v
remove_hosts-Valid s (id ∷ ids) v =
    remove_hosts-Valid (remove_host s id) ids (remove_host-Valid s id v)

-- What a removal of hosts leaves alone.
pub record Untouched (s t : RoomRouter) : Type 0 where
  pub config : t.config ≡ s.config
  pub peers : t.peers ≡ s.peers
  pub virtual_ips : t.virtual_ips ≡ s.virtual_ips
  pub rooms_by_code : t.rooms_by_code ≡ s.rooms_by_code
  pub discoveries : t.discoveries ≡ s.discoveries

pub remove_host-Untouched : (s : RoomRouter) (id : HostSessionId) → Untouched s (remove_host s id)
unfolding remove_host
remove_host-Untouched s id = elim (Option-cases (HashMap.get s.hosts id)) [
  | inl e ↦
      rw (e, remove_host)
        (record {
          config = refl;
          peers = refl;
          virtual_ips = refl;
          rooms_by_code = refl;
          discoveries = refl;
        })
  | inr (host, e) ↦
      rw (e, remove_host)
        (record {
          config = refl;
          peers = refl;
          virtual_ips = refl;
          rooms_by_code = refl;
          discoveries = refl;
        })
]

pub remove_hosts-Untouched :
    (s : RoomRouter) (ids : List HostSessionId) → Untouched s (remove_hosts s ids)
unfolding remove_hosts
remove_hosts-Untouched s [] = record {
  config = refl;
  peers = refl;
  virtual_ips = refl;
  rooms_by_code = refl;
  discoveries = refl;
}
remove_hosts-Untouched s (id ∷ ids) =
    let first = remove_host-Untouched s id in
    let rest = remove_hosts-Untouched (remove_host s id) ids in
    record {
      config = rest.config ∙ first.config;
      peers = rest.peers ∙ first.peers;
      virtual_ips = rest.virtual_ips ∙ first.virtual_ips;
      rooms_by_code = rest.rooms_by_code ∙ first.rooms_by_code;
      discoveries = rest.discoveries ∙ first.discoveries;
    }

-- Exactly the host that is named goes.
pub get-remove_host :
    (s : RoomRouter) (id h : HostSessionId)
    → HashMap.get (remove_host s id).hosts h ≡ (if id == h then none else HashMap.get s.hosts h)
unfolding remove_host
get-remove_host s id h = elim (Option-cases (HashMap.get s.hosts id)) [
  | inl e ↦ rw (e, remove_host) (ground arith)
  | inr (host, e) ↦ rw (e, remove_host) (HashMap.get-remove s.hosts id h)
]

pub get-remove_hosts :
    (s : RoomRouter) (ids : List HostSessionId) (h : HostSessionId)
    → HashMap.get (remove_hosts s ids).hosts h
      ≡ (if elem h ids then none else HashMap.get s.hosts h)
unfolding remove_hosts
get-remove_hosts s [] h = refl
get-remove_hosts s (id ∷ ids) h =
    ground (arith, get-remove_hosts (remove_host s id) ids h, get-remove_host s id h)

-- A gameplay session stays as it was, or goes.
pub gameplay-remove_host :
    (s : RoomRouter) (id : HostSessionId) (g : GameplaySessionId)
    → (HashMap.get (remove_host s id).gameplay g ≡ none)
      ⊎ (HashMap.get (remove_host s id).gameplay g ≡ HashMap.get s.gameplay g)
unfolding remove_host
gameplay-remove_host s id g = elim (Option-cases (HashMap.get s.hosts id)) [
  | inl e ↦ rw (e, remove_host) (inr refl)
  | inr (host, e) ↦
      rw (e, remove_host)
        (ground (arith, HashMap.get-retain s.gameplay (λ _ session. not_hosted_by host session) g))
]

pub gameplay-remove_hosts :
    (s : RoomRouter) (ids : List HostSessionId) (g : GameplaySessionId)
    → (HashMap.get (remove_hosts s ids).gameplay g ≡ none)
      ⊎ (HashMap.get (remove_hosts s ids).gameplay g ≡ HashMap.get s.gameplay g)
unfolding remove_hosts
gameplay-remove_hosts s [] g = inr refl
gameplay-remove_hosts s (id ∷ ids) g =
    ground (arith, gameplay-remove_hosts (remove_host s id) ids g, gameplay-remove_host s id g)
