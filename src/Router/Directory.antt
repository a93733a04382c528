-- ===== src/Router/Directory.antt =====
-- crates/router/src/lib.rs: a directory of peers, as the tables of a `RoomRouter` amount to one.
pub mod Placing
pub mod Refinement
use civ6_lan_bridge.Prelude.{
  ℕ, ◌≡◌, ◌≢◌, ◌⊎◌, inl, inr, Bool, true, false, ◌==◌, nat_key, if◌then◌else◌, Option, none, some,
  sym, ◌∙◌, arith, Bool-cases,
}
use civ6_lan_bridge.Prelude.HashMap
use civ6_lan_bridge.Protocol.Ports.{RoomId, PeerId, VirtualIp}
use civ6_lan_bridge.Router.State.{PeerState, RoomRouter}

-- Where a peer is, if it is anywhere: in which room, at which address.
abbrev pub Directory : Type 0
Directory = PeerId → Option (RoomId × VirtualIp)

-- Nobody is at the address.
abbrev pub Unused : Directory → VirtualIp → Type 0
Unused d ip = (q : PeerId) (r : RoomId) → d q ≢ some (r, ip)

-- What a call is to a directory.
pub data Event : Type 0 where
  still : Event
  entering : RoomId → PeerId → VirtualIp → Event
  leaving : PeerId → Event
  aging : Event

abbrev pub Same : Directory → Directory → Type 0
Same d e = (q : PeerId) → e q ≡ d q

-- The peer was nowhere and the address unused; the peer is there now, and all others as before.
pub record Entered (r : RoomId) (p : PeerId) (ip : VirtualIp) (d e : Directory) : Type 0 where
  pub nowhere : d p ≡ none
  pub unused : Unused d ip
  pub placed : (q : PeerId) → e q ≡ (if p == q then some (r, ip) else d q)

-- What an event makes of a directory: only an entry adds a place, and only for its peer at its
-- address; only a departure and time take places away; none moves a peer.
unfoldable pub Change : Event → Directory → Directory → Type 0
Change still d e = Same d e
Change (entering r p ip) d e = Entered r p ip d e
Change (leaving p) d e = (q : PeerId) → e q ≡ (if p == q then none else d q)
Change aging d e = (q : PeerId) → (e q ≡ none) ⊎ (e q ≡ d q)

abbrev pub Single : Directory → Type 0
Single d =
    (p q : PeerId) (r t : RoomId) (ip : VirtualIp) → d p ≡ some (r, ip) → d q ≡ some (t, ip) → p ≡ q

-- Where no two peers are at one address, none are after an event.
pub Change-Single : (d e : Directory) (event : Event) → Change event d e → Single d → Single e
unfolding Change
Change-Single d e still same single =
    λ p q r t ip at_p at_q. single p q r t ip (sym (same p) ∙ at_p) (sym (same q) ∙ at_q)
Change-Single d e (entering room new addr) entered single = λ p q r t ip at_p at_q. ground (
  arith,
  entered.placed p,
  entered.placed q,
  single p q r t ip,
  entered.unused p r,
  entered.unused q t,
)
Change-Single d e (leaving gone) left single =
    λ p q r t ip at_p at_q. ground (arith, left p, left q, single p q r t ip)
Change-Single d e aging kept single =
    λ p q r t ip at_p at_q. ground (arith, kept p, kept q, single p q r t ip)

-- The room and the address in the peer's state
unfoldable pub place_of : Option PeerState → Option (RoomId × VirtualIp)
place_of none = none
place_of (some peer) = some (peer.room_id, peer.virtual_ip)

abbrev pub directory : RoomRouter → Directory
directory s q = place_of (HashMap.get s.peers q)
