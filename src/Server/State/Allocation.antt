-- ===== src/Server/State/Allocation.antt =====
-- server/src/state.rs: the address that `allocate_virtual_ip` finds.
use civ6_lan_bridge.Prelude.{
  ℕ, zero, suc, ◌+◌, ◌<◌, ◌≤◌, ◌≡◌, refl, true, false, Option, none, some, arith, inl, inr,
  Bool-cases, ℕ_discrete, subst,
}
use civ6_lan_bridge.Protocol.Ports.{VirtualIp}
use civ6_lan_bridge.Router.State.{RoomRouter}
use civ6_lan_bridge.Router.Rooms.{is_virtual_ip_available}
use civ6_lan_bridge.Server.State.{Prefix, candidate, find_available, allocate_virtual_ip}

-- No address of the octets from `low` to before `high` is available.
abbrev pub AllTaken : RoomRouter → Prefix → ℕ → ℕ → Type 0
AllTaken s prefix low high =
    (octet : ℕ)
    → low ≤ octet
    → octet < high
    → is_virtual_ip_available s (candidate prefix octet) ≡ false

-- The result is the first of the addresses of the octets from `low` to before `high` that is
-- available; if there is none, all are taken.
abbrev pub IsFirst : RoomRouter → Prefix → ℕ → ℕ → Option VirtualIp → Type 0
IsFirst s prefix low high none = AllTaken s prefix low high
IsFirst s prefix low high (some ip) =
    (octet : ℕ) × (low ≤ octet)
    × (octet < high)
    × (ip ≡ candidate prefix octet)
    × (is_virtual_ip_available s ip ≡ true)
    × AllTaken s prefix low octet

AllTaken-extend :
    (s : RoomRouter) (prefix : Prefix) (low high : ℕ)
    → is_virtual_ip_available s (candidate prefix low) ≡ false
    → AllTaken s prefix (low + 1) high
    → AllTaken s prefix low high
AllTaken-extend s prefix low high taken rest octet above below = elim (ℕ_discrete low octet) [
  | yes e ↦ subst (λ k. is_virtual_ip_available s (candidate prefix k) ≡ false) e taken
  | no n ↦ rest octet (omega (arith, above, n)) below
]

IsFirst-extend :
    (s : RoomRouter) (prefix : Prefix) (low high : ℕ) (found : Option VirtualIp)
    → is_virtual_ip_available s (candidate prefix low) ≡ false
    → IsFirst s prefix (low + 1) high found
    → IsFirst s prefix low high found
IsFirst-extend s prefix low high none taken rest = AllTaken-extend s prefix low high taken rest
IsFirst-extend s prefix low high (some ip) taken (octet, above, below, at, available, before) = (
  octet,
  omega (arith, above),
  below,
  at,
  available,
  AllTaken-extend s prefix low octet taken before,
)

find_available-IsFirst :
    (s : RoomRouter) (prefix : Prefix) (octet count : ℕ)
    → IsFirst s prefix octet (octet + count) (find_available s prefix octet count)
unfolding find_available
find_available-IsFirst s prefix octet zero = λ k above below. ground arith
find_available-IsFirst s prefix octet (suc count) =
    elim (Bool-cases (is_virtual_ip_available s (candidate prefix octet))) [
      | inl e ↦ rw e (octet, omega arith, omega arith, refl, e, λ k above below. ground arith)
      | inr e ↦ rw e (
          IsFirst-extend s prefix octet (octet + suc count)
            (find_available s prefix (octet + 1) count) e
            (subst
              (λ high.
                IsFirst s prefix (octet + 1) high (find_available s prefix (octet + 1) count))
              (omega arith) (find_available-IsFirst s prefix (octet + 1) count)))
    ]

-- allocate_virtual_ip gives the lowest address with a last byte from 2 to 254 that no peer
-- holds, and none only if all of them are held.
pub allocate_virtual_ip-IsFirst :
    (s : RoomRouter) (prefix : Prefix) → IsFirst s prefix 2 255 (allocate_virtual_ip s prefix)
unfolding allocate_virtual_ip
allocate_virtual_ip-IsFirst s prefix = find_available-IsFirst s prefix 2 253
