-- ===== src/Server/WireGuard.antt =====
-- server/src/wireguard.rs: the arguments of `wg`. What `wg` answers and the `base64` crate's decoder
-- are parameters of what uses them. A string is the list of its code points.
use civ6_lan_bridge.Prelude.{
  ℕ, ◌+◌, ◌/◌, ◌%◌, ltb, ◌==◌, nat_key, if◌then◌else◌, length, Option, none, some, List, [], ◌∷◌,
  ◌++◌, Result, ok, err,
}
use civ6_lan_bridge.Protocol.Ports.{VirtualIp}

abbrev pub persistent_keepalive_seconds : ℕ
persistent_keepalive_seconds = 25

pub record WireGuardManager : Type 0 where
  pub interface : List ℕ

pub data WireGuardError : Type 0 where
  invalid_public_key : WireGuardError
  command_failed : List ℕ → WireGuardError
  io_failed : WireGuardError
  invalid_output : WireGuardError

-- `Display` of a number below 1000
unfoldable pub decimal : ℕ → List ℕ
decimal n =
    let units = (b'0' + n % 10) ∷ [] in
    if ltb n 10
    then units
    else if ltb n 100
    then (b'0' + n / 10) ∷ units
    else (b'0' + n / 100) ∷ (b'0' + n / 10 % 10) ∷ units

-- `Display` of an `Ipv4Addr`
unfoldable pub dotted : VirtualIp → List ℕ
unfolding decimal
dotted ip =
    decimal (ip / 16777216 % 256)
    ++ b'.' ∷ decimal (ip / 65536 % 256)
    ++ b'.' ∷ decimal (ip / 256 % 256)
    ++ b'.' ∷ decimal (ip % 256)

unfoldable pub virtual_ip_cidr : VirtualIp → List ℕ
unfolding dotted
virtual_ip_cidr ip = dotted ip ++ b'/' ∷ b'3' ∷ b'2' ∷ []

abbrev pub set_word : List ℕ
set_word = b's' ∷ b'e' ∷ b't' ∷ []

abbrev pub peer_word : List ℕ
peer_word = b'p' ∷ b'e' ∷ b'e' ∷ b'r' ∷ []

abbrev pub remove_word : List ℕ
remove_word = b'r' ∷ b'e' ∷ b'm' ∷ b'o' ∷ b'v' ∷ b'e' ∷ []

abbrev pub allowed_ips_word : List ℕ
allowed_ips_word = b'a' ∷ b'l' ∷ b'l' ∷ b'o' ∷ b'w' ∷ b'e' ∷ b'd' ∷ b'-' ∷ b'i' ∷ b'p' ∷ b's' ∷ []

abbrev pub keepalive_word : List ℕ
keepalive_word =
    b'p' ∷ b'e' ∷ b'r' ∷ b's' ∷ b'i' ∷ b's' ∷ b't' ∷ b'e' ∷ b'n' ∷ b't' ∷ b'-' ∷ b'k' ∷ b'e' ∷ b'e'
    ∷ b'p' ∷ b'a' ∷ b'l' ∷ b'i' ∷ b'v' ∷ b'e' ∷ []

unfoldable pub add_peer_args : WireGuardManager → List ℕ → VirtualIp → List (List ℕ)
unfolding virtual_ip_cidr decimal
add_peer_args manager public_key virtual_ip =
    set_word
    ∷ manager.interface
    ∷ peer_word
    ∷ public_key
    ∷ allowed_ips_word
    ∷ virtual_ip_cidr virtual_ip
    ∷ keepalive_word
    ∷ decimal persistent_keepalive_seconds
    ∷ []

unfoldable pub remove_peer_args : WireGuardManager → List ℕ → List (List ℕ)
remove_peer_args manager public_key =
    set_word ∷ manager.interface ∷ peer_word ∷ public_key ∷ remove_word ∷ []

-- `decoded` is what the `base64` crate makes of the key, if it is base64.
unfoldable pub validate_public_key : Option (List ℕ) → Result WireGuardError (Unit {0})
validate_public_key none = err invalid_public_key
validate_public_key (some decoded) = if length decoded == 32 then ok tt else err invalid_public_key
