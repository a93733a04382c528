-- ===== src/Protocol/Ports.antt =====
-- crates/protocol/src/lib.rs: the identifiers, the Civ VI ports and the size limit of a datagram.
use civ6_lan_bridge.Prelude.{
  ℕ, ◌*◌, ◌≤◌, ◌≡◌, ◌⊎◌, ◌↔◌, Bool, ◌&&◌, ◌||◌, ◌==◌, leb, if◌then◌else◌, Result, ok, err, arith,
  nat_key,
}

-- `uuid_id!`: each is a UUID.
abbrev pub RoomId : Type 0
RoomId = ℕ

abbrev pub PeerId : Type 0
PeerId = ℕ

abbrev pub HostSessionId : Type 0
HostSessionId = ℕ

abbrev pub DiscoveryRequestId : Type 0
DiscoveryRequestId = ℕ

abbrev pub GameplaySessionId : Type 0
GameplaySessionId = ℕ

-- An `Ipv4Addr` is the number that `u32::from` gives.
abbrev pub VirtualIp : Type 0
VirtualIp = ℕ

abbrev pub Civ6UdpPort : Type 0
Civ6UdpPort = ℕ

abbrev pub discovery_port_start : ℕ
discovery_port_start = 62900

abbrev pub discovery_port_end : ℕ
discovery_port_end = 62999

abbrev pub gameplay_port : ℕ
gameplay_port = 62056

abbrev pub max_civ6_datagram_size : ℕ
max_civ6_datagram_size = 4 * 1024

unfoldable pub is_discovery_port : ℕ → Bool
is_discovery_port port = leb discovery_port_start port && leb port discovery_port_end

unfoldable pub is_civ6_port : ℕ → Bool
unfolding is_discovery_port
is_civ6_port port = is_discovery_port port || port == gameplay_port

pub data InvalidCiv6Port : Type 0 where
  invalid_civ6_port : ℕ → InvalidCiv6Port

-- `Civ6UdpPort::validate`
unfoldable pub validate : Civ6UdpPort → Result InvalidCiv6Port Civ6UdpPort
unfolding is_civ6_port
validate port = if is_civ6_port port then ok port else err (invalid_civ6_port port)

-- validate accepts a port exactly if it is one of the 100 discovery ports or the gameplay port,
-- and gives it back unchanged.
pub validate_iff :
    (port : Civ6UdpPort)
    → (validate port ≡ ok port) ↔ (((62900 ≤ port) × (port ≤ 62999)) ⊎ (port ≡ 62056))
unfolding validate
validate_iff port = (λ h. ground arith, λ h. ground arith)
