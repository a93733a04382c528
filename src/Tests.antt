-- ===== src/Tests.antt =====
-- A room with a client and a host that play together, for the tests of the modules below.
pub mod Routers
pub mod Relays
pub mod Packets
pub mod Apis
pub mod Clients
use civ6_lan_bridge.Prelude.{◌≡◌, none, List, [], ◌∷◌, refl, nat_key, ℕ_discrete}
use civ6_lan_bridge.Prelude.HashMap
use civ6_lan_bridge.Prelude.HashSet
use civ6_lan_bridge.Protocol.Ports.{VirtualIp}
use civ6_lan_bridge.Protocol.RoomCode.{RoomCode}
use civ6_lan_bridge.Protocol.Relay.Codec.{ipv4_new}
use civ6_lan_bridge.Router.State.{RoomRouter, new, default_config}
use civ6_lan_bridge.Router.Rooms.{create_room_with_id, member_state}
use civ6_lan_bridge.Router.Hosts.{register_host}
use civ6_lan_bridge.Router.Peers.{join_room}
use civ6_lan_bridge.Router.Discovery.{begin_discovery}
use civ6_lan_bridge.Router.Gameplay.{select_host}
use civ6_lan_bridge.Router.Invariant.{Valid}
use civ6_lan_bridge.Router.Invariant.Reachable.{
  Reachable, starts, steps, creates_with_id, joins, registers, selects, asks, Reachable-Valid,
}

abbrev pub code : RoomCode
code = b'R' ∷ b'E' ∷ b'L' ∷ b'A' ∷ b'Y' ∷ b'2' ∷ []

abbrev pub client_ip : VirtualIp
client_ip = ipv4_new 10 240 0 2

abbrev pub host_ip : VirtualIp
host_ip = ipv4_new 10 240 0 3

abbrev pub one_room : RoomRouter
one_room = (create_room_with_id (new default_config) 7 code).1

abbrev pub with_client : RoomRouter
with_client = (join_room one_room 7 1 client_ip 0).1

abbrev pub with_both : RoomRouter
with_both = (join_room with_client 7 2 host_ip 0).1

abbrev pub hosting : RoomRouter
hosting = (register_host with_both 7 2 50 0).1

abbrev pub playing : RoomRouter
playing = (select_host hosting 7 1 50 90 1).1

abbrev pub asking : RoomRouter
asking = (begin_discovery playing 7 1 70 62900 1).1

pub fresh_host : HashMap.get with_both.hosts 50 ≡ none
unfolding new create_room_with_id join_room HashMap.get HashMap.lookup HashMap.insert
    HashMap.without HashMap.modify HashMap.new HashMap.len ℕ_discrete HashSet.new HashSet.insert
fresh_host = refl

with_client-Reachable : Reachable default_config with_client
with_client-Reachable = steps (steps starts (creates_with_id 7 code)) (joins 7 1 client_ip 0)

pub with_both-Reachable : Reachable default_config with_both
with_both-Reachable = steps with_client-Reachable (joins 7 2 host_ip 0)

pub asking-Reachable : Reachable default_config asking
asking-Reachable =
    steps (steps (steps with_both-Reachable (registers 7 2 50 0 fresh_host)) (selects 7 1 50 90 1))
      (asks 7 1 70 62900 1)

pub one_room-Reachable : Reachable default_config one_room
one_room-Reachable = steps starts (creates_with_id 7 code)

pub one_room-Valid : Valid one_room
one_room-Valid = Reachable-Valid one_room-Reachable

pub asking-Valid : Valid asking
asking-Valid = Reachable-Valid asking-Reachable
