-- ===== src/Protocol.antt =====
-- crates/protocol: the identifiers, ports and the relay envelope that clients and server share.
-- A UUID identifier (`RoomId`, `PeerId`, ...) is the number below 2 ^ 128 that it stands for.
pub mod Ports
pub mod RoomCode
pub mod Relay
