-- ===== src/Net.antt =====
-- src/net: the wire protocol, the framed connection, commands, and the replay header.
pub mod Wire
pub mod Conn
pub mod Replay
pub mod Command
pub mod Bundle
pub mod Relay
pub mod Referee
