-- ===== src/Socket.antt =====
-- socket_interface: datagrams, length-prefixed streams and small files over WinSock. The calls of
-- WinSock are answered by the environment.
pub mod Datagram
pub mod Connection
pub mod Ledger
pub mod SmallFile
pub mod Stream
pub mod Framing
pub mod Faults
pub mod Files
