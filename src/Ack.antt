-- ===== src/Ack.antt =====
-- kernel/Sender/WaitACKMsgSender: messages that are sent again until the peer acknowledges them.
pub mod Pool
pub mod Order
pub mod Sweep
pub mod Drain
