-- ===== src/Server.antt =====
-- The servers: kernel/Server, and what their users and messages do to the lists of the kernel
-- (kernel/Listener/ServerMsgListener.cpp, kernel/Sender/ServerMsgSender.cpp).
pub mod Events
pub mod Info
pub mod Registered
pub mod Reports
pub mod Sender
pub mod ServerList
