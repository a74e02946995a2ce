-- ===== src/Xmpp.antt =====
-- xmpp_interface: files that are sent and received through the XMPP server's byte streams. gloox is a
-- parameter.
pub mod File
pub mod Threads
pub mod Table
pub mod Sending
pub mod Arrival
pub mod Keyed
pub mod Runs
pub mod Named
