-- ===== src/Database.antt =====
-- db_interface: the functions on the tables, and the SQL statements that they send to SQLite. The database itself is
-- not modelled.
pub mod Statements
pub mod Literals
pub mod PeerRow
pub mod Connection
pub mod Profiles
pub mod Servers
pub mod Chats
pub mod Held
pub mod Values
pub mod Mine
pub mod Filled
pub mod Calls
pub mod Agreed
