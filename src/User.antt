-- ===== src/User.antt =====
-- kernel/User: the users, what keeps them online, their list, and their chat texts.
pub mod Info
pub mod Presence
pub mod Keeping
pub mod UserList
pub mod Identity
pub mod Entering
pub mod Change
pub mod Sound
pub mod Calls
pub mod Profile
pub mod Loading
pub mod Stored
pub mod Chat
pub mod Queue
