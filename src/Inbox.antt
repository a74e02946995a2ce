-- ===== src/Inbox.antt =====
-- kernel/UnreadMsg and kernel/User/TempUserList: what waits for the user's answer, and the peers that
-- the user asked.
pub mod Unread
pub mod Asked
