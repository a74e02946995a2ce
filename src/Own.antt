-- ===== src/Own.antt =====
-- kernel/User/MyInfo: the profile of the program's own user, and its table in the database.
pub mod Row
pub mod Info
pub mod Written
pub mod Stored
pub mod Numbered
