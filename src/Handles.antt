-- ===== src/Handles.antt =====
-- kernel/Handle.h: handles on objects, with a shared count.
pub mod Counting
pub mod Freed
pub mod Once
pub mod Owned
