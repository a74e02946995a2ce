-- ===== src/History.antt =====
-- kernel/V6Chat3App.cpp: the history of a chat, page by page.
pub mod Paging
pub mod Pages
pub mod Turning
