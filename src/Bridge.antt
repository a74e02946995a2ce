-- ===== src/Bridge.antt =====
-- kernel/LuaV6Chat3App.cpp: the functions that the windows' Lua scripts call.
pub mod Stack
pub mod Readers
pub mod Servers
pub mod Desk
pub mod Chats
pub mod Listing
pub mod Requests
pub mod Friends
pub mod ServerFriends
