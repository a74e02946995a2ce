-- ===== src/Tests.antt =====
-- The theorems at work on small inputs.
mod Users
mod Peers
mod Servers
mod Pools
mod Sockets
mod Texts
mod Lists
mod Owns
mod Databases
mod Limits
mod Histories
mod Xmpps
mod Bridges
mod Handled
