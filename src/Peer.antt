-- ===== src/Peer.antt =====
-- The messages between peers: kernel/Listener/ClientMsgListener.cpp and kernel/Sender/ClientMsgSender.cpp,
-- over the lists of the kernel.
pub mod Asking
pub mod Attempts
pub mod Callbacks
pub mod Chat
pub mod Dispatch
pub mod Dispatched
pub mod Faults
pub mod Handlers
pub mod Invariant
pub mod Keeping
pub mod Kernel
pub mod Laws
pub mod Listener
pub mod Marks
pub mod Requests
pub mod Answering
pub mod Runs
pub mod Sender
pub mod Strangers
pub mod Texts
pub mod Transfer
