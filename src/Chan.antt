-- ===== src/Chan.antt =====
-- xtra/src/chan.rs: the channel behind an address and its mailboxes.
pub mod State
pub mod Inner
pub mod Methods
pub mod Steps
pub mod SameUnicast
pub mod Backpressure
pub mod Receive
pub mod Fulfill
pub mod Notify
pub mod Shutdown
pub mod Broadcast
pub mod Tail
pub mod SameBroadcast
pub mod Tracked
pub mod Bounds
pub mod Senders
pub mod Listeners
pub mod Stuck
pub mod Numbered
pub mod Held
pub mod Conserved
pub mod NoRoom
pub mod Late
