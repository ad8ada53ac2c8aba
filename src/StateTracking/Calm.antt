-- ===== src/StateTracking/Calm.antt =====
-- What the hooks do when every call of an external service succeeds.
pub mod Services
pub mod Stays
pub mod Marked
pub mod Dispatch
pub mod Announced
pub mod Enqueued
pub mod Unfound
pub mod OnError
pub mod Refused
pub mod OnRefused
pub mod Owned
