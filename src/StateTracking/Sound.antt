-- ===== src/StateTracking/Sound.antt =====
-- What every hook of the state tracking keeps of the two tables, whatever the database, the broker
-- and Socket.IO do.
pub mod Rows
pub mod Writes
pub mod Calls
pub mod Services
pub mod Audited
pub mod Recording
pub mod Decision
pub mod OnError
pub mod Hooks
