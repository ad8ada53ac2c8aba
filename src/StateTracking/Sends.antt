-- ===== src/StateTracking/Sends.antt =====
-- What the hooks put on the broker's queue.
pub mod Quiet
pub mod Recording
pub mod Count
pub mod Still
pub mod Paid
pub mod Budget
pub mod Refused
