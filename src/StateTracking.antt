-- ===== src/StateTracking.antt =====
-- worker_template/middleware/state_tracking.py
pub mod Extract
pub mod Gate
pub mod Events
pub mod Announcement
pub mod Emission
pub mod Decision
pub mod Recording
pub mod Handlers
pub mod Lifecycle
pub mod Calm
pub mod Sound
pub mod Spec
pub mod Sends
pub mod Flaky
pub mod Drive
