-- ===== src/StateTracking/Flaky.antt =====
-- What `on_error` does when the reply to a commit is lost, and when the broker does not take a retry.
pub mod LostReply
pub mod LastRetry
pub mod Recovered
pub mod BrokerDown
pub mod Overwritten
