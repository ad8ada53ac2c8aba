-- ===== src/Services.antt =====
-- worker_template/services: the queries of the two tables.
pub mod TaskExecutionService
pub mod TaskAttemptService
