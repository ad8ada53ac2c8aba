-- ===== src/Middleware.antt =====
-- worker_template/middleware, but for state tracking: logging_mw.py, tenant.py and metrics_mw.py.
pub mod Context
pub mod Tenant
pub mod Stack
pub mod LogContext
pub mod Logging
pub mod Metrics
