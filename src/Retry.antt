-- ===== src/Retry.antt =====
-- worker_template/db/retry.py: the decorator `db_retry`, over tenacity's `retry`.
mod Defs
pub mod Limit
pub use Defs.{Tenacity, default_max_attempts}
unfoldable pub use Defs.{create_db_retry, db_retry}
