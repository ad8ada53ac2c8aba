-- ===== src/Exec.antt =====
-- Coroutines that change state and may raise. What was written before an exception stays written,
-- so the state comes back beside the error too.
mod Defs
pub mod Holds
unfoldable pub use Defs.{pure, raise, lift, gets, modify, ◌>>=◌}
pub use Defs.{Error, operational, failure, Result, ok, err, Exec, ◌>>◌, continue}
