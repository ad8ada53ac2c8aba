-- ===== src/Models/Status.antt =====
-- `TaskStatus` and `TaskDispatchResult`, the values that they are stored as, and their tests.
use worker_template.Prelude.{ℕ, String, ◌≡◌, ◌↔◌, Bool, true, false, arith, ◌==◌}

pub data TaskStatus : Type 0 where
  pending queued running retrying completed failed cancelled partial : TaskStatus

pub data TaskDispatchResult : Type 0 where
  blocked dispatched dispatch_failed pending shadowed : TaskDispatchResult

-- `TaskStatus.value`
unfoldable pub value : TaskStatus → String
value TaskStatus.pending = "pending"
value queued = "queued"
value running = "running"
value retrying = "retrying"
value completed = "completed"
value failed = "failed"
value cancelled = "cancelled"
value partial = "partial"

abbrev rank : TaskStatus → ℕ
rank TaskStatus.pending = 0
rank queued = 1
rank running = 2
rank retrying = 3
rank completed = 4
rank failed = 5
rank cancelled = 6
rank partial = 7

-- `==` of two statuses.
abbrev pub status_eq : TaskStatus → TaskStatus → Bool
status_eq a b = rank a == rank b

pub status_eq_iff : (a b : TaskStatus) → (status_eq a b ≡ true) ↔ (a ≡ b)
status_eq_iff a b = ground arith

-- `status in _TERMINAL_STATUSES`
unfoldable pub is_terminal : TaskStatus → Bool
is_terminal completed = true
is_terminal failed = true
is_terminal cancelled = true
is_terminal partial = true
is_terminal _ = false

-- `dispatch_result == PENDING`
unfoldable pub is_pending : TaskDispatchResult → Bool
is_pending TaskDispatchResult.pending = true
is_pending _ = false

-- `dispatch_result in (PENDING, DISPATCHED)`
unfoldable pub is_open : TaskDispatchResult → Bool
is_open TaskDispatchResult.pending = true
is_open dispatched = true
is_open _ = false
