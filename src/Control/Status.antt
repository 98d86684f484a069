-- ===== src/Control/Status.antt =====
-- src/ingestion_framework/control/control_store.py: the task state machine and the run's status.
pub mod Laws
use oracle_repo.Base.{
  Bool, true, false, List, [], ◌∷◌, any, all, filter, length, is_empty, eqb, if◌then◌else◌,
}

pub data TaskStatus : Type 0 where
  pending running succeeded failed skipped : TaskStatus

pub data RunStatus : Type 0 where
  running succeeded failed partial : RunStatus

-- `TERMINAL_TASK_STATUSES`
unfoldable pub is_terminal : TaskStatus → Bool
is_terminal TaskStatus.pending = false
is_terminal TaskStatus.running = false
is_terminal _ = true

-- `_ALLOWED_TRANSITIONS`
unfoldable pub allowed : TaskStatus → List TaskStatus
allowed TaskStatus.pending = TaskStatus.running ∷ TaskStatus.skipped ∷ []
allowed TaskStatus.running = TaskStatus.succeeded ∷ TaskStatus.failed ∷ TaskStatus.skipped ∷ []
allowed _ = []

abbrev pub same_status : TaskStatus → TaskStatus → Bool
same_status TaskStatus.pending TaskStatus.pending = true
same_status TaskStatus.running TaskStatus.running = true
same_status TaskStatus.succeeded TaskStatus.succeeded = true
same_status TaskStatus.failed TaskStatus.failed = true
same_status TaskStatus.skipped TaskStatus.skipped = true
same_status _ _ = false

-- `assert_transition` raises exactly when this is false.
unfoldable pub may_move : TaskStatus → TaskStatus → Bool
unfolding allowed
may_move current new = any (same_status new) (allowed current)

-- `s in {PENDING, RUNNING}`
abbrev pub is_unfinished : TaskStatus → Bool
is_unfinished TaskStatus.pending = true
is_unfinished TaskStatus.running = true
is_unfinished _ = false

abbrev pub is_failed : TaskStatus → Bool
is_failed TaskStatus.failed = true
is_failed _ = false

-- The roll-up of a list that is not empty and has no unfinished task.
roll_up : List TaskStatus → RunStatus
roll_up statuses =
    let failures = filter is_failed statuses in
    if is_empty failures
    then RunStatus.succeeded
    else if eqb (length failures) (length statuses)
    then RunStatus.failed
    else RunStatus.partial

unfoldable pub derive_run_status : List TaskStatus → RunStatus
unfolding roll_up
derive_run_status [] = RunStatus.succeeded
derive_run_status (s ∷ ss) =
    if any is_unfinished (s ∷ ss) then RunStatus.running else roll_up (s ∷ ss)
