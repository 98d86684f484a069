-- ===== src/Control/Status/Laws.antt =====
-- What the task state machine and the roll-up of a run's tasks guarantee.
use oracle_repo.Base.{
  ℕ, zero, suc, ◌+◌, ◌≤◌, ◌<◌, ◌≡◌, refl, true, not, List, [], ◌∷◌, any, all, filter, length,
  is_empty, arith, eqb, if◌then◌else◌,
}
use oracle_repo.Control.Status.{
  TaskStatus, RunStatus, is_terminal, may_move, is_unfinished, is_failed, derive_run_status,
}

-- A sequence of moves that `assert_transition` accepts, with their number.
pub data History : ℕ → TaskStatus → TaskStatus → Type 0 where
  start : {s : TaskStatus} → History zero s s
  move :
      {n : ℕ} {s t : TaskStatus} (u : TaskStatus)
      → History n s t
      → may_move t u ≡ true
      → History (suc n) s u

-- How many moves are left.
abbrev moves_left : TaskStatus → ℕ
moves_left TaskStatus.pending = 2
moves_left TaskStatus.running = 1
moves_left _ = 0

may_move_lowers : (t u : TaskStatus) → may_move t u ≡ true → moves_left u < moves_left t
unfolding may_move
may_move_lowers TaskStatus.pending u h = ground arith
may_move_lowers TaskStatus.running u h = ground arith
may_move_lowers _ u h = cc

History_lowers : {n : ℕ} {s t : TaskStatus} → History n s t → moves_left t + n ≤ moves_left s
History_lowers start = omega arith
History_lowers (move {t = t} u h ok) = omega (arith, History_lowers h, may_move_lowers t u ok)

is_terminal_left : (s : TaskStatus) → is_terminal s ≡ true → moves_left s ≡ 0
unfolding is_terminal
is_terminal_left TaskStatus.pending h = cc
is_terminal_left TaskStatus.running h = cc
is_terminal_left _ h = refl

-- No sequence of accepted moves leads out of a terminal status: it has no move at all. And from
-- any status there are at most two moves.
pub History_bounds :
    {n : ℕ} {s t : TaskStatus} → History n s t → (n ≤ 2) × (is_terminal s ≡ true → n ≡ 0)
History_bounds {s = s} h = (
  omega (arith, History_lowers h, left_le s),
  λ e. omega (arith, History_lowers h, is_terminal_left s e),
)
  where
    left_le : (s : TaskStatus) → moves_left s ≤ 2
    left_le TaskStatus.pending = omega arith
    left_le _ = omega arith

length-filter-le : (ss : List TaskStatus) → length (filter is_failed ss) ≤ length ss
length-filter-le [] = omega arith
length-filter-le (s ∷ ss) = ground (arith, length-filter-le ss)

-- The count of failures tells whether all failed.
all-failed_iff :
    (ss : List TaskStatus) → eqb (length (filter is_failed ss)) (length ss) ≡ all is_failed ss
all-failed_iff [] = refl
all-failed_iff (s ∷ ss) = ground (arith, all-failed_iff ss, length-filter-le ss)

no-failed_iff : (ss : List TaskStatus) → is_empty (filter is_failed ss) ≡ not (any is_failed ss)
no-failed_iff [] = refl
no-failed_iff (s ∷ ss) = ground (arith, no-failed_iff ss)

-- Which status each list of tasks rolls up to: RUNNING when some task is unfinished; else
-- SUCCEEDED when none failed, FAILED when all failed, and PARTIAL otherwise.
pub derive_run_status_lem :
    (ss : List TaskStatus)
    → derive_run_status ss ≡ (
        if any is_unfinished ss
        then RunStatus.running
        else if not (any is_failed ss)
        then RunStatus.succeeded
        else if all is_failed ss
        then RunStatus.failed
        else RunStatus.partial)
unfolding derive_run_status
derive_run_status_lem [] = refl
derive_run_status_lem (s ∷ ss) = rw (no-failed_iff (s ∷ ss), all-failed_iff (s ∷ ss)) refl
