-- ===== src/Orchestration/Runner/Ordering.antt =====
-- What an attempt of orchestration/runner.py may do to the marks, and their order.
use oracle_repo.Base.{ℕ, zero, suc, ◌+◌, ◌≡◌, String, Option, some}
use oracle_repo.RunSpec.{RunSpec, table_fqn, bound_type}
use oracle_repo.Platform.{Platform, IsOrdered, ok, Cast}
use oracle_repo.Engine.Batches.{Engine}
use oracle_repo.Control.World.{World}
use oracle_repo.Control.Effects.{
  Steps, steps_rules, Steps-bind, Steps-bind_ok, Steps-if, Steps-pure,
}
use oracle_repo.Control.Watermark.{cast_by_type}
use oracle_repo.Control.WatermarkStore.{find_mark}
use oracle_repo.Control.WatermarkStore.Monotone.{
  value_of, NotBack, NotBack-refl, NotBack-trans, NotBack-merge_advance,
}
use oracle_repo.Control.Store.{TaskRef}
use oracle_repo.Control.Marks.{Rows, MarkOrder, OnMarks, OnMarks-Preorder}
use oracle_repo.Orchestration.Lifecycle.{Batch, prepare}
use oracle_repo.Orchestration.Runner.{
  commit, execute, run_enabled, run, back_off, attempts, run_with_retries, is_done,
}
use oracle_repo.Orchestration.Runner.Effects.{
  open_task-Steps, prepare-Steps, skip-Steps, fail-Steps, back_off-Steps, alert_failure-Steps,
  commit-Steps,
}

module _ {p : Platform} (engine : Engine p) {R : Rows → Rows → Type 0} (o : MarkOrder R)
    (spec : RunSpec) (run_id : String)
    (committed : (attempt started_at : ℕ) (task : TaskRef) (w : World p) (b : Batch p)
      → (prepare p engine spec run_id attempt w).0 ≡ ok b
      → Steps {p = p} (OnMarks R) (commit p engine spec run_id task attempt started_at b)) where
  execute-Steps :
      (task : TaskRef) (attempt started_at : ℕ)
      → Steps {p = p} (OnMarks R) (execute p engine spec run_id task attempt started_at)
  unfolding execute
  execute-Steps task attempt started_at =
      Steps-bind_ok (OnMarks-Preorder o) (prepare p engine spec run_id attempt) _
        (prepare-Steps engine o spec run_id attempt)
        (λ w b returned. committed attempt started_at task w b returned)

  run_enabled-Steps :
      (attempt : ℕ) → Steps {p = p} (OnMarks R) (run_enabled p engine spec run_id attempt)
  unfolding run_enabled
  run_enabled-Steps attempt =
      search (OnMarks-Preorder o, steps_rules, open_task-Steps, execute-Steps, fail-Steps) depth 10

  run-Steps : (attempt : ℕ) → Steps {p = p} (OnMarks R) (run p engine spec run_id attempt)
  unfolding run
  run-Steps attempt = search (OnMarks-Preorder o, o, steps_rules, run_enabled-Steps, skip-Steps)

  attempts-Steps :
      (left attempt : ℕ) → Steps {p = p} (OnMarks R) (attempts p engine left spec run_id attempt)
  unfolding attempts
  attempts-Steps zero attempt =
      search (OnMarks-Preorder o, o, steps_rules, run-Steps, alert_failure-Steps) depth 10
  attempts-Steps (suc left) attempt =
      Steps-bind (OnMarks-Preorder o) (run p engine spec run_id attempt) _ (run-Steps attempt)
        λ outcome.
          Steps-if (OnMarks-Preorder o) (is_done outcome) _ _
            (Steps-pure (OnMarks-Preorder o) outcome)
            (Steps-bind (OnMarks-Preorder o) (back_off p engine spec run_id attempt) _
              (back_off-Steps engine o spec run_id attempt)
              (λ _. attempts-Steps left (attempt + 1)))

module _ {p : Platform} (ordered : IsOrdered p) (engine : Engine p) (spec : RunSpec)
    (run_id : String) where
  -- When the mark's type has a cast `c`, and SQL's comparison is a strict order, a run with retries
  -- never moves its table's mark back, as `c` compares, whatever raises and wherever.
  pub run_with_retries-NotBack :
      (c : Cast) (w : World p)
      → cast_by_type (bound_type spec.extraction.incremental) ≡ some c
      → NotBack p c (value_of (find_mark p (table_fqn spec) spec.env w.tables.watermarks)) (
          value_of (
            find_mark p
              (table_fqn spec)
              spec.env
              (run_with_retries p engine spec run_id w).1.tables.watermarks))
  unfolding run_with_retries
  run_with_retries-NotBack c w typed =
      (attempts-Steps engine order spec run_id moves spec.runtime.retries 1).along w
    where
      mark : Rows → Option String
      mark rows = value_of (find_mark p (table_fqn spec) spec.env rows)

      order : MarkOrder (λ a b. NotBack p c (mark a) (mark b))
      order = record {
        stay = λ rows. NotBack-refl p c (mark rows);
        trans = λ x y z. NotBack-trans p c ordered (mark x) (mark y) (mark z);
      }

      moves :
          (attempt started_at : ℕ) (task : TaskRef) (v : World p) (b : Batch p)
          → (prepare p engine spec run_id attempt v).0 ≡ ok b
          → Steps {p = p}
              (OnMarks (λ a b. NotBack p c (mark a) (mark b)))
              (commit p engine spec run_id task attempt started_at b)
      moves attempt started_at task v b returned =
          commit-Steps engine order spec run_id
            (λ c' m rows same cast.
              NotBack-merge_advance p c c' m (table_fqn spec) spec.env rows (λ _. cc))
            task attempt started_at b
