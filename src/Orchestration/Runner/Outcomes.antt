-- ===== src/Orchestration/Runner/Outcomes.antt =====
-- What the outcome of a table says, over its attempts.
use oracle_repo.Base.{ℕ, zero, suc, ◌+◌, ◌≤◌, ◌≡◌, refl, String, true, false, some, arith}
use oracle_repo.RunSpec.{RunSpec, table_fqn}
use oracle_repo.Platform.{Platform, Error, ok}
use oracle_repo.Engine.Checks.{ReconciliationReport, is_ok}
use oracle_repo.Engine.Batches.{Engine}
use oracle_repo.Control.Status.{TaskStatus}
use oracle_repo.Control.World.{World, Action}
use oracle_repo.Control.Effects.{
  Returns, Returns-bind, Returns-then, Returns-pure, Returns-if, Returns-try,
}
use oracle_repo.Control.Store.{TaskRef}
use oracle_repo.Orchestration.Lifecycle.{Batch}
use oracle_repo.Orchestration.Runner.{
  TaskOutcome, is_done, commit, execute, skip, fail, run_enabled, run, attempts, run_with_retries,
}
use oracle_repo.Orchestration.Runner.Loaded.{prepare-Returns}

-- A success has a report that is ok; a failure has its error, and a skip a spec that is disabled,
-- and neither has advanced the watermark; an outcome is nothing else.
abbrev pub Explained : RunSpec → TaskOutcome → TaskStatus → Type 0
Explained spec o TaskStatus.succeeded =
    (report : ReconciliationReport) × (o.report ≡ some report) × (is_ok report ≡ true)
Explained spec o TaskStatus.failed =
    (e : Error) × (o.error ≡ some e) × (o.watermark_advanced ≡ false)
Explained spec o TaskStatus.skipped =
    (spec.runtime.enabled ≡ false) × (o.watermark_advanced ≡ false)
Explained spec o _ = ⊥

-- The outcome of one attempt.
pub record Reported (spec : RunSpec) (run_id : String) (attempt : ℕ) (o : TaskOutcome)
    : Type 0 where
  pub of_table : o.table_fqn ≡ table_fqn spec
  pub of_run : o.run_id ≡ run_id
  pub of_attempt : o.attempt ≡ attempt
  pub explained : Explained spec o o.status

module _ {p : Platform} (engine : Engine p) (spec : RunSpec) (run_id : String) where
  commit-Returns :
      (task : TaskRef) (attempt started_at : ℕ) (b : Batch p)
      → is_ok b.report ≡ true
      → Returns {p = p}
          (Reported spec run_id attempt)
          (commit p engine spec run_id task attempt started_at b)
  unfolding commit
  commit-Returns task attempt started_at b checked = Returns-then _ _ λ _. Returns-then _ _ λ _.
      Returns-then _ _ λ _. Returns-then _ _ λ _. Returns-pure _ _ (record {
        of_table = refl;
        of_run = refl;
        of_attempt = refl;
        explained = (b.report, refl, checked);
      })

  execute-Returns :
      (task : TaskRef) (attempt started_at : ℕ)
      → Returns {p = p}
          (Reported spec run_id attempt)
          (execute p engine spec run_id task attempt started_at)
  unfolding execute
  execute-Returns task attempt started_at =
      Returns-bind _ _ (prepare-Returns engine spec run_id attempt)
        (λ b done. commit-Returns task attempt started_at b done.checked)

  fail-Returns :
      (task : TaskRef) (attempt started_at : ℕ) (error : Error)
      → Returns {p = p}
          (Reported spec run_id attempt)
          (fail p engine spec run_id task attempt started_at error)
  unfolding fail
  fail-Returns task attempt started_at error = Returns-then _ _ λ _. Returns-then _ _ λ _.
      Returns-then _ _ λ _. Returns-pure _ _ (record {
        of_table = refl;
        of_run = refl;
        of_attempt = refl;
        explained = (error, refl, refl);
      })

  run-Returns :
      (attempt : ℕ)
      → Returns {p = p} (Reported spec run_id attempt) (run p engine spec run_id attempt)
  unfolding run run_enabled skip
  run-Returns attempt =
      Returns-if _ spec.runtime.enabled _ _
        (λ enabled. Returns-then _ _ λ opened.
          Returns-try _ _ _ (execute-Returns opened.1 attempt opened.0)
            (fail-Returns opened.1 attempt opened.0))
        (λ disabled. Returns-then _ _ λ _. Returns-pure _ _ (record {
          of_table = refl;
          of_run = refl;
          of_attempt = refl;
          explained = (disabled, refl);
        }))

  -- The outcome of the attempts from `first` to `last`: only the last one may end in a failure.
  pub record Settled (first last : ℕ) (o : TaskOutcome) : Type 0 where
    pub reported : Reported spec run_id o.attempt o
    pub not_before : first ≤ o.attempt
    pub not_after : o.attempt ≤ last
    pub gave_up : is_done o ≡ false → o.attempt ≡ last

  attempt-Reported :
      (attempt : ℕ) (o : TaskOutcome)
      → Reported spec run_id attempt o
      → Reported spec run_id o.attempt o
  attempt-Reported attempt o r = record {
    of_table = r.of_table;
    of_run = r.of_run;
    of_attempt = refl;
    explained = r.explained;
  }

  attempts-Returns :
      (left attempt : ℕ)
      → Returns {p = p}
          (Settled attempt (attempt + left))
          (attempts p engine left spec run_id attempt)
  unfolding attempts
  attempts-Returns zero attempt = Returns-bind _ _ (run-Returns attempt) λ o r.
      Returns-if _ (is_done o) _ _ (λ done. Returns-pure _ _ (settled o r))
        (λ failed. Returns-then _ _ (λ _. Returns-pure _ _ (settled o r)))
    where
      settled :
          (o : TaskOutcome) → Reported spec run_id attempt o → Settled attempt (attempt + zero) o
      settled o r = record {
        reported = attempt-Reported attempt o r;
        not_before = omega (arith, r.of_attempt);
        not_after = omega (arith, r.of_attempt);
        gave_up = λ _. omega (arith, r.of_attempt);
      }
  attempts-Returns (suc left) attempt = Returns-bind _ _ (run-Returns attempt) λ o r.
      Returns-if _ (is_done o) _ _
        (λ done. Returns-pure _ _ (record {
          reported = attempt-Reported attempt o r;
          not_before = omega (arith, r.of_attempt);
          not_after = omega (arith, r.of_attempt);
          gave_up = λ failed. absurd (ground (arith, done, failed));
        }))
        (λ failed. Returns-then _ _ (λ _. later (attempts-Returns left (attempt + 1))))
    where
      later :
          {m : Action p TaskOutcome}
          → Returns (Settled (attempt + 1) (attempt + 1 + left)) m
          → Returns (Settled attempt (attempt + suc left)) m
      later h = record {
        holds = λ w o e.
            let s = h.holds w o e in
            record {
              reported = s.reported;
              not_before = omega (arith, s.not_before);
              not_after = omega (arith, s.not_after);
              gave_up = λ failed. omega (arith, s.gave_up failed);
            };
      }

  -- An outcome that `run_with_retries` returns is of this table and run, its attempt is one of the
  -- retries + 1, the last one when it is a failure, and it is explained: a success by a report that
  -- is ok, a failure by its error, a skip by a disabled spec.
  pub run_with_retries-Settled :
      (w : World p) (o : TaskOutcome)
      → (run_with_retries p engine spec run_id w).0 ≡ ok o
      → Settled 1 (spec.runtime.retries + 1) o
  unfolding run_with_retries
  run_with_retries-Settled w o h =
      let s = (attempts-Returns spec.runtime.retries 1).holds w o h in
      record {
        reported = s.reported;
        not_before = s.not_before;
        not_after = omega (arith, s.not_after);
        gave_up = λ failed. omega (arith, s.gave_up failed);
      }
