-- ===== src/Orchestration/Runner/Guarding.antt =====
-- The ordering that orchestration/runner.py owns: the load and its checks before the watermark.
use oracle_repo.Base.{
  ℕ, zero, suc, ◌+◌, ◌≤◌, ◌≡◌, refl, ◌∙◌, ◌⊎◌, inl, inr, String, Bool, true, false, arith,
  if◌then◌else◌,
}
use oracle_repo.RunSpec.{RunSpec}
use oracle_repo.Platform.{Platform, Error, Result, ok, err}
use oracle_repo.Engine.Batches.{Engine}
use oracle_repo.Control.World.{World, Action, try_except, bind_result, ◌>>=◌, pure}
use oracle_repo.Control.Effects.{Steps}
use oracle_repo.Control.Store.{TaskRef}
use oracle_repo.Control.Marks.{Rows, MarkOrder, OnMarks}
use oracle_repo.Orchestration.Lifecycle.{Batch, prepare}
use oracle_repo.Orchestration.Runner.{
  TaskOutcome, open_task, execute, commit, fail, skip, run_enabled, run, back_off, alert_failure,
  attempts, run_with_retries, is_done,
}
use oracle_repo.Orchestration.Runner.Loaded.{IsCommitted, prepare-Returns}
use oracle_repo.Orchestration.Runner.Effects.{
  open_task-Steps, prepare-Steps, skip-Steps, fail-Steps, back_off-Steps, alert_failure-Steps,
}

module _ {p : Platform} (engine : Engine p) (spec : RunSpec) (run_id : String) where
  -- The attempts of the run from `w`, each with the world in which it starts: the first one, and the
  -- next one after an attempt whose outcome is not done, as long as retries are left.
  pub data Reached (w : World p) : ℕ → World p → Type 0 where
    first : Reached w 1 w
    again :
        {n : ℕ} {v : World p} {o : TaskOutcome}
        → Reached w n v
        → n ≤ spec.runtime.retries
        → (run p engine spec run_id n v).0 ≡ ok o
        → is_done o ≡ false
        → (back_off p engine spec run_id n (run p engine spec run_id n v).1).0 ≡ ok tt
        → Reached w (n + 1) (back_off p engine spec run_id n (run p engine spec run_id n v).1).1

  -- The attempt that starts in `v` returns from its `prepare` with a batch.
  abbrev pub Prepared : ℕ → World p → Batch p → Type 0
  Prepared n v b = (prepare p engine spec run_id n (open_task p engine spec run_id n v).1).0 ≡ ok b

  -- Some attempt of the run from `w` prepared a batch, which was written and checked.
  abbrev pub Committed : World p → Type 0
  Committed w =
      (n : ℕ) × (v : World p) × (b : Batch p) × Reached w n v
      × Prepared n v b
      × IsCommitted engine spec run_id n b

  -- Unchanged, or some batch was committed.
  abbrev pub Guarded : World p → Rows → Type 0
  Guarded w now = (now ≡ w.tables.watermarks) ⊎ Committed w

Same-MarkOrder : MarkOrder (λ a b. b ≡ a)
Same-MarkOrder = record { stay = λ rows. refl; trans = λ a b c h k. k ∙ h }

-- The marks are as they were, or `P`.
abbrev KeptOr : {p : Platform} → Type 0 → World p → World p → Type 0
KeptOr P w v = (v.tables.watermarks ≡ w.tables.watermarks) ⊎ P

module _ {p : Platform} {A B : Type 0} {P : Type 0} where
  bind_or :
      (m : Action p A) (f : A → Action p B) (w : World p)
      → KeptOr {p = p} P w (m w).1
      → ((a : A) → (m w).0 ≡ ok a → KeptOr {p = p} P (m w).1 (f a (m w).1).1)
      → KeptOr {p = p} P w ((m >>= f) w).1
  unfolding ◌>>=◌
  bind_or m f w h k = go (m w) h k
    where
      go :
          (x : Result A × World p)
          → KeptOr {p = p} P w x.1
          → ((a : A) → x.0 ≡ ok a → KeptOr {p = p} P x.1 (f a x.1).1)
          → KeptOr {p = p} P w (bind_result x.0 f x.1).1
      go (ok a, v) (inr q) k = inr q
      go (ok a, v) (inl e) k = elim (k a refl) [ inl e' ↦ inl (e' ∙ e) | inr q ↦ inr q ]
      go (err x, v) h k = h

module _ {p : Platform} {A : Type 0} {P : Type 0} where
  try_or :
      (m : Action p A) (h : Error → Action p A) (w : World p)
      → KeptOr {p = p} P w (m w).1
      → ((e : Error) → Steps {p = p} (OnMarks (λ a b. b ≡ a)) (h e))
      → KeptOr {p = p} P w (try_except m h w).1
  unfolding try_except
  try_or m h w k s = go (m w) k
    where
      go :
          (x : Result A × World p)
          → KeptOr {p = p} P w x.1
          → KeptOr {p = p} P w
              (elim x.0 as (λ _. Result A × World p) [ ok a ↦ (ok a, x.1) | err e ↦ h e x.1 ]).1
      go (ok a, v) k = k
      go (err e, v) (inr q) = inr q
      go (err e, v) (inl same) = inl ((s e).along v ∙ same)

module _ {p : Platform} (engine : Engine p) (spec : RunSpec) (run_id : String) where
  execute_or :
      (task : TaskRef) (n started_at : ℕ) (v : World p)
      → KeptOr {p = p}
          ((b : Batch p) × ((prepare p engine spec run_id n v).0 ≡ ok b))
          v
          (execute p engine spec run_id task n started_at v).1
  unfolding execute
  execute_or task n started_at v =
      bind_or (prepare p engine spec run_id n) (commit p engine spec run_id task n started_at) v
        (inl ((prepare-Steps engine Same-MarkOrder spec run_id n).along v)) (λ b e. inr (b, e))

  run_enabled_or :
      (n : ℕ) (v : World p)
      → KeptOr {p = p}
          ((b : Batch p) × Prepared engine spec run_id n v b)
          v
          (run_enabled p engine spec run_id n v).1
  unfolding run_enabled
  run_enabled_or n v =
      bind_or (open_task p engine spec run_id n) _ v
        (inl ((open_task-Steps engine Same-MarkOrder spec run_id n).along v))
        (λ opened e.
          try_or (execute p engine spec run_id opened.1 n opened.0)
            (fail p engine spec run_id opened.1 n opened.0) (open_task p engine spec run_id n v).1
            (execute_or opened.1 n opened.0 (open_task p engine spec run_id n v).1)
            (λ error. fail-Steps engine Same-MarkOrder spec run_id opened.1 n opened.0 error))

  if_or :
      (b : Bool) (m n : Action p TaskOutcome) (P : Type 0) (v : World p)
      → (b ≡ true → KeptOr {p = p} P v (m v).1)
      → (b ≡ false → KeptOr {p = p} P v (n v).1)
      → KeptOr {p = p} P v ((if b then m else n) v).1
  if_or true m n P v h k = h refl
  if_or false m n P v h k = k refl

  run_or :
      (n : ℕ) (v : World p)
      → KeptOr {p = p}
          ((b : Batch p) × Prepared engine spec run_id n v b)
          v
          (run p engine spec run_id n v).1
  unfolding run
  run_or n v =
      if_or spec.runtime.enabled (run_enabled p engine spec run_id n)
        (skip p engine spec run_id n "disabled by config") _ v (λ _. run_enabled_or n v)
        (λ _. inl ((skip-Steps engine Same-MarkOrder spec run_id n "disabled by config").along v))

  run-Committed :
      (w : World p) (n : ℕ) (v : World p)
      → Reached engine spec run_id w n v
      → KeptOr {p = p} (Committed engine spec run_id w) v (run p engine spec run_id n v).1
  run-Committed w n v r = elim (run_or n v) [
    | inl e ↦ inl e
    | inr (b, e) ↦ inr (
      n,
      v,
      b,
      r,
      e,
      (prepare-Returns engine spec run_id n).holds (open_task p engine spec run_id n v).1 b e,
    )
  ]

  pure_kept :
      (o : TaskOutcome) (v : World p) → (pure {p = p} o v).1.tables.watermarks ≡ v.tables.watermarks
  unfolding pure
  pure_kept o v = refl

  attempts_or :
      (w : World p) (left n : ℕ) (v : World p)
      → Reached engine spec run_id w n v
      → left + n ≤ spec.runtime.retries + 1
      → KeptOr {p = p} (Committed engine spec run_id w) v (attempts p engine left spec run_id n v).1
  unfolding attempts
  attempts_or w zero n v r h =
      bind_or (run p engine spec run_id n) _ v (run-Committed w n v r) λ o e.
        if_or (is_done o) (pure o) _ _ _ (λ done. inl (pure_kept o _))
          (λ failed.
            bind_or (alert_failure p engine spec run_id o) _ _
              (inl ((alert_failure-Steps engine Same-MarkOrder spec run_id o).along _))
              (λ _ _. inl (pure_kept o _)))
  attempts_or w (suc left) n v r h =
      bind_or (run p engine spec run_id n) _ v (run-Committed w n v r) λ o e.
        if_or (is_done o) (pure o) _ _ _ (λ done. inl (pure_kept o _))
          (λ failed.
            bind_or (back_off p engine spec run_id n) _ _
              (inl ((back_off-Steps engine Same-MarkOrder spec run_id n).along _))
              (λ _ backed.
                attempts_or w left (n + 1) _ (again r (omega (arith, h)) e failed backed)
                  (omega (arith, h))))

  -- Whatever raises and wherever, a run with retries either leaves the table of watermarks as it
  -- was, or passed through an attempt, itself reached by way of attempts that were not done, that
  -- had the staged view written by the loader without an exception and that load then reconciled to
  -- a report that is ok.
  pub run_with_retries-Guarded :
      (w : World p)
      → Guarded engine spec run_id w (run_with_retries p engine spec run_id w).1.tables.watermarks
  unfolding run_with_retries
  run_with_retries-Guarded w = attempts_or w spec.runtime.retries 1 w first (omega arith)
