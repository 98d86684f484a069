-- ===== src/Orchestration/Batch/Closing.antt =====
-- The row of a batch run is closed on every path out of `BatchRunner.run`.
use oracle_repo.Base.{
  ℕ, ◌≡◌, refl, subst, String, ◌==◌, Bool, true, not, ◌||◌, Option, none, some, List, [], ◌∷◌, all,
  length, arith,
}
use oracle_repo.RunSpec.{RunSpec}
use oracle_repo.Platform.{Platform, Error, Result, ok, err}
use oracle_repo.Engine.Batches.{Engine}
use oracle_repo.Control.Status.{RunStatus}
use oracle_repo.Control.Tables.{RunRow}
use oracle_repo.Control.World.{World, Action, pure, lift, update_where}
use oracle_repo.Control.Effects.{
  Steps, Steps-try, Steps-bind, Steps-pure, Steps-throw, Returns, Returns-pure, Returns-then,
}
use oracle_repo.Control.Total.{
  Total, Total-pure, Total-read_clock, total_rules, NoFault, Total-client,
}
use oracle_repo.Control.Store.{RunContext, start_run, resolve_status, finish_run}
use oracle_repo.Control.Audit.{bind_context}
use oracle_repo.Orchestration.Order.{order_tables}
use oracle_repo.Orchestration.Batch.{
  BatchResult, Stopped, guarded, ignoring, batch_body, result_of, close_run, raise_or, run_batch,
  run_levels, no_progress, Progress, skip_blocked, run_runnable,
}
use oracle_repo.Orchestration.Batch.Outcomes.{
  Pool, PoolReturns, is_closed, batch_body-Returns, result_of-closed,
}
use oracle_repo.Orchestration.Batch.Runs.{
  SameRuns, SameRuns-Preorder, emit-SameRuns, Leaves, Leaves-first, Leaves-then, Leaves-try,
  Leaves-client,
}

-- No row of the run is in RUNNING.
abbrev pub all_closed : String → List RunRow → Bool
all_closed run_id rows = all (λ r. not (r.run_id == run_id) || is_closed r.status) rows

closed-update_where :
    (run_id : String) (set : RunRow → RunRow) (rows : List RunRow)
    → ((r : RunRow) → is_closed (set r).status ≡ true)
    → all_closed run_id (update_where (λ r. r.run_id == run_id) set rows) ≡ true
closed-update_where run_id set [] h = refl
closed-update_where run_id set (r ∷ rows) h =
    ground (arith, h r, closed-update_where run_id set rows h)

module _ {p : Platform} {A : Type 0} where
  -- The loop's `try` catches what its body raises.
  guarded-Total :
      (done : Progress) (body : Action p A) (next : A → Action p Stopped)
      → ((a : A) → Total (next a))
      → Total (guarded done body next)
  unfolding guarded
  guarded-Total done body next hn = record { returns = λ w. go (body w) }
    where
      go :
          (x : Result A × World p)
          → (r : Stopped) × ((elim x.0 as (λ _. Result Stopped × World p) [
            | ok a ↦ next a x.1
            | err e ↦ (ok (done, some e), x.1)
          ]).0
              ≡ ok r)
      go (ok a, w') = (hn a).returns w'
      go (err e, w') = ((done, some e), refl)

module _ {p : Platform} (engine : Engine p) (max_workers : ℕ) (skip_dependents : Bool)
    (pool : Pool p) where
  skip_blocked-Total :
      (blocked : List (RunSpec × List String)) (run_id : String) (done : Progress)
      (next : Progress → Action p Stopped)
      → ((d : Progress) → Total (next d))
      → Total (skip_blocked p engine max_workers skip_dependents pool blocked run_id done next)
  unfolding skip_blocked
  skip_blocked-Total [] run_id done next hn = hn done
  skip_blocked-Total (b ∷ blocked) run_id done next hn =
      guarded-Total _ _ _ (λ o. skip_blocked-Total blocked run_id _ next hn)

  run_runnable-Total :
      (specs : List RunSpec) (run_id : String) (done : Progress)
      (next : Progress → Action p Stopped)
      → ((d : Progress) → Total (next d))
      → Total (run_runnable p engine max_workers skip_dependents pool specs run_id done next)
  unfolding run_runnable
  run_runnable-Total [] run_id done next hn = hn done
  run_runnable-Total (s ∷ specs) run_id done next hn = guarded-Total _ _ _ (λ os. hn _)

  run_levels-Total :
      (levels : List (List RunSpec)) (run_id : String) (done : Progress)
      → Total (run_levels p engine max_workers skip_dependents pool levels run_id done)
  unfolding run_levels
  run_levels-Total [] run_id done = Total-pure _
  run_levels-Total (level ∷ levels) run_id done =
      skip_blocked-Total _ run_id done _
        (λ d. run_runnable-Total _ run_id d _ (run_levels-Total levels run_id))

  batch_body-Total :
      (specs : List RunSpec) (levels : List (List RunSpec)) (run_id trigger : String)
      → Total (batch_body p engine max_workers skip_dependents pool specs levels run_id trigger)
  unfolding batch_body
  batch_body-Total specs levels run_id trigger =
      guarded-Total _ _ _ (λ event. run_levels-Total levels run_id no_progress)

module _ {p : Platform} (sound : NoFault p) where
  finish_run-Leaves :
      (run : RunContext) (status : RunStatus)
      → is_closed status ≡ true
      → Leaves
          (λ rows. all_closed run.run_id rows ≡ true)
          (finish_run p run (some status) none none)
  unfolding finish_run resolve_status
  finish_run-Leaves run status closed = Leaves-then _ _ _ Total-read_clock λ w ended _.
      Leaves-then _ _ _ (Total-pure status) λ w resolved returned.
        Leaves-first _ _ _
          (Leaves-client _ sound _ (λ t.
            closed-update_where run.run_id _ t.runs
              (λ r. (returned_is status resolved w returned) closed)))
          (λ _. Steps-pure SameRuns-Preorder resolved)
    where
      returned_is :
          (status resolved : RunStatus) (w : World p)
          → (pure {p = p} status w).0 ≡ ok resolved
          → is_closed status ≡ true
          → is_closed resolved ≡ true
      returned_is status resolved w h k =
          (Returns-pure (λ s. is_closed s ≡ true) status k).holds w resolved h

  module _ (engine : Engine p) (max_workers : ℕ) (skip_dependents : Bool) (pool : Pool p) where
    close_run-Leaves :
        (run : RunContext) (result : BatchResult)
        → is_closed result.status ≡ true
        → Leaves
            (λ rows. all_closed run.run_id rows ≡ true)
            (close_run p engine max_workers skip_dependents pool run result)
    unfolding close_run ignoring
    close_run-Leaves run result closed =
        Leaves-first _ _ _
          (Leaves-try _ _ _
            (Leaves-first _ _ _ (finish_run-Leaves run result.status closed)
              (λ _. Steps-pure SameRuns-Preorder tt))
            (λ e. Steps-pure SameRuns-Preorder tt))
          (λ _.
            Steps-try SameRuns-Preorder _ _
              (Steps-bind SameRuns-Preorder _ _ (emit-SameRuns _ _ _ _ _)
                (λ _. Steps-pure SameRuns-Preorder tt))
              (λ e. Steps-pure SameRuns-Preorder tt))

    raise_or-SameRuns :
        (result : BatchResult) (e : Option Error)
        → Steps {p = p} SameRuns (raise_or p engine max_workers skip_dependents pool result e)
    raise_or-SameRuns result none = Steps-pure SameRuns-Preorder result
    raise_or-SameRuns result (some e) = Steps-throw SameRuns-Preorder e

  start_run-Total :
      (run_id env trigger : String) (triggered_by : Option String) (n : ℕ)
      (job_id job_run_id : Option String)
      → Total (start_run p run_id env trigger triggered_by n job_id job_run_id none)
  unfolding start_run
  start_run-Total run_id env trigger triggered_by n job_id job_run_id =
      search (total_rules, sound, Total-client)

  start_run-Returns :
      (run_id env trigger : String) (triggered_by : Option String) (n : ℕ)
      (job_id job_run_id : Option String)
      → Returns {p = p}
          (λ run. run.run_id ≡ run_id)
          (start_run p run_id env trigger triggered_by n job_id job_run_id none)
  unfolding start_run
  start_run-Returns run_id env trigger triggered_by n job_id job_run_id =
      Returns-then _ _ λ _. Returns-then _ _ λ _. Returns-pure _ _ refl

  bind_context-Total : (run_id env actor : Option String) → Total (bind_context p run_id env actor)
  unfolding bind_context
  bind_context-Total run_id env actor = search total_rules

  lift-Total :
      (specs : List RunSpec) (levels : List (List RunSpec))
      → order_tables specs ≡ ok levels
      → Total {p = p} (lift (order_tables specs))
  unfolding lift
  lift-Total specs levels ordered = record { returns = λ w. (levels, ordered) }

  -- As long as the SQL client raises nothing, and the tables can be ordered, no row of the run is
  -- left in RUNNING when `BatchRunner.run` ends, whether it returns or raises and whatever the
  -- engine, the transformer, the loader and the pool raised. Asked of the pool is only that its
  -- outcomes are those that the calls returned.
  pub run_batch-closed :
      (engine : Engine p) (max_workers : ℕ) (skip_dependents : Bool) (pool : Pool p)
      (pool_returns : PoolReturns pool) (specs : List RunSpec) (levels : List (List RunSpec))
      (run_id env trigger : String) (triggered_by job_id job_run_id : Option String) (w : World p)
      → order_tables specs ≡ ok levels
      → all_closed run_id
          (run_batch p engine max_workers skip_dependents pool specs run_id env trigger triggered_by
            job_id job_run_id w).1.tables.runs
        ≡ true
  unfolding run_batch
  run_batch-closed engine max_workers skip_dependents pool pool_returns specs levels run_id env
        trigger triggered_by job_id job_run_id w ordered =
      (Leaves-then _ _ _ (lift-Total specs levels ordered) λ _ levels' _.
          Leaves-then _ _ _
            (start_run-Total run_id env trigger triggered_by (length specs) job_id job_run_id)
            λ w1 run started.
              Leaves-then _ _ _ (bind_context-Total (some run_id) (some env) none) λ _ _ _.
                Leaves-then _ _ _
                  (batch_body-Total engine max_workers skip_dependents pool specs levels' run_id
                    trigger)
                  λ w2 stopped returned.
                    Leaves-first _ _ _
                      (subst
                        (λ id.
                          Leaves (λ rows. all_closed id rows ≡ true)
                            (close_run p engine max_workers skip_dependents pool run (
                              result_of p engine max_workers skip_dependents pool run_id env
                                stopped)))
                        ((start_run-Returns run_id env trigger triggered_by (length specs) job_id
                            job_run_id).holds
                          w1 run started)
                        (close_run-Leaves engine max_workers skip_dependents pool run
                          (result_of p engine max_workers skip_dependents pool run_id env stopped)
                          (result_of-closed p engine max_workers skip_dependents pool pool_returns
                            run_id env stopped
                            ((batch_body-Returns p engine max_workers skip_dependents pool
                                pool_returns specs levels' run_id trigger).holds
                              w2 stopped returned))))
                      (λ _.
                        raise_or-SameRuns engine max_workers skip_dependents pool
                          (result_of p engine max_workers skip_dependents pool run_id env stopped)
                          stopped.1)).leaves
        w
