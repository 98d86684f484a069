-- ===== src/Orchestration/Batch/Outcomes.antt =====
-- The outcomes of a batch, and the status that its result has.
use Prim.Native.Nat.{max}
use oracle_repo.Base.{
  ℕ, ◌≡◌, refl, String, ◌<>◌, Bool, true, false, ◌||◌, none, some, List, [], ◌∷◌, map, any, length,
  eqb, All, All-append, arith, subst,
}
use oracle_repo.Base.Text.{join}
use oracle_repo.RunSpec.{RunSpec, table_fqn}
use oracle_repo.Platform.{Platform, Error, Result, ok, err}
use oracle_repo.Engine.Batches.{Engine}
use oracle_repo.Control.Status.{TaskStatus, RunStatus, is_unfinished}
use oracle_repo.Control.Status.Laws.{derive_run_status_lem}
use oracle_repo.Control.Tables.{count, word, run_started}
use oracle_repo.Control.Audit.{emit}
use oracle_repo.Control.World.{World, Action}
use oracle_repo.Control.Effects.{Returns, Returns-bind, Returns-then, Returns-pure, Returns-if}
use oracle_repo.Orchestration.Runner.{TaskOutcome, run_with_retries}
use oracle_repo.Orchestration.Runner.Outcomes.{Explained, run_with_retries-Settled}
use oracle_repo.Orchestration.Batch.{
  Progress, no_progress, Stopped, partition, after_level, guarded, skip_for_dependency, run_each,
  run_level, skip_blocked, run_runnable, run_levels, batch_body, result_of, noted, after_skip,
}

abbrev pub Pool : Platform → Type 0
Pool p = ℕ → (RunSpec → Action p TaskOutcome) → List RunSpec → Action p (List TaskOutcome)

-- `future.result()` gives what the submitted call returned.
abbrev pub PoolReturns : {p : Platform} → Pool p → Type 0
PoolReturns {p} pool =
    (n : ℕ) (f : RunSpec → Action p TaskOutcome) (specs : List RunSpec) (w : World p)
    (os : List TaskOutcome)
    → (pool n f specs w).0 ≡ ok os
    → All (λ o. (spec : RunSpec) × (v : World p) × ((f spec v).0 ≡ ok o)) os

-- Not RUNNING.
abbrev pub is_closed : RunStatus → Bool
is_closed RunStatus.running = false
is_closed _ = true

-- Succeeded, failed or skipped.
abbrev pub Finished : TaskOutcome → Type 0
Finished o = is_unfinished o.status ≡ false

Explained-Finished :
    (spec : RunSpec) (o : TaskOutcome) (s : TaskStatus)
    → Explained spec o s
    → is_unfinished s ≡ false
Explained-Finished spec o TaskStatus.pending h = absurd h
Explained-Finished spec o TaskStatus.running h = absurd h
Explained-Finished spec o TaskStatus.succeeded h = refl
Explained-Finished spec o TaskStatus.failed h = refl
Explained-Finished spec o TaskStatus.skipped h = refl

ok-injective : {a b : Stopped} → ok a ≡ ok b → a ≡ b
ok-injective e = cc

module _ {p : Platform} {A : Type 0} (Q : Stopped → Type 0) where
  guarded-Returns :
      {P : A → Type 0} (done : Progress) (body : Action p A) (next : A → Action p Stopped)
      → ((e : Error) → Q (done, some e))
      → Returns P body
      → ((a : A) → P a → Returns Q (next a))
      → Returns Q (guarded done body next)
  unfolding guarded
  guarded-Returns {P} done body next raised hb hn = record {
    holds = λ w r e. go (body w) (hb.holds w) r e;
  }
    where
      go :
          (x : Result A × World p)
          → ((a : A) → x.0 ≡ ok a → P a)
          → (r : Stopped)
          → (elim x.0 as (λ _. Result Stopped × World p) [
            | ok a ↦ next a x.1
            | err e ↦ (ok (done, some e), x.1)
          ]).0
            ≡ ok r
          → Q r
      go (ok a, w') k r e = (hn a (k a refl)).holds w' r e
      go (err x, w') k r e = subst Q (ok-injective e) (raised x)

-- All outcomes so far are finished.
abbrev AllFinished : Stopped → Type 0
AllFinished stopped = All Finished stopped.0.outcomes

module _ (p : Platform) (engine : Engine p) (max_workers : ℕ) (skip_dependents : Bool)
    (pool : Pool p) (pool_returns : PoolReturns pool) where
  run_with_retries-Finished :
      (spec : RunSpec) (run_id : String)
      → Returns {p = p} Finished (run_with_retries p engine spec run_id)
  run_with_retries-Finished spec run_id = record {
    holds = λ w o e.
        Explained-Finished spec o o.status
          (run_with_retries-Settled engine spec run_id w o e).reported.explained;
  }

  run_each-Returns :
      (specs : List RunSpec) (run_id : String)
      → Returns {p = p}
          (All Finished)
          (run_each p engine max_workers skip_dependents pool specs run_id)
  unfolding run_each
  run_each-Returns [] run_id = Returns-pure _ _ tt
  run_each-Returns (spec ∷ specs) run_id =
      Returns-bind _ _ (run_with_retries-Finished spec run_id)
        λ o h. Returns-bind _ _ (run_each-Returns specs run_id) λ os hs. Returns-pure _ _ (h, hs)

  pool-Finished :
      (run_id : String) (os : List TaskOutcome)
      → All
          (λ o.
            (spec : RunSpec) × (v : World p) × ((run_with_retries p engine spec run_id v).0 ≡ ok o))
          os
      → All Finished os
  pool-Finished run_id [] h = tt
  pool-Finished run_id (o ∷ os) ((spec, v, e), hs) =
      ((run_with_retries-Finished spec run_id).holds v o e, pool-Finished run_id os hs)

  run_level-Returns :
      (specs : List RunSpec) (run_id : String)
      → Returns {p = p}
          (All Finished)
          (run_level p engine max_workers skip_dependents pool specs run_id)
  unfolding run_level
  run_level-Returns specs run_id =
      let one : RunSpec → Action p TaskOutcome = λ spec. run_with_retries p engine spec run_id in
      Returns-if (All Finished) (eqb (max 1 max_workers) 1 || eqb (length specs) 1)
        (run_each p engine max_workers skip_dependents pool specs run_id)
        (pool (max 1 max_workers) one specs) (λ _. run_each-Returns specs run_id)
        (λ _. record {
          holds =
              λ w os e. pool-Finished run_id os (pool_returns (max 1 max_workers) one specs w os e);
        })

  skip_for_dependency-Returns :
      (spec : RunSpec) (run_id reason : String)
      → Returns {p = p} Finished
          (skip_for_dependency p engine max_workers skip_dependents pool spec run_id reason)
  unfolding skip_for_dependency
  skip_for_dependency-Returns spec run_id reason = Returns-then _ _ (λ _. Returns-pure _ _ refl)

  skip_blocked-Returns :
      (blocked : List (RunSpec × List String)) (run_id : String) (done : Progress)
      (next : Progress → Action p Stopped)
      → All Finished done.outcomes
      → ((d : Progress) → All Finished d.outcomes → Returns AllFinished (next d))
      → Returns AllFinished
          (skip_blocked p engine max_workers skip_dependents pool blocked run_id done next)
  unfolding skip_blocked
  skip_blocked-Returns [] run_id done next h hn = hn done h
  skip_blocked-Returns ((spec, blockers) ∷ blocked) run_id done next h hn =
      let reason = "dependency failed: " <> join ", " blockers in
      let done' = noted (table_fqn spec) reason done in
      guarded-Returns AllFinished done'
        (skip_for_dependency p engine max_workers skip_dependents pool spec run_id reason)
        (λ o.
          skip_blocked p engine max_workers skip_dependents pool blocked run_id (after_skip o done')
            next)
        (λ e. h) (skip_for_dependency-Returns spec run_id reason)
        (λ o ho.
          skip_blocked-Returns blocked run_id (after_skip o done') next
            (All-append Finished done.outcomes (o ∷ []) h (ho, tt)) hn)

  run_runnable-Returns :
      (specs : List RunSpec) (run_id : String) (done : Progress)
      (next : Progress → Action p Stopped)
      → All Finished done.outcomes
      → ((d : Progress) → All Finished d.outcomes → Returns AllFinished (next d))
      → Returns AllFinished
          (run_runnable p engine max_workers skip_dependents pool specs run_id done next)
  unfolding run_runnable after_level
  run_runnable-Returns [] run_id done next h hn = hn done h
  run_runnable-Returns (spec ∷ specs) run_id done next h hn =
      guarded-Returns AllFinished done
        (run_level p engine max_workers skip_dependents pool (spec ∷ specs) run_id)
        (λ outcomes. next (after_level done outcomes)) (λ e. h)
        (run_level-Returns (spec ∷ specs) run_id)
        (λ os hs. hn (after_level done os) (All-append Finished done.outcomes os h hs))

  run_levels-Returns :
      (levels : List (List RunSpec)) (run_id : String) (done : Progress)
      → All Finished done.outcomes
      → Returns AllFinished
          (run_levels p engine max_workers skip_dependents pool levels run_id done)
  unfolding run_levels
  run_levels-Returns [] run_id done h = Returns-pure _ _ h
  run_levels-Returns (level ∷ levels) run_id done h =
      let parts = partition skip_dependents level done.failed in
      let more : Progress → Action p Stopped =
        λ d. run_levels p engine max_workers skip_dependents pool levels run_id d in
      skip_blocked-Returns parts.1 run_id done
        (λ d. run_runnable p engine max_workers skip_dependents pool parts.0 run_id d more) h
        (λ d hd. run_runnable-Returns parts.0 run_id d more hd (run_levels-Returns levels run_id))

  pub batch_body-Returns :
      (specs : List RunSpec) (levels : List (List RunSpec)) (run_id trigger : String)
      → Returns AllFinished
          (batch_body p engine max_workers skip_dependents pool specs levels run_id trigger)
  unfolding batch_body
  batch_body-Returns specs levels run_id trigger =
      guarded-Returns AllFinished {P = λ _. Unit {0}} no_progress
        (emit p run_started none
          (("tables", count (length specs))
            ∷ ("levels", count (length levels))
            ∷ ("trigger", word trigger)
            ∷ [])
          (some run_id) false)
        (λ event. run_levels p engine max_workers skip_dependents pool levels run_id no_progress)
        (λ e. tt) (record { holds = λ w a e. tt })
        (λ _ _. run_levels-Returns levels run_id no_progress tt)

  any-unfinished :
      (os : List TaskOutcome) → All Finished os → any is_unfinished (map (λ o. o.status) os) ≡ false
  any-unfinished [] h = refl
  any-unfinished (o ∷ os) h = ground (arith, h.0, any-unfinished os h.1)

  pub result_of-closed :
      (run_id env : String) (stopped : Stopped)
      → AllFinished stopped
      → is_closed (result_of p engine max_workers skip_dependents pool run_id env stopped).status
        ≡ true
  unfolding result_of
  result_of-closed run_id env (done, some e) h = refl
  result_of-closed run_id env (done, none) h =
      rw (derive_run_status_lem (map (λ o. o.status) done.outcomes))
        (ground (arith, any-unfinished done.outcomes h))
