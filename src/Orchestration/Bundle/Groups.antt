-- ===== src/Orchestration/Bundle/Groups.antt =====
-- Grouping loses no table and doubles none.
use Prim.Native.Nat.{Ordering}
use Prim.Native.Nat.Ordering.{lt, eq, gt}
use Prim.Native.String.{compare}
use oracle_repo.Base.{
  refl, subst, ◌≡◌, sym, Option, ◌∙◌, ap, inl, inr, ℕ, ◌+◌, String, ◌<>◌, ◌==◌, Bool, true, false,
  ◌&&◌, Bool-cases, List, [], ◌∷◌, ◌++◌, map, filter, is_empty, if_true, if_false, arith,
}
use oracle_repo.Base.Dict.{insert_sorted, sorted}
use oracle_repo.RunSpec.{RunSpec, table_fqn}
use oracle_repo.Platform.{ok, and_then, and_then_ok, ok-injective}
use oracle_repo.Orchestration.Order.{order_tables}
use oracle_repo.Orchestration.Bundle.{
  BundleOptions, Job, WorkflowTask, task_key, add_to_group, group_all, group_specs, build_job,
  job_of, build_jobs, build_resources, resolve_group_schedule,
}

abbrev pub one_if : Bool → ℕ
one_if true = 1
one_if false = 0

module _ {A : Type 0} (q : A → Bool) where
  abbrev pub tally : List A → ℕ
  tally [] = 0
  tally (x ∷ xs) = one_if (q x) + tally xs

  tally-append : (xs ys : List A) → tally (xs ++ ys) ≡ tally xs + tally ys
  tally-append [] ys = omega arith
  tally-append (x ∷ xs) ys = omega (arith, tally-append xs ys)

  tally-insert_sorted :
      (key : A → String) (x : A) (xs : List A)
      → tally (insert_sorted key x xs) ≡ one_if (q x) + tally xs
  unfolding insert_sorted
  tally-insert_sorted key x [] = refl
  tally-insert_sorted key x (y ∷ ys) =
      placed (compare (key x) (key y)) (tally-insert_sorted key x ys)
    where
      placed :
          (o : Ordering)
          → tally (insert_sorted key x ys) ≡ one_if (q x) + tally ys
          → tally (elim o [ gt ↦ y ∷ insert_sorted key x ys | _ ↦ x ∷ y ∷ ys ])
            ≡ one_if (q x) + tally (y ∷ ys)
      placed lt h = refl
      placed eq h = refl
      placed gt h = omega (arith, h)

  pub tally-sorted : (key : A → String) (xs : List A) → tally (sorted key xs) ≡ tally xs
  unfolding sorted
  tally-sorted key [] = refl
  tally-sorted key (x ∷ xs) =
      tally-insert_sorted key x (sorted key xs) ∙ ap (λ n. one_if (q x) + n) (tally-sorted key xs)

-- How many tables pass a test, over all the groups.
abbrev tally_groups : (RunSpec → Bool) → List (String × List RunSpec) → ℕ
tally_groups q [] = 0
tally_groups q ((g, specs) ∷ grouped) = tally q specs + tally_groups q grouped

tally_groups-add_to_group :
    (q : RunSpec → Bool) (group : String) (s : RunSpec) (grouped : List (String × List RunSpec))
    → tally_groups q (add_to_group group s grouped) ≡ one_if (q s) + tally_groups q grouped
unfolding add_to_group
tally_groups-add_to_group q group s [] = omega arith
tally_groups-add_to_group q group s ((g, specs) ∷ grouped) = elim (Bool-cases (g == group)) [
  | inl e ↦ rw e (omega (arith, tally-append q specs (s ∷ [])))
  | inr e ↦ rw e (omega (arith, tally_groups-add_to_group q group s grouped))
]

tally_groups-group_all :
    (q : RunSpec → Bool) (specs : List RunSpec) (grouped : List (String × List RunSpec))
    → tally_groups q (group_all specs grouped) ≡ tally q specs + tally_groups q grouped
unfolding group_all
tally_groups-group_all q [] grouped = omega arith
tally_groups-group_all q (s ∷ specs) grouped = omega (
  arith,
  tally_groups-group_all q specs (add_to_group s.schedule.group s grouped),
  tally_groups-add_to_group q s.schedule.group s grouped,
)

tally_groups-group_specs :
    (q : RunSpec → Bool) (specs : List RunSpec) → tally_groups q (group_specs specs) ≡ tally q specs
unfolding group_specs
tally_groups-group_specs q specs =
    omega
      (arith, tally_groups-group_all q (sorted table_fqn specs) [], tally-sorted q table_fqn specs)

abbrev pub tally_jobs : (WorkflowTask → Bool) → List (String × Job) → ℕ
tally_jobs q [] = 0
tally_jobs q ((name, job) ∷ jobs) = tally q job.tasks + tally_jobs q jobs

tally-map :
    {A B : Type 0} (q : B → Bool) (f : A → B) (xs : List A)
    → tally q (map f xs) ≡ tally (λ x. q (f x)) xs
tally-map q f [] = refl
tally-map q f (x ∷ xs) = ap (λ n. one_if (q (f x)) + n) (tally-map q f xs)

tally-filter :
    {A : Type 0} (q r : A → Bool) (xs : List A) → tally q (filter r xs) ≡ tally (λ x. r x && q x) xs
tally-filter q r [] = refl
tally-filter q r (x ∷ xs) = elim (Bool-cases (r x)) [
  | inl e ↦ rw (e, tally-filter q r xs) refl
  | inr e ↦ rw (e, tally-filter q r xs) (omega arith)
]

pub job_of-build_job :
    (group : String) (specs : List RunSpec) (env : String) (options : BundleOptions) (job : Job)
    → build_job group specs env options ≡ ok job
    → (schedule : Option String × String) × (job ≡ job_of group specs env options schedule)
unfolding build_job
job_of-build_job group [] env options job h = cc
job_of-build_job group (s ∷ specs) env options job h =
    let (schedule, a, b) =
      and_then_ok (resolve_group_schedule (s ∷ specs))
        (λ schedule.
          and_then (order_tables (s ∷ specs))
            (λ levels. ok (job_of group (s ∷ specs) env options schedule)))
        job h in
    let (levels, c, d) =
      and_then_ok (order_tables (s ∷ specs))
        (λ levels. ok (job_of group (s ∷ specs) env options schedule)) job b in
    (schedule, sym (ok-injective d))

abbrev enabled : List RunSpec → List RunSpec
enabled specs = filter (λ s. s.runtime.enabled) specs

empty_nil : {A : Type 0} {xs : List A} → is_empty xs ≡ true → xs ≡ []
empty_nil {xs = []} e = refl
empty_nil {xs = x ∷ xs} e = cc

-- A test on the keys of tasks, and the enabled tables whose tasks pass it.
module _ (q : String → Bool) where
  abbrev pub on_task : WorkflowTask → Bool
  on_task t = q t.key

  abbrev pub on_enabled : RunSpec → Bool
  on_enabled s = s.runtime.enabled && q (task_key (table_fqn s))

  tally-job_of :
      (group : String) (specs : List RunSpec) (env : String) (options : BundleOptions)
      (schedule : Option String × String)
      → tally on_task (job_of group specs env options schedule).tasks
        ≡ tally (λ s. q (task_key (table_fqn s))) specs
  unfolding job_of
  tally-job_of group specs env options schedule = tally-map on_task _ specs

  tally-enabled :
      (specs : List RunSpec)
      → tally (λ s. q (task_key (table_fqn s))) (enabled specs) ≡ tally on_enabled specs
  tally-enabled specs =
      tally-filter (λ s. q (task_key (table_fqn s))) (λ s. s.runtime.enabled) specs

  tally-build_job :
      (group : String) (specs : List RunSpec) (env : String) (options : BundleOptions) (job : Job)
      → build_job group (enabled specs) env options ≡ ok job
      → tally on_task job.tasks ≡ tally on_enabled specs
  tally-build_job group specs env options job h =
      let (schedule, e) = job_of-build_job group (enabled specs) env options job h in
      ap (λ j. tally on_task j.tasks) e
      ∙ tally-job_of group (enabled specs) env options schedule
      ∙ tally-enabled specs

  tally-build_jobs :
      (grouped : List (String × List RunSpec)) (env : String) (options : BundleOptions)
      (jobs : List (String × Job))
      → build_jobs grouped env options ≡ ok jobs
      → tally_jobs on_task jobs ≡ tally_groups on_enabled grouped
  unfolding build_jobs
  tally-build_jobs [] env options jobs h =
      subst (λ x. tally_jobs on_task x ≡ 0) (ok-injective h) refl
  tally-build_jobs ((group, specs) ∷ grouped) env options jobs h =
      elim (Bool-cases (is_empty (enabled specs))) [
        | inl e ↦ omega (
          arith,
          tally-build_jobs grouped env options jobs (if_true _ e h),
          sym (tally-enabled specs) ∙ ap (tally (λ s. q (task_key (table_fqn s)))) (empty_nil e),
        )
        | inr e ↦
            let (job, a, b) =
              and_then_ok (build_job group (enabled specs) env options)
                (λ job.
                  and_then (build_jobs grouped env options)
                    (λ jobs. ok (("ingest_" <> group, job) ∷ jobs)))
                jobs (if_false _ e h) in
            let (more, c, d) =
              and_then_ok (build_jobs grouped env options)
                (λ jobs. ok (("ingest_" <> group, job) ∷ jobs)) jobs b in
            ap (tally_jobs on_task) (sym (ok-injective d))
            ∙ omega (
              arith,
              tally-build_job group specs env options job a,
              tally-build_jobs grouped env options more c,
            )
      ]

-- Each key is the key of as many tasks, over all the jobs, as there are enabled tables with it.
pub tasks-build_resources :
    (specs : List RunSpec) (env : String) (options : BundleOptions) (jobs : List (String × Job))
    (key : String)
    → build_resources specs env options ≡ ok jobs
    → tally_jobs (on_task (λ k. k == key)) jobs ≡ tally (on_enabled (λ k. k == key)) specs
unfolding build_resources
tasks-build_resources specs env options jobs key h =
    tally-build_jobs (λ k. k == key) (group_specs specs) env options jobs h
    ∙ tally_groups-group_specs (on_enabled (λ k. k == key)) specs
