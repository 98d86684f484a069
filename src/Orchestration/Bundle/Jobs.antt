-- ===== src/Orchestration/Bundle/Jobs.antt =====
-- What becomes of the dependencies of a job's tables.
use Prim.Native.Nat.{Ordering}
use Prim.Native.Nat.Ordering.{lt, eq, gt}
use Prim.Native.String.{compare}
use oracle_repo.Base.{
  refl, ◌≡◌, ◌⊎◌, inl, inr, sym, subst, ap, String, ◌==◌, Bool, true, false, not, Bool-cases,
  Option, List, [], ◌∷◌, map, any, In, first, later, In-filter, In-map, In-append_left,
  In-append_right,
}
use oracle_repo.Base.Dict.{insert_sorted, sorted}
use oracle_repo.RunSpec.{RunSpec, table_fqn}
use oracle_repo.Platform.{ok}
use oracle_repo.Orchestration.Bundle.{
  BundleOptions, Job, WorkflowTask, task_key, build_task, cross_group_dependencies, build_job,
  job_of, expression_of,
}
use oracle_repo.Orchestration.Bundle.Groups.{job_of-build_job}

insert_first :
    (key : String → String) (x : String) (xs : List String) → In x (insert_sorted key x xs)
unfolding insert_sorted
insert_first key x [] = first
insert_first key x (y ∷ ys) = placed (compare (key x) (key y)) (insert_first key x ys)
  where
    placed :
        (o : Ordering)
        → In x (insert_sorted key x ys)
        → In x (elim o [ gt ↦ y ∷ insert_sorted key x ys | _ ↦ x ∷ y ∷ ys ])
    placed lt i = first
    placed eq i = first
    placed gt i = later i

insert_later :
    {a : String} (key : String → String) (x : String) {xs : List String}
    → In a xs
    → In a (insert_sorted key x xs)
unfolding insert_sorted
insert_later {a} key x (first {xs = ys}) = placed (compare (key x) (key a))
  where
    placed : (o : Ordering) → In a (elim o [ gt ↦ a ∷ insert_sorted key x ys | _ ↦ x ∷ a ∷ ys ])
    placed lt = later first
    placed eq = later first
    placed gt = first
insert_later {a} key x (later {x = y} {xs = ys} i) =
    placed (compare (key x) (key y)) (insert_later key x i)
  where
    placed :
        (o : Ordering)
        → In a (insert_sorted key x ys)
        → In a (elim o [ gt ↦ y ∷ insert_sorted key x ys | _ ↦ x ∷ y ∷ ys ])
    placed lt j = later (later i)
    placed eq j = later (later i)
    placed gt j = later j

In-sorted : {a : String} (key : String → String) {xs : List String} → In a xs → In a (sorted key xs)
unfolding sorted
In-sorted key (first {xs}) = insert_first key _ (sorted key xs)
In-sorted key (later {x} i) = insert_later key x (In-sorted key i)

abbrev is_known : List String → String → Bool
is_known known d = any (λ k. k == d) known

edge_of :
    (s : RunSpec) (options : BundleOptions) (env : String) (known : List String) (d : String)
    → In d s.table.depends_on
    → is_known known d ≡ true
    → In (task_key d) (build_task s options env known).depends_on
unfolding build_task
edge_of s options env known d i h =
    In-map task_key (In-sorted (λ d. d) (In-filter (is_known known) i h))

dropped_of :
    (s : RunSpec) (known : List String) (d : String) {specs : List RunSpec}
    → In s specs
    → In d s.table.depends_on
    → is_known known d ≡ false
    → In (table_fqn s, d) (cross_group_dependencies specs known)
unfolding cross_group_dependencies
dropped_of s known d (first {xs}) i h =
    In-append_left (cross_group_dependencies xs known)
      (In-map (λ d. (table_fqn s, d)) (In-filter (λ d. not (is_known known d)) i (ap not h)))
dropped_of s known d (later {x} j) i h = In-append_right _ (dropped_of s known d j i h)

-- Where the dependency `d` of the table `s` stands in a job.
abbrev pub Kept : RunSpec → String → Job → Type 0
Kept s d job =
    ((t : WorkflowTask) × In t job.tasks
      × (t.key ≡ task_key (table_fqn s))
      × In (task_key d) t.depends_on)
    ⊎ In (table_fqn s, d) job.dropped

job_of-Kept :
    (group : String) (specs : List RunSpec) (env : String) (options : BundleOptions)
    (schedule : Option String × String) (s : RunSpec) (d : String)
    → In s specs
    → In d s.table.depends_on
    → Kept s d (job_of group specs env options schedule)
unfolding job_of build_task
job_of-Kept group specs env options schedule s d i j =
    elim (Bool-cases (is_known (map table_fqn specs) d)) [
      | inl h ↦ inl (
        _,
        In-map (λ s. build_task s options (expression_of options) (map table_fqn specs)) i,
        refl,
        edge_of s options (expression_of options) (map table_fqn specs) d j h,
      )
      | inr h ↦ inr (dropped_of s (map table_fqn specs) d i j h)
    ]

-- Each dependency of each table of a job is an edge of the table's task, or is listed among the
-- dropped ones.
pub build_job-Kept :
    (group : String) (specs : List RunSpec) (env : String) (options : BundleOptions) (job : Job)
    (s : RunSpec) (d : String)
    → build_job group specs env options ≡ ok job
    → In s specs
    → In d s.table.depends_on
    → Kept s d job
build_job-Kept group specs env options job s d h i j =
    let (schedule, e) = job_of-build_job group specs env options job h in
    subst (Kept s d) (sym e) (job_of-Kept group specs env options schedule s d i j)
