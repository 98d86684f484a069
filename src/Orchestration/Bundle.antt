-- ===== src/Orchestration/Bundle.antt =====
-- src/ingestion_framework/orchestration/bundle.py: the jobs that run the tables. The definition of
-- the job cluster, a constant or a value of the options, is left out of a job.
pub mod Groups
pub mod Jobs
use oracle_repo.Base.{
  ℕ, ◌*◌, String, ◌<>◌, ◌==◌, Bool, true, false, not, Option, none, some, List, [], ◌∷◌, ◌++◌, map,
  filter, any, head?, is_empty, if◌then◌else◌,
}
use oracle_repo.Base.Text.{strip, lower, is_blank, underscore_all}
use oracle_repo.Base.Text.Scan.{has_prefix, split_first}
use oracle_repo.Base.Dict.{get, put, put_all, sorted}
use oracle_repo.RunSpec.{RunSpec, table_fqn, is_set}
use oracle_repo.Platform.{bundle_error, Result, ok, err, and_then}
use oracle_repo.Orchestration.Order.{order_tables}

pub record BundleOptions : Type 0 where
  pub job_cluster_key : String
  pub package_name : String
  pub entry_point : String
  pub config_root : String
  pub env_expression : Option String
  pub max_concurrent_runs : ℕ
  pub tags : List (String × String)

-- A Workflow task key derived from the table name.
unfoldable pub task_key : String → String
task_key table_fqn = underscore_all table_fqn

unfoldable pub job_name : String → String → String
job_name env group = "ingest_" <> (env <> ("_" <> group))

-- `grouped.setdefault(group, []).append(spec)`
unfoldable pub add_to_group :
    String → RunSpec → List (String × List RunSpec) → List (String × List RunSpec)
add_to_group group spec [] = (group, spec ∷ []) ∷ []
add_to_group group spec ((g, specs) ∷ grouped) =
    let rest = add_to_group group spec grouped in
    if g == group then (g, specs ++ spec ∷ []) ∷ grouped else (g, specs) ∷ rest

unfoldable pub group_all :
    List RunSpec → List (String × List RunSpec) → List (String × List RunSpec)
unfolding add_to_group
group_all [] grouped = grouped
group_all (spec ∷ specs) grouped = group_all specs (add_to_group spec.schedule.group spec grouped)

unfoldable pub group_specs : List RunSpec → List (String × List RunSpec)
unfolding group_all sorted
group_specs specs = group_all (sorted table_fqn specs) []

-- A set, its elements in the order in which they are first met.
unfoldable pub distinct : List String → List String
distinct [] = []
distinct (s ∷ rest) = s ∷ filter (λ t. not (t == s)) (distinct rest)

abbrev or_empty : Option String → String
or_empty none = ""
or_empty (some s) = s

abbrev many : List String → Bool
many (a ∷ b ∷ rest) = true
many _ = false

-- The cron and the time zone of a group, or an error if its tables disagree.
unfoldable pub resolve_group_schedule : List RunSpec → Result (Option String × String)
unfolding distinct
resolve_group_schedule specs =
    let crons =
      distinct (filter (λ c. not (is_blank c)) (map (λ s. or_empty s.schedule.cron) specs)) in
    let timezones = distinct (map (λ s. s.schedule.timezone) specs) in
    if many crons
    then err bundle_error
    else if many timezones
    then err bundle_error
    else ok (head? crons, elim (head? timezones) [ none ↦ "UTC" | some t ↦ t ])

-- The address of an email channel; `none` for any other channel, and for a missing address.
unfoldable pub email_address : String → Option String
unfolding has_prefix
email_address channel =
    if has_prefix "email:" (lower channel)
    then elim (split_first b':' channel) [
      | none ↦ none
      | some parts ↦ if is_blank (strip parts.1) then none else some (strip parts.1)
    ]
    else none

email_targets_onto : List String → List String → List String
unfolding email_address
email_targets_onto out [] = out
email_targets_onto out (channel ∷ channels) = elim (email_address channel) [
  | none ↦ email_targets_onto out channels
  | some address ↦
      let next = if any (λ a. a == address) out then out else out ++ address ∷ [] in
      email_targets_onto next channels
]

unfoldable pub email_targets : List String → List String
unfolding email_targets_onto
email_targets channels = email_targets_onto [] channels

pub record WorkflowTask : Type 0 where
  pub key : String
  pub job_cluster_key : String
  pub package_name : String
  pub entry_point : String
  pub parameters : List String
  pub max_retries : ℕ
  pub timeout_seconds : ℕ
  pub depends_on : List String
  pub description : Option String

-- Only dependencies inside this job can be expressed as task edges.
unfoldable pub build_task : RunSpec → BundleOptions → String → List String → WorkflowTask
unfolding task_key table_fqn sorted
build_task spec options env_expression known_tables = record {
  key = task_key (table_fqn spec);
  job_cluster_key = options.job_cluster_key;
  package_name = options.package_name;
  entry_point = options.entry_point;
  parameters =
      "run"
      ∷ "--table"
      ∷ table_fqn spec
      ∷ "--env"
      ∷ env_expression
      ∷ "--config-root"
      ∷ options.config_root
      ∷ "--trigger"
      ∷ "schedule"
      ∷ [];
  max_retries = spec.schedule.job_retries;
  timeout_seconds = spec.runtime.timeout_minutes * 60;
  depends_on =
      map task_key
        (sorted (λ d. d) (filter (λ d. any (λ k. k == d) known_tables) spec.table.depends_on));
  description = if is_set spec.table.description then spec.table.description else none;
}

-- The dependencies that are no task of the job, as the description of the job lists them.
unfoldable pub cross_group_dependencies : List RunSpec → List String → List (String × String)
unfolding table_fqn
cross_group_dependencies [] known = []
cross_group_dependencies (spec ∷ specs) known =
    map (λ d. (table_fqn spec, d))
      (filter (λ d. not (any (λ k. k == d) known)) spec.table.depends_on)
    ++ cross_group_dependencies specs known

pub record Job : Type 0 where
  pub name : String
  pub max_concurrent_runs : ℕ
  pub tags : List (String × String)
  pub tasks : List WorkflowTask
  pub schedule : Option (String × String)
  pub emails : List String
  pub dropped : List (String × String)

all_emails : List RunSpec → List String
unfolding email_targets
all_emails [] = []
all_emails (spec ∷ specs) = email_targets spec.alerting.on_failure ++ all_emails specs

-- `options.env_expression or "${bundle.target}"`
unfoldable pub expression_of : BundleOptions → String
expression_of options =
    if is_set options.env_expression then or_empty options.env_expression else "${bundle.target}"

unfoldable pub job_of :
    String → List RunSpec → String → BundleOptions → Option String × String → Job
unfolding job_name expression_of build_task cross_group_dependencies all_emails distinct sorted
    put_all
job_of group specs env options (cron, timezone) =
    let env_expression = expression_of options in
    let known = map table_fqn specs in
    record {
      name = job_name env group;
      max_concurrent_runs = options.max_concurrent_runs;
      tags =
          put_all options.tags
            (("managed_by", "ingestion-framework") ∷ ("schedule_group", group) ∷ []);
      tasks = map (λ s. build_task s options env_expression known) specs;
      schedule = elim cron [ none ↦ none | some c ↦ some (c, timezone) ];
      emails = sorted (λ e. e) (distinct (all_emails specs));
      dropped = cross_group_dependencies specs known;
    }

-- One job per schedule group, one task per table; a cycle is rejected before.
unfoldable pub build_job : String → List RunSpec → String → BundleOptions → Result Job
unfolding resolve_group_schedule order_tables job_of
build_job group specs env options =
    if is_empty specs
    then err bundle_error
    else and_then (resolve_group_schedule specs) (λ schedule.
      and_then (order_tables specs) (λ levels. ok (job_of group specs env options schedule)))

-- The loop over the groups; one whose tables are all disabled has no job.
unfoldable pub build_jobs :
    List (String × List RunSpec) → String → BundleOptions → Result (List (String × Job))
unfolding build_job
build_jobs [] env options = ok []
build_jobs ((group, specs) ∷ grouped) env options =
    let enabled = filter (λ s. s.runtime.enabled) specs in
    let rest = build_jobs grouped env options in
    if is_empty enabled
    then rest
    else and_then (build_job group enabled env options)
        (λ job. and_then rest (λ jobs. ok (("ingest_" <> group, job) ∷ jobs)))

unfoldable pub build_resources :
    List RunSpec → String → BundleOptions → Result (List (String × Job))
unfolding group_specs build_jobs
build_resources specs env options = build_jobs (group_specs specs) env options

-- `{s.table_fqn: s.schedule.group for s in specs}`
group_of : List RunSpec → List (String × String) → List (String × String)
unfolding put table_fqn
group_of [] d = d
group_of (s ∷ specs) d = group_of specs (put (table_fqn s) s.schedule.group d)

pub record CrossGroup : Type 0 where
  pub table : String
  pub group : String
  pub dependency : String
  pub dependency_group : String

crossing : RunSpec → List (String × String) → List String → List CrossGroup
unfolding get table_fqn
crossing spec groups [] = []
crossing spec groups (d ∷ ds) =
    let rest = crossing spec groups ds in
    elim (get d groups) [
      | none ↦ rest
      | some g ↦
          if g == spec.schedule.group
          then rest
          else record {
            table = table_fqn spec;
            group = spec.schedule.group;
            dependency = d;
            dependency_group = g;
          }
            ∷ rest
    ]

report_onto : List (String × String) → List RunSpec → List CrossGroup
unfolding crossing
report_onto groups [] = []
report_onto groups (spec ∷ specs) =
    crossing spec groups spec.table.depends_on ++ report_onto groups specs

unfoldable pub cross_group_dependency_report : List RunSpec → List CrossGroup
unfolding group_of report_onto
cross_group_dependency_report specs = report_onto (group_of specs []) specs
