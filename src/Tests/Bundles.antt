-- ===== src/Tests/Bundles.antt =====
-- The theorems on jobs and alerts at concrete inputs.
use oracle_repo.Base.{
  refl, ◌≡◌, ℕ, suc, String, ◌==◌, not, none, List, [], ◌∷◌, filter, length, first, later,
}
use oracle_repo.RunSpec.{RunSpec, table_fqn}
use oracle_repo.Platform.{ok, err, external}
use oracle_repo.Orchestration.Bundle.{BundleOptions, Job, build_job, build_resources, job_of}
use oracle_repo.Orchestration.Bundle.Groups.{
  tally, tally_jobs, on_task, on_enabled, tasks-build_resources,
}
use oracle_repo.Orchestration.Bundle.Jobs.{Kept, build_job-Kept}
use oracle_repo.Observability.Alerts.{AlertDispatcher, attempted, dispatch}
use oracle_repo.Observability.Alerts.Accounting.{is_channel, dispatch_lem}
use oracle_repo.Tests.Sample.{spec_of}

abbrev sample_options : BundleOptions
sample_options = record {
  job_cluster_key = "ingest_cluster";
  package_name = "ingestion_framework";
  entry_point = "ingest";
  config_root = "config";
  env_expression = none;
  max_concurrent_runs = 1;
  tags = [];
}

abbrev two_tables : List RunSpec
two_tables = spec_of "lines" ("sales.orders" ∷ "hr.people" ∷ []) ∷ spec_of "orders" [] ∷ []

abbrev daily_job : Job
daily_job = job_of "daily" two_tables "dev" sample_options (none, "UTC")

daily_built : build_job "daily" two_tables "dev" sample_options ≡ ok daily_job
unfolding build_job job_of
daily_built = refl

build_job-Kept_example :
    Kept (spec_of "lines" ("sales.orders" ∷ "hr.people" ∷ [])) "hr.people" daily_job
build_job-Kept_example =
    build_job-Kept "daily" two_tables "dev" sample_options daily_job
      (spec_of "lines" ("sales.orders" ∷ "hr.people" ∷ [])) "hr.people" daily_built first
      (later first)

resources_built :
    build_resources two_tables "dev" sample_options ≡ ok (("ingest_daily", daily_job) ∷ [])
unfolding build_resources job_of table_fqn
resources_built = refl

tasks-build_resources_example :
    tally_jobs (on_task (λ k. k == "sales_orders")) (("ingest_daily", daily_job) ∷ [])
    ≡ tally (on_enabled (λ k. k == "sales_orders")) two_tables
tasks-build_resources_example =
    tasks-build_resources two_tables "dev" sample_options (("ingest_daily", daily_job) ∷ [])
      "sales_orders" resources_built

-- A dispatcher whose mail sender raises.
abbrev broken_mail : AlertDispatcher String ℕ
broken_mail = record {
  senders = ("email", λ channel alert sent. (err (external "SMTPError" "down"), sent)) ∷ [];
  default_sender = λ channel alert sent. (ok tt, suc sent);
}

abbrev three_channels : List String
three_channels = "email:oncall@example.com" ∷ "slack:#alerts" ∷ "nobody" ∷ []

dispatch_example :
    ((dispatch broken_mail "failed" three_channels 0).0.unroutable
      ≡ filter (λ s. not (is_channel s)) three_channels)
    × (attempted (dispatch broken_mail "failed" three_channels 0).0
        ≡ length (filter is_channel three_channels))
dispatch_example = dispatch_lem broken_mail "failed" three_channels 0
