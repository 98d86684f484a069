-- ===== src/Lib.antt =====
-- A metadata-driven ingestion framework that loads Oracle tables into Delta tables. Paths are from
-- the root of the repository, below src/ingestion_framework unless they say otherwise.
--
-- The program runs a batch of tables (orchestration/batch_runner.py): it groups them in dependency
-- levels, runs each table with retries (orchestration/runner.py), skips the dependents of a table
-- that failed, and closes the run's row. One attempt at a table resolves the window of its
-- watermark, extracts, stages, loads and reconciles, and only then advances the watermark; the
-- control plane (control/) records runs, tasks, checks, configs, watermarks and audit events in
-- Delta tables through an SQL client.
--
-- The files and what they model:
--   RunSpec             engine/run_spec.py: the dataclasses, their properties as functions
--   Duration            utils/duration.py; Digits, Fields and Inverse read back what it writes
--   Platform            the exceptions, and what is not the repository's own: decimals, strptime
--                       and strftime, SQL's comparison, the clock, fresh identifiers, the faults of
--                       the SQL client, Spark's state. It is a parameter of everything else; what
--                       the theorems ask of it are IsOrdered, IsCalendar, IsWide and NoFault.
--   Engine.Checks       engine/reconciler.py: the checks on counts, the report, its summary
--   Engine.Expectations engine/reconciler.py: the queries of the expectations
--   Engine.Sql          engine/sql_builder.py: Literals (literals and identifiers), Predicates (the
--                       projection and the WHERE clause), Templates (custom query files), Queries
--   Engine.Staging, Engine.Transformer   engine/transformer.py: the staging statement, and `stage`
--   Engine.Merge, Engine.Loader   engine/loader.py: the MERGE, its text and what it does with rows
--                       (Merge.Rows); the creation of the target, the counters, and `write`
--   Engine.Extractor    engine/extractor.py
--   Engine.Cluster      what the three ask of Spark, Delta, JDBC and the secrets, an interface;
--   Engine.Assembled    the engine of the three on a cluster, as the runner takes it
--   Engine.Batches      Reconciler.run, view_names of engine/transformer.py, and the interface of
--                       the extractor, the transformer and the loader
--   Config.Tree, Config.Merger   config/merger.py: the layers as trees, copied and merged
--   Config.Resolver     config/resolver.py: a table's reference, the overrides of an environment, the
--                       identity and the derived defaults of a table
--   Control.Schema      control/schema.py: the definitions of the control tables and their DDL
--   Control.Status      the task state machine and derive_run_status (control/control_store.py)
--   Control.Tables      the rows of the control tables (control/schema.py)
--   Control.World       the state that the objects share, and the monad of the methods: an action
--                       takes the world to a result or an exception and a world that outlives it
--   Control.Watermark, Control.WatermarkStore   control/watermark.py
--   Control.Store       ControlStore of control/control_store.py: runs, tasks, registry, checks
--   Control.Audit       AuditLog of control/audit.py
--   Control.Effects, Control.Marks, Control.Total   rules for what an action does to the tables,
--                       what it returns, and whether it can raise
--   Orchestration.Lifecycle, Orchestration.Runner   TableRunner (orchestration/runner.py),
--                       `_execute` in the two parts that the watermark's ordering is about,
--                       `prepare` and `commit`, and `run` up to its `try`, `open_task`
--   Orchestration.Runner.Loaded, .Guarding   what `prepare` has done when it returns, and the
--                       attempts that a run passes through
--   Orchestration.Order, Orchestration.Batch   orchestration/batch_runner.py
--   Orchestration.Bundle   orchestration/bundle.py: one job for each schedule group
--   Observability.Alerts   observability/alerts.py: channels and their dispatch
--   Tests               the theorems at concrete inputs
--
-- An SQL statement is modelled by what its text tells the engine to do with the rows of its table.
-- Each call of the client either raises, and the tables are as they were, or runs; which calls
-- raise is a parameter. Statements of other processes between two calls are not in the world; the
-- advances of a watermark are also taken in any order, since each is one MERGE. Numbers are
-- unbounded, an instant is a number of microseconds and the digits of a duration are ASCII.
-- A MERGE in which several staged rows match one row of the target raises, whatever its guard.
-- Fuel is used by `rounds` alone, which gets as much as there are tables, and by the digits of a
-- number. The thread pool of a level is a parameter.
--
-- The lists of a configuration may be tagged; the keys of a mapping are texts, and the equality of
-- the identities that `!merge_by` matches on is a parameter. Of `re` the digits and the letters
-- outside ASCII, and what `re.sub` makes of a replacement with a backslash, are parameters. Each
-- operation of a cluster may raise and may change the lake.
--
-- Python's truth of a number, `str` of a value, and `dict` of a value that is no mapping, are
-- parameters of Config.Resolver.
--
-- Not modelled: the reading of the config files, the expansion of their placeholders and their
-- validation (config/loader.py, config/validator.py and the rest of config/resolver.py, `resolve`
-- itself included), RunSpec.from_config, the texts of errors, alerts and log lines, the
-- definition of a job's cluster, monitoring queries, the command line and the logger.
pub mod Base
pub mod RunSpec
pub mod Duration
pub mod Platform
pub mod Engine
pub mod Config
pub mod Control
pub mod Observability
pub mod Orchestration
pub mod Tests
