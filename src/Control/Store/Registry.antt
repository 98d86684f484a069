-- ===== src/Control/Store/Registry.antt =====
-- `ControlStore` of src/ingestion_framework/control/control_store.py: the registry of
-- configs and the results of checks.
use oracle_repo.Base.{ℕ, String, ◌==◌, Bool, ◌&&◌, Option, List, [], ◌∷◌, ◌++◌, map, length}
use oracle_repo.Engine.Checks.{CheckResult}
use oracle_repo.Platform.{Platform}
use oracle_repo.Control.Tables.{ConfigRow}
use oracle_repo.Control.World.{Action, pure, client, read_clock, ◌>>=◌, ◌>>◌, merge_into}
use oracle_repo.Control.Store.Clock.{or_now}

module _ (p : Platform) where
  abbrev pub at_config : String → String → String → ConfigRow → Bool
  at_config config_hash table_fqn env row =
      row.config_hash == config_hash && (row.table_fqn == table_fqn && row.env == env)

  -- Record the config this run used, keyed by content hash.
  unfoldable pub register_config :
      String
      → String
      → String
      → String
      → List String
      → Option String
      → Option ℕ
      → Action p (Unit {0})
  unfolding client read_clock merge_into
  register_config table_fqn env config_hash resolved_json config_sources run_id seen_at = do
    seen ← or_now p seen_at
    client λ t. (
      tt,
      record t {
        registry =
            merge_into (at_config config_hash table_fqn env)
              (λ row. record row { last_seen_at = seen; last_run_id = run_id })
              (record {
                config_hash = config_hash;
                table_fqn = table_fqn;
                env = env;
                resolved_json = resolved_json;
                config_sources = config_sources;
                first_seen_at = seen;
                last_seen_at = seen;
                last_run_id = run_id;
              })
              t.registry;
      },
    )

  -- Append the check results of a task, as `to_rows` gives them.
  unfoldable pub record_checks : String → String → String → List CheckResult → Option ℕ → Action p ℕ
  unfolding client read_clock
  record_checks run_id table_fqn env [] checked_at = pure 0
  record_checks run_id table_fqn env (c ∷ cs) checked_at = do
    stamp ← or_now p checked_at
    let rows =
        map
          (λ (r : CheckResult). record {
            run_id = run_id;
            table_fqn = table_fqn;
            env = env;
            result = r;
            checked_at = stamp;
          })
          (c ∷ cs)
    client (λ t. (tt, record t { checks = t.checks ++ rows }))
    pure (length rows)
