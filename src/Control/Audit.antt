-- ===== src/Control/Audit.antt =====
-- `AuditLog` of src/ingestion_framework/control/audit.py.
pub mod Buffer
use oracle_repo.Base.{
  ℕ, ◌+◌, String, Bool, ◌||◌, Option, none, some, List, [], ◌∷◌, ◌++◌, length, leb, if◌then◌else◌,
}
use oracle_repo.Base.Text.{is_blank}
use oracle_repo.Platform.{Platform}
use oracle_repo.Control.Tables.{EventType, AuditEvent, Field}
use oracle_repo.Control.World.{
  Action, pure, client, get_log, put_log, read_clock, fresh_id, ◌>>=◌, ◌>>◌,
}

-- `run_id or self._run_id`
abbrev pub or_bound : Option String → Option String → Option String
or_bound none bound = bound
or_bound (some s) bound = if is_blank s then bound else some s

-- `value if value is not None else old`
abbrev given_or : Option String → Option String → Option String
given_or none old = old
given_or (some s) old = some s

module _ (p : Platform) where
  unfoldable pub bind_context : Option String → Option String → Option String → Action p (Unit {0})
  bind_context run_id env actor = do
    log ← get_log
    put_log (record log {
      run_id = given_or run_id log.run_id;
      env = given_or env log.env;
      actor = given_or actor log.actor;
    })

  -- The buffer is cleared before the rows are inserted.
  unfoldable pub write_out : List AuditEvent → Action p ℕ
  unfolding client
  write_out [] = pure 0
  write_out (e ∷ es) = do
    log ← get_log
    put_log (record log { buffer = [] })
    client (λ t. (tt, record t { audit_log = t.audit_log ++ (e ∷ es) }))
    pure (length (e ∷ es))

  unfoldable pub flush : Action p ℕ
  unfolding write_out
  flush = get_log >>= λ log. write_out log.buffer

  -- Buffered unless `flush` is asked for, or the buffer is full.
  unfoldable pub emit :
      EventType → Option String → List (String × Field) → Option String → Bool → Action p AuditEvent
  unfolding flush read_clock fresh_id
  emit event_type table_fqn payload run_id flushes = do
    event_id ← fresh_id
    event_ts ← read_clock
    log ← get_log
    let event : AuditEvent = record {
      event_id = event_id;
      event_type = event_type;
      event_ts = event_ts;
      run_id = or_bound run_id log.run_id;
      table_fqn = table_fqn;
      env = log.env;
      sequence = log.sequence + 1;
      actor = log.actor;
      payload = payload;
    }
    put_log (record log { sequence = log.sequence + 1; buffer = log.buffer ++ event ∷ [] })
    if flushes || leb log.buffer_limit (length (log.buffer ++ event ∷ []))
        then flush >> pure event
        else pure event
