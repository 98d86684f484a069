-- ===== src/Control/Marks.antt =====
-- What each operation of the control plane may do to the table of watermarks: nothing, but for
-- `advance`, which makes one MERGE, and `force_set`.
use oracle_repo.Base.{
  ℕ, ◌≡◌, refl, sym, subst, String, Bool, false, Option, none, some, List, [], ◌∷◌,
}
use oracle_repo.RunSpec.{Value}
use oracle_repo.Platform.{Platform, ok, Cast}
use oracle_repo.Engine.Checks.{CheckResult}
use oracle_repo.Control.Status.{TaskStatus, RunStatus}
use oracle_repo.Control.Tables.{Tables, WatermarkRow, TaskMetrics, EventType, Field, AuditEvent}
use oracle_repo.Control.World.{client}
use oracle_repo.Control.Effects.{
  Preorder, Steps, steps_rules, Steps-client, Steps-bind, Steps-bind_lift, Steps-lift, Steps-pure,
}
use oracle_repo.Control.Store.{
  TaskRef, RunContext, or_now, start_run, resolve_status, finish_run, start_task, finish_task,
  register_config, record_checks,
}
use oracle_repo.Control.Audit.{bind_context, write_out, flush, emit}
use oracle_repo.Control.Watermark.{cast_by_type}
use oracle_repo.Control.WatermarkStore.{
  Mark, merge_advance, cast_or_raise, advance_with, get, window, advance_to, advance,
}

abbrev pub Rows : Type 0
Rows = List WatermarkRow

pub record MarkOrder (R : Rows → Rows → Type 0) : Type 0 where
  pub stay : (rows : Rows) → R rows rows
  pub trans : (a b c : Rows) → R a b → R b c → R a c

-- The relation on the tables that looks at the watermarks alone.
abbrev pub OnMarks : (Rows → Rows → Type 0) → Tables → Tables → Type 0
OnMarks R t u = R t.watermarks u.watermarks

pub OnMarks-Preorder : {R : Rows → Rows → Type 0} → MarkOrder R → Preorder (OnMarks R)
OnMarks-Preorder o = record {
  stay = λ t. o.stay t.watermarks;
  trans = λ t u v. o.trans t.watermarks u.watermarks v.watermarks;
}

module _ {p : Platform} {R : Rows → Rows → Type 0} (o : MarkOrder R) where
  -- A statement on another table.
  elsewhere :
      {A : Type 0} (f : Tables → A × Tables)
      → ((t : Tables) → (f t).1.watermarks ≡ t.watermarks)
      → Steps {p = p} (OnMarks R) (client f)
  elsewhere f h =
      Steps-client (OnMarks-Preorder o) f
        (λ t. subst (λ rows. R t.watermarks rows) (sym (h t)) (o.stay t.watermarks))

  write_out-Steps : (es : List AuditEvent) → Steps {p = p} (OnMarks R) (write_out p es)
  unfolding write_out
  write_out-Steps [] = search (OnMarks-Preorder o, steps_rules)
  write_out-Steps (e ∷ es) = search (OnMarks-Preorder o, steps_rules, elsewhere)

  flush-Steps : Steps {p = p} (OnMarks R) (flush p)
  unfolding flush
  flush-Steps = search (OnMarks-Preorder o, steps_rules, write_out-Steps)

  pub emit-Steps :
      (event : EventType) (table_fqn : Option String) (payload : List (String × Field))
      (run_id : Option String) (flushes : Bool)
      → Steps {p = p} (OnMarks R) (emit p event table_fqn payload run_id flushes)
  unfolding emit
  emit-Steps event table_fqn payload run_id flushes =
      search (OnMarks-Preorder o, steps_rules, flush-Steps) depth 12

  pub bind_context-Steps :
      (run_id env actor : Option String)
      → Steps {p = p} (OnMarks R) (bind_context p run_id env actor)
  unfolding bind_context
  bind_context-Steps run_id env actor = search (OnMarks-Preorder o, steps_rules)

  or_now-Steps : (given : Option ℕ) → Steps {p = p} (OnMarks R) (or_now p given)
  or_now-Steps none = search (OnMarks-Preorder o, steps_rules)
  or_now-Steps (some t) = search (OnMarks-Preorder o, steps_rules)

  pub register_config-Steps :
      (table_fqn env config_hash resolved_json : String) (config_sources : List String)
      (run_id : Option String) (seen_at : Option ℕ)
      → Steps {p = p}
          (OnMarks R)
          (register_config p table_fqn env config_hash resolved_json config_sources run_id seen_at)
  unfolding register_config
  register_config-Steps table_fqn env config_hash resolved_json config_sources run_id seen_at =
      search (OnMarks-Preorder o, steps_rules, elsewhere, or_now-Steps)

  pub start_task-Steps :
      (run_id table_fqn env mode write config_hash : String) (attempt : ℕ)
      (watermark_from : Option String) (started_at : Option ℕ)
      → Steps {p = p} (OnMarks R) (
          start_task p run_id table_fqn env mode write config_hash attempt watermark_from
            started_at)
  unfolding start_task
  start_task-Steps run_id table_fqn env mode write config_hash attempt watermark_from started_at =
      search (OnMarks-Preorder o, steps_rules, elsewhere, or_now-Steps)

  pub finish_task-Steps :
      (task : TaskRef) (status : TaskStatus) (metrics : TaskMetrics)
      (error_type error_message : Option String) (started_at ended_at : Option ℕ)
      (current : TaskStatus)
      → Steps {p = p}
          (OnMarks R)
          (finish_task p task status metrics error_type error_message started_at ended_at current)
  unfolding finish_task
  finish_task-Steps task status metrics error_type error_message started_at ended_at current =
      search (OnMarks-Preorder o, steps_rules, elsewhere, or_now-Steps)

  pub record_checks-Steps :
      (run_id table_fqn env : String) (checks : List CheckResult) (checked_at : Option ℕ)
      → Steps {p = p} (OnMarks R) (record_checks p run_id table_fqn env checks checked_at)
  unfolding record_checks
  record_checks-Steps run_id table_fqn env [] checked_at = search (OnMarks-Preorder o, steps_rules)
  record_checks-Steps run_id table_fqn env (c ∷ cs) checked_at =
      search (OnMarks-Preorder o, steps_rules, elsewhere, or_now-Steps)

  pub start_run-Steps :
      (run_id env trigger : String) (triggered_by : Option String) (table_count : ℕ)
      (job_id job_run_id : Option String) (started_at : Option ℕ)
      → Steps {p = p}
          (OnMarks R)
          (start_run p run_id env trigger triggered_by table_count job_id job_run_id started_at)
  unfolding start_run
  start_run-Steps run_id env trigger triggered_by table_count job_id job_run_id started_at =
      search (OnMarks-Preorder o, steps_rules, elsewhere, or_now-Steps)

  resolve_status-Steps :
      (run_id : String) (status : Option RunStatus)
      → Steps {p = p} (OnMarks R) (resolve_status p run_id status)
  unfolding resolve_status
  resolve_status-Steps run_id none = search (OnMarks-Preorder o, steps_rules, elsewhere)
  resolve_status-Steps run_id (some status) = search (OnMarks-Preorder o, steps_rules)

  pub finish_run-Steps :
      (run : RunContext) (status : Option RunStatus) (error_message : Option String)
      (ended_at : Option ℕ)
      → Steps {p = p} (OnMarks R) (finish_run p run status error_message ended_at)
  unfolding finish_run
  finish_run-Steps run status error_message ended_at =
      search (OnMarks-Preorder o, steps_rules, elsewhere, or_now-Steps, resolve_status-Steps)

  get-Steps : (table_fqn env : String) → Steps {p = p} (OnMarks R) (get p table_fqn env)
  unfolding get
  get-Steps table_fqn env = elsewhere _ (λ t. refl)

  pub window-Steps :
      (table_fqn env wtype : String) (overlap : ℕ) (default : Value)
      → Steps {p = p} (OnMarks R) (window p table_fqn env wtype overlap default)
  unfolding window
  window-Steps table_fqn env wtype overlap default =
      search (OnMarks-Preorder o, steps_rules, get-Steps)

-- The MERGEs that an advance of a mark of one table, environment and type may make.
abbrev pub AllowsAdvance : Platform → (Rows → Rows → Type 0) → String → String → String → Type 0
AllowsAdvance p R table_fqn env wtype =
    (c : Cast) (m : Mark) (rows : Rows)
    → (m.table_fqn ≡ table_fqn) × (m.env ≡ env)
    → cast_by_type wtype ≡ some c
    → R rows (merge_advance p c m rows)

cast_or_raise-eq-ok : (x : Option Cast) {c : Cast} → cast_or_raise x ≡ ok c → x ≡ some c
cast_or_raise-eq-ok none h = cc
cast_or_raise-eq-ok (some c) h = cc

module _ {p : Platform} {R : Rows → Rows → Type 0} (o : MarkOrder R) where
  advance_with-Steps :
      (m : Mark) (canonical : String) (c : Cast)
      → ((rows : Rows) → R rows (merge_advance p c m rows))
      → Steps {p = p} (OnMarks R) (advance_with p m canonical c)
  unfolding advance_with
  advance_with-Steps m canonical c moved =
      Steps-bind (OnMarks-Preorder o) _ _
        (Steps-client (OnMarks-Preorder o) _ (λ t. moved t.watermarks))
        (λ _. search (OnMarks-Preorder o, steps_rules, get-Steps o))

  advance_to-Steps :
      (m : Mark) (canonical : String)
      → AllowsAdvance p R m.table_fqn m.env m.watermark_type
      → Steps {p = p} (OnMarks R) (advance_to p m canonical)
  unfolding advance_to
  advance_to-Steps m canonical allowed = Steps-bind_lift (OnMarks-Preorder o) _ _ λ c e.
      advance_with-Steps m canonical c
        (λ rows. allowed c m rows (refl, refl) (cast_or_raise-eq-ok _ e))

  pub advance-Steps :
      (table_fqn env : String) (v : Value) (run_id : String) (column : Option String)
      (wtype : String) (updated_at : ℕ)
      → AllowsAdvance p R table_fqn env wtype
      → Steps {p = p} (OnMarks R) (advance p table_fqn env v run_id column wtype updated_at)
  unfolding advance
  advance-Steps table_fqn env v run_id column wtype updated_at allowed =
      Steps-bind (OnMarks-Preorder o) _ _ (Steps-lift (OnMarks-Preorder o) _) (elim [
        | none ↦ Steps-pure (OnMarks-Preorder o) false
        | some value ↦
            advance_to-Steps
              (record {
                table_fqn = table_fqn;
                env = env;
                watermark_column = column;
                watermark_type = wtype;
                value = some value;
                run_id = run_id;
                updated_at = updated_at;
              })
              value allowed
      ])
