-- ===== src/Control/Total.antt =====
-- Actions that never raise as long as the SQL client raises nothing: rules for each way to build
-- an action, and the operations of the control plane that the runner leaves unguarded.
use oracle_repo.Base.{
  ℕ, ◌≡◌, refl, String, Bool, true, false, Option, none, some, List, [], ◌∷◌, if◌then◌else◌,
}
use oracle_repo.Platform.{Platform, Error, Result, ok, err}
use oracle_repo.Control.Tables.{Tables, EventType, Field, AuditEvent}
use oracle_repo.Control.World.{
  AuditLog, Alert, World, Action, pure, try_except, client, bind_result, ◌>>=◌, get_log, put_log,
  dispatch, sleep, read_clock, fresh_id,
}
use oracle_repo.Control.Store.{or_now, start_task, register_config}
use oracle_repo.Control.Audit.{write_out, flush, emit}

-- `m` returns a value in every world.
pub record Total {p : Platform} {A : Type 0} (m : Action p A) : Type 0 where
  pub returns : (w : World p) → (a : A) × ((m w).0 ≡ ok a)

module _ {p : Platform} {A : Type 0} where
  pub Total-pure : (a : A) → Total {p = p} (pure a)
  unfolding pure
  Total-pure a = record { returns = λ w. (a, refl) }

  pub Total-if : (b : Bool) (m n : Action p A) → Total m → Total n → Total (if b then m else n)
  Total-if true m n hm hn = hm
  Total-if false m n hm hn = hn

  -- Whatever the body does, if the handler is total.
  pub Total-try :
      (m : Action p A) (h : Error → Action p A)
      → ((e : Error) → Total (h e))
      → Total (try_except m h)
  unfolding try_except
  Total-try m h hh = record { returns = λ w. go (m w) }
    where
      go :
          (x : Result A × World p)
          → (a : A) × ((elim x.0 as (λ _. Result A × World p) [
            | ok a ↦ (ok a, x.1)
            | err e ↦ h e x.1
          ]).0
              ≡ ok a)
      go (ok a, w') = (a, refl)
      go (err e, w') = (hh e).returns w'

module _ {p : Platform} {A B : Type 0} where
  pub Total-bind :
      (m : Action p A) (f : A → Action p B) → Total m → ((a : A) → Total (f a)) → Total (m >>= f)
  unfolding ◌>>=◌
  Total-bind m f hm hf = record { returns = λ w. go (m w) (hm.returns w) }
    where
      go :
          (x : Result A × World p)
          → ((a : A) × (x.0 ≡ ok a))
          → (b : B) × ((bind_result x.0 f x.1).0 ≡ ok b)
      go (ok a, w') h = (hf a).returns w'
      go (err e, w') h = absurd (not_ok h.1)
        where
          not_ok : {e : Error} {a : A} → err e ≡ ok a → ⊥
          not_ok e = cc

module _ {p : Platform} where
  pub Total-get_log : Total {p = p} get_log
  unfolding get_log
  Total-get_log = record { returns = λ w. (w.log, refl) }

  pub Total-put_log : (log : AuditLog) → Total {p = p} (put_log log)
  unfolding put_log
  Total-put_log log = record { returns = λ w. (tt, refl) }

  pub Total-read_clock : Total {p = p} read_clock
  unfolding read_clock
  Total-read_clock = record { returns = λ w. (p.now w.ticks, refl) }

  pub Total-fresh_id : Total {p = p} fresh_id
  unfolding fresh_id
  Total-fresh_id = record { returns = λ w. (p.new_id w.ids, refl) }

  pub Total-dispatch : (a : Alert) → Total {p = p} (dispatch a)
  unfolding dispatch
  Total-dispatch a = record { returns = λ w. (tt, refl) }

  pub Total-sleep : (n : ℕ) → Total {p = p} (sleep n)
  unfolding sleep
  Total-sleep n = record { returns = λ w. (tt, refl) }

pub ruleset total_rules = (
  Total-pure, Total-if, Total-try, Total-bind, Total-get_log, Total-put_log, Total-read_clock,
  Total-fresh_id, Total-dispatch, Total-sleep,
)

-- No call of the client raises.
abbrev pub NoFault : Platform → Type 0
NoFault p = (n : ℕ) → p.fault n ≡ none

module _ {p : Platform} (sound : NoFault p) where
  pub Total-client : {A : Type 0} (f : Tables → A × Tables) → Total {p = p} (client f)
  unfolding client
  Total-client f = record { returns = λ w. ((f w.tables).0, rw (client, sound w.calls) refl) }

  write_out-Total : (es : List AuditEvent) → Total {p = p} (write_out p es)
  unfolding write_out
  write_out-Total [] = search total_rules
  write_out-Total (e ∷ es) = search (total_rules, Total-client)

  flush-Total : Total {p = p} (flush p)
  unfolding flush
  flush-Total = search (total_rules, write_out-Total)

  pub emit-Total :
      (event : EventType) (table_fqn : Option String) (payload : List (String × Field))
      (run_id : Option String) (flushes : Bool)
      → Total {p = p} (emit p event table_fqn payload run_id flushes)
  unfolding emit
  emit-Total event table_fqn payload run_id flushes = search (total_rules, flush-Total) depth 12

  or_now-Total : (given : Option ℕ) → Total {p = p} (or_now p given)
  or_now-Total none = search total_rules
  or_now-Total (some t) = search total_rules

  pub register_config-Total :
      (table_fqn env config_hash resolved_json : String) (config_sources : List String)
      (run_id : Option String) (seen_at : Option ℕ)
      → Total {p = p}
          (register_config p table_fqn env config_hash resolved_json config_sources run_id seen_at)
  unfolding register_config
  register_config-Total table_fqn env config_hash resolved_json config_sources run_id seen_at =
      search (total_rules, Total-client, or_now-Total)

  pub start_task-Total :
      (run_id table_fqn env mode write config_hash : String) (attempt : ℕ)
      (watermark_from : Option String) (started_at : Option ℕ)
      → Total {p = p} (
          start_task p run_id table_fqn env mode write config_hash attempt watermark_from
            started_at)
  unfolding start_task
  start_task-Total run_id table_fqn env mode write config_hash attempt watermark_from started_at =
      search (total_rules, Total-client, or_now-Total)
