-- ===== src/Orchestration/Batch/Runs.antt =====
-- Which actions leave the table of runs alone, and what others leave in it.
use oracle_repo.Base.{◌≡◌, refl, sym, subst, ◌∙◌, String, Bool, Option, List, [], ◌∷◌}
use oracle_repo.Platform.{Platform, Error, Result, ok, err}
use oracle_repo.Control.Tables.{Tables, RunRow, EventType, Field, AuditEvent}
use oracle_repo.Control.World.{World, Action, try_except, client, ◌>>=◌, bind_result}
use oracle_repo.Control.Effects.{Preorder, Steps, steps_rules, Steps-client}
use oracle_repo.Control.Total.{Total, NoFault}
use oracle_repo.Control.Audit.{write_out, flush, emit}

-- The runs are as they were.
abbrev pub SameRuns : Tables → Tables → Type 0
SameRuns t u = u.runs ≡ t.runs

pub SameRuns-Preorder : Preorder SameRuns
SameRuns-Preorder = record { stay = λ t. refl; trans = λ t u v h k. k ∙ h }

module _ {p : Platform} where
  elsewhere :
      {A : Type 0} (f : Tables → A × Tables)
      → ((t : Tables) → (f t).1.runs ≡ t.runs)
      → Steps {p = p} SameRuns (client f)
  elsewhere f h = Steps-client SameRuns-Preorder f h

  write_out-SameRuns : (es : List AuditEvent) → Steps {p = p} SameRuns (write_out p es)
  unfolding write_out
  write_out-SameRuns [] = search (SameRuns-Preorder, steps_rules)
  write_out-SameRuns (e ∷ es) = search (SameRuns-Preorder, steps_rules, elsewhere)

  flush-SameRuns : Steps {p = p} SameRuns (flush p)
  unfolding flush
  flush-SameRuns = search (SameRuns-Preorder, steps_rules, write_out-SameRuns)

  pub emit-SameRuns :
      (event : EventType) (table_fqn : Option String) (payload : List (String × Field))
      (run_id : Option String) (flushes : Bool)
      → Steps {p = p} SameRuns (emit p event table_fqn payload run_id flushes)
  unfolding emit
  emit-SameRuns event table_fqn payload run_id flushes =
      search (SameRuns-Preorder, steps_rules, flush-SameRuns) depth 12

-- `m` leaves the runs such that `Q`, whether it returns or raises.
pub record Leaves {p : Platform} {A : Type 0} (Q : List RunRow → Type 0) (m : Action p A)
    : Type 0 where
  pub leaves : (w : World p) → Q (m w).1.tables.runs

module _ {p : Platform} {A B : Type 0} (Q : List RunRow → Type 0) where
  -- What comes after does not touch the runs.
  pub Leaves-first :
      (m : Action p A) (f : A → Action p B)
      → Leaves Q m
      → ((a : A) → Steps SameRuns (f a))
      → Leaves Q (m >>= f)
  unfolding ◌>>=◌
  Leaves-first m f hm hf = record { leaves = λ w. go (m w) (hm.leaves w) }
    where
      go : (x : Result A × World p) → Q x.1.tables.runs → Q (bind_result x.0 f x.1).1.tables.runs
      go (ok a, w') h = subst Q (sym ((hf a).along w')) h
      go (err e, w') h = h

  -- What comes before always returns.
  pub Leaves-then :
      (m : Action p A) (f : A → Action p B)
      → Total m
      → ((w : World p) (a : A) → (m w).0 ≡ ok a → Leaves Q (f a))
      → Leaves Q (m >>= f)
  unfolding ◌>>=◌
  Leaves-then m f hm hf = record { leaves = λ w. go (m w) (hm.returns w) (hf w) }
    where
      go :
          (x : Result A × World p)
          → ((a : A) × (x.0 ≡ ok a))
          → ((a : A) → x.0 ≡ ok a → Leaves Q (f a))
          → Q (bind_result x.0 f x.1).1.tables.runs
      go (ok a, w') h k = (k a refl).leaves w'
      go (err e, w') h k = absurd (not_ok h.1)
        where
          not_ok : {e : Error} {a : A} → err e ≡ ok a → ⊥
          not_ok e = cc

module _ {p : Platform} {A : Type 0} (Q : List RunRow → Type 0) where
  pub Leaves-try :
      (m : Action p A) (h : Error → Action p A)
      → Leaves Q m
      → ((e : Error) → Steps SameRuns (h e))
      → Leaves Q (try_except m h)
  unfolding try_except
  Leaves-try m h hm hh = record { leaves = λ w. go (m w) (hm.leaves w) }
    where
      go :
          (x : Result A × World p)
          → Q x.1.tables.runs
          → Q
              (elim x.0 as (λ _. Result A × World p) [
                | ok a ↦ (ok a, x.1)
                | err e ↦ h e x.1
              ]).1.tables.runs
      go (ok a, w') k = k
      go (err e, w') k = subst Q (sym ((hh e).along w')) k

  pub Leaves-client :
      (sound : NoFault p) (f : Tables → A × Tables)
      → ((t : Tables) → Q (f t).1.runs)
      → Leaves {p = p} Q (client f)
  unfolding client
  Leaves-client sound f h = record { leaves = λ w. rw (client, sound w.calls) (h w.tables) }
