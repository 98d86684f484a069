-- ===== src/Control/Store/Attempts.antt =====
-- The numbers that `next_attempt` gives.
use Prim.Native.Nat.{max}
use oracle_repo.Base.{
  ℕ, ◌≤◌, ◌≡◌, refl, ap, String, Bool, false, ◌&&◌, List, [], ◌∷◌, filter, any, leb, arith,
  Bool-cases, Option-cases, inl, inr,
}
use oracle_repo.Platform.{Platform, ok}
use oracle_repo.Control.Tables.{TaskRow}
use oracle_repo.Control.World.{World, client}
use oracle_repo.Control.Total.{NoFault}
use oracle_repo.Control.Store.Tasks.{of_table, max_attempt, after_attempt, next_attempt}

max-bounds : (a b : ℕ) → (a ≤ max a b) × (b ≤ max a b)
max-bounds a b = (omega arith, omega arith)

-- No row that the test chooses reaches a number above the largest.
none_above :
    (test : TaskRow → Bool) (rows : List TaskRow) (n : ℕ)
    → after_attempt (max_attempt (filter test rows)) ≤ n
    → any (λ r. test r && leb n r.attempt) rows ≡ false
unfolding max_attempt after_attempt
none_above test [] n h = refl
none_above test (row ∷ rows) n h = elim (Bool-cases (test row)) [
  | inl chosen ↦ elim (Option-cases (max_attempt (filter test rows))) [
    | inl e ↦ ground (arith, h, chosen, e, none_above test rows n)
    | inr (m, e) ↦ ground (
      arith,
      h,
      chosen,
      e,
      none_above test rows n,
      (max-bounds row.attempt m).0,
      (max-bounds row.attempt m).1,
    )
  ]
  | inr other ↦ ground (arith, h, other, none_above test rows n)
]

filter-none :
    (test : TaskRow → Bool) (rows : List TaskRow) → any test rows ≡ false → filter test rows ≡ []
filter-none test [] h = refl
filter-none test (row ∷ rows) h = ground (arith, h, filter-none test rows)

-- `next_attempt` returns a number that no attempt at the table in the run has reached, when the
-- client raises nothing, and it is 1 when there is none.
pub next_attempt_lem :
    {p : Platform} (sound : NoFault p) (run_id table_fqn : String) (w : World p)
    → (n : ℕ) × ((next_attempt p run_id table_fqn w).0 ≡ ok n)
      × (any (λ r. of_table run_id table_fqn r && leb n r.attempt) w.tables.tasks ≡ false)
      × (any (of_table run_id table_fqn) w.tables.tasks ≡ false → n ≡ 1)
unfolding next_attempt client max_attempt after_attempt
next_attempt_lem {p} sound run_id table_fqn w =
    let chosen = filter (of_table run_id table_fqn) w.tables.tasks in
    (
      after_attempt (max_attempt chosen),
      rw (client, sound w.calls) refl,
      none_above (of_table run_id table_fqn) w.tables.tasks _ (omega arith),
      λ none_yet.
          ap (λ xs. after_attempt (max_attempt xs))
            (filter-none (of_table run_id table_fqn) w.tables.tasks none_yet),
    )
