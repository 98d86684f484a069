-- ===== src/Engine/Checks/Laws.antt =====
-- When the row counts of a batch are reconciled, and when a report is ok.
use oracle_repo.Base.{ℕ, ◌+◌, ◌≡◌, refl, Option, none, some, eqb, arith, if◌then◌else◌}
use oracle_repo.Base.Int.{pos, ◌-ℤ◌, is_zero}
use oracle_repo.Engine.Checks.{
  passed, failed, skipped, or_zero, reconcile_row_count, compare_counts, counts_unavailable,
}

-- The delta of the counts, over the sums.
delta_lem :
    (written source duplicates : ℕ)
    → is_zero (pos written -ℤ (pos source -ℤ pos duplicates)) ≡ eqb (written + duplicates) source
delta_lem written source duplicates = ground arith

-- The row counts pass when the written and the deduplicated rows make up the source's, fail when
-- they do not, and are skipped when the source's or the written count is unknown. Duplicates that
-- are unknown count as none.
pub reconcile_row_count_lem :
    (source duplicates written : Option ℕ)
    → (reconcile_row_count source duplicates written).status ≡ (elim source [
      | none ↦ skipped
      | some s ↦ elim written [
        | none ↦ skipped
        | some n ↦ if eqb (n + or_zero duplicates) s then passed else failed
      ]
    ])
unfolding reconcile_row_count compare_counts counts_unavailable
reconcile_row_count_lem none duplicates written = refl
reconcile_row_count_lem (some s) duplicates none = refl
reconcile_row_count_lem (some s) duplicates (some n) = rw (delta_lem n s (or_zero duplicates)) refl
