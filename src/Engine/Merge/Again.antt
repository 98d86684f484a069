-- ===== src/Engine/Merge/Again.antt =====
-- The MERGE of engine/loader.py, run a second time with the same batch.
use oracle_repo.Base.{
  refl, sym, suc, all-append, all-filter, filter-cong, ap, ◌≡◌, ◌∙◌, inl, inr, String, eq_refl,
  Bool, true, false, not, Bool-cases, In, In-any, In-all, In-filter, filter-none, Option, List, [],
  ◌∷◌, ◌++◌, filter, any, all, length, length-append, any-append, arith, if◌then◌else◌,
}
use oracle_repo.RunSpec.{Value, RunSpec}
use oracle_repo.Platform.{ok, and_then_ok, then_ok, ok-injective}
use oracle_repo.Engine.Staging.{normalize_columns}
use oracle_repo.Engine.Merge.{merge_guard_column}
use oracle_repo.Engine.Merge.Rows.{
  Row, named, updated, matches, may_update, merged_row, merged_rows, unmatched, merge_rows,
}
use oracle_repo.Engine.Merge.Laws.{updated_key}

abbrev pub at_most_one : List Row → Bool
at_most_one [] = true
at_most_one (s ∷ []) = true
at_most_one (s ∷ u ∷ rest) = false

module _ (same at_least : Value → Value → Bool) where
  updated_or_kept_key :
      (keys columns : List String) (t s : Row) (b : Bool) (k : String)
      → named "_source_op" keys ≡ false
      → named k keys ≡ true
      → (if b then updated keys columns t s else t) k ≡ t k
  updated_or_kept_key keys columns t s true k o h = updated_key keys columns t s k o h
  updated_or_kept_key keys columns t s false k o h = refl

  same_keys :
      (t u s : Row) (ks : List String)
      → ((k : String) → named k ks ≡ true → t k ≡ u k)
      → matches same at_least ks t s ≡ matches same at_least ks u s
  same_keys t u s [] h = refl
  same_keys t u s (k ∷ ks) h =
      rw (h k (ground (arith, eq_refl k)), same_keys t u s ks (λ j n. h j (ground (arith, n)))) refl

  -- Whether the ON clause finds at most one staged row for a row of the target.
  abbrev pub single : List String → List Row → Row → Bool
  single keys staged t = at_most_one (filter (matches same at_least keys t) staged)

  same_single :
      (keys : List String) (staged : List Row) (t u : Row)
      → ((k : String) → named k keys ≡ true → t k ≡ u k)
      → single keys staged t ≡ single keys staged u
  same_single keys staged t u h = ap at_most_one (
      filter-cong (matches same at_least keys t) (matches same at_least keys u) staged
        (λ s. same_keys t u s keys h))

  -- A row that the statement leaves has the keys that it had, and has one match at most.
  merged_row_keys :
      (guard : Option String) (keys columns : List String) (t r : Row) (found : List Row)
      → named "_source_op" keys ≡ false
      → merged_row same at_least guard keys columns t found ≡ ok r
      → ((k : String) → named k keys ≡ true → r k ≡ t k) × (at_most_one found ≡ true)
  unfolding merged_row
  merged_row_keys guard keys columns t r [] o e =
      (λ k h. ap (λ x. x k) (sym (ok-injective e)), refl)
  merged_row_keys guard keys columns t r (s ∷ []) o e = (
    λ k h.
        ap (λ x. x k) (sym (ok-injective e))
        ∙ updated_or_kept_key keys columns t s (may_update same at_least guard t s) k o h,
    refl,
  )
  merged_row_keys guard keys columns t r (s ∷ u ∷ rest) o e = cc

  merged_row_returns :
      (guard : Option String) (keys columns : List String) (t : Row) (found : List Row)
      → at_most_one found ≡ true
      → (r : Row) × (merged_row same at_least guard keys columns t found ≡ ok r)
  unfolding merged_row
  merged_row_returns guard keys columns t [] h = (_, refl)
  merged_row_returns guard keys columns t (s ∷ []) h = (_, refl)
  merged_row_returns guard keys columns t (s ∷ u ∷ rest) h = cc

  -- The rows of the target after the statement match what they matched before.
  merged_rows_keys :
      (guard : Option String) (keys columns : List String) (staged target rows : List Row)
      → named "_source_op" keys ≡ false
      → merged_rows same at_least guard keys columns staged target ≡ ok rows
      → ((s : Row)
          → any (λ t. matches same at_least keys t s) rows
            ≡ any (λ t. matches same at_least keys t s) target)
        × (all (single keys staged) rows ≡ true)
  unfolding merged_rows
  merged_rows_keys guard keys columns staged [] rows o e = (
    λ s. ap (any (λ t. matches same at_least keys t s)) (sym (ok-injective e)),
    ap (all (single keys staged)) (sym (ok-injective e)),
  )
  merged_rows_keys guard keys columns staged (t ∷ target) rows o e =
      let (r, a, e1) =
        and_then_ok
          (merged_row same at_least guard keys columns t
            (filter (matches same at_least keys t) staged))
          _ rows e in
      let (rs, b, e2) =
        and_then_ok (merged_rows same at_least guard keys columns staged target) (λ rs. ok (r ∷ rs))
          rows e1 in
      let (kept, one) = merged_row_keys guard keys columns t r _ o a in
      let (later, ones) = merged_rows_keys guard keys columns staged target rs o b in
      let made : (r ∷ rs) ≡ rows = ok-injective e2 in
      (
        λ s.
            ap (any (λ t. matches same at_least keys t s)) (sym made)
            ∙ rw (same_keys r t s keys kept, later s) refl,
        ap (all (single keys staged)) (sym made)
            ∙ rw (same_single keys staged r t kept, one, ones) refl,
      )

  merged_rows_return :
      (guard : Option String) (keys columns : List String) (staged target : List Row)
      → all (single keys staged) target ≡ true
      → (rows : List Row) × (merged_rows same at_least guard keys columns staged target ≡ ok rows)
        × (length rows ≡ length target)
  unfolding merged_rows
  merged_rows_return guard keys columns staged [] h = ([], refl, refl)
  merged_rows_return guard keys columns staged (t ∷ target) h =
      let (r, a) =
        merged_row_returns guard keys columns t (filter (matches same at_least keys t) staged)
          (ground (arith, h)) in
      let (rs, b, n) = merged_rows_return guard keys columns staged target (ground (arith, h)) in
      (r ∷ rs, then_ok _ a (then_ok _ b refl), ap suc n)

  -- Once the batch has been merged, each of its rows finds a row in the target.
  found :
      (keys : List String) (staged target rows : List Row) (s : Row)
      → any (λ t. matches same at_least keys t s) rows
        ≡ any (λ t. matches same at_least keys t s) target
      → In s staged
      → matches same at_least keys s s ≡ true
      → any
          (λ t. matches same at_least keys t s)
          (rows ++ unmatched same at_least keys target staged)
        ≡ true
  found keys staged target rows s same_any i h =
      any-append (λ t. matches same at_least keys t s) rows
        (unmatched same at_least keys target staged)
      ∙ elim (Bool-cases (any (λ t. matches same at_least keys t s) target)) [
        | inl e ↦ rw (same_any, e) refl
        | inr e ↦ ground (
          arith,
          In-any (λ t. matches same at_least keys t s)
              (In-filter (λ s. not (any (λ t. matches same at_least keys t s) target)) i
                (ground (arith, e)))
              h,
        )
      ]

  -- When the merge of a batch has returned, merging the batch into the result returns too and adds
  -- no row, where each staged row matches itself on the merge keys, so that none of them is NULL,
  -- no staged row matches two of the batch, and _source_op is not a key.
  pub merge_rows_again :
      (spec : RunSpec) (columns : List String) (staged target once : List Row)
      → named "_source_op" (normalize_columns spec.target.merge_keys spec.target.column_case)
        ≡ false
      → all
          (λ s.
            matches same at_least
              (normalize_columns spec.target.merge_keys spec.target.column_case)
              s
              s)
          staged
        ≡ true
      → all
          (single (normalize_columns spec.target.merge_keys spec.target.column_case) staged)
          staged
        ≡ true
      → merge_rows same at_least spec columns staged target ≡ ok once
      → (again : List Row) × (merge_rows same at_least spec columns staged once ≡ ok again)
        × (length again ≡ length once)
  unfolding merge_rows
  merge_rows_again spec columns staged target once o h distinct e =
      let keys = normalize_columns spec.target.merge_keys spec.target.column_case in
      let guard = merge_guard_column spec in
      let new = unmatched same at_least keys target staged in
      let (rows, a, e1) =
        and_then_ok (merged_rows same at_least guard keys columns staged target)
          (λ rows. ok (rows ++ new)) once e in
      let made : (rows ++ new) ≡ once = ok-injective e1 in
      let (same_any, ones) = merged_rows_keys guard keys columns staged target rows o a in
      let every : all (single keys staged) once ≡ true =
        ap (all (single keys staged)) (sym made)
        ∙ all-append (single keys staged) rows new
        ∙ rw (ones, all-filter (single keys staged) _ staged distinct) refl in
      let (again, b, n) = merged_rows_return guard keys columns staged once every in
      let none_new : unmatched same at_least keys once staged ≡ [] =
        filter-none (λ s. not (any (λ t. matches same at_least keys t s) once)) staged
          (λ s i. ap not (
            ap (any (λ t. matches same at_least keys t s)) (sym made)
            ∙ found keys staged target rows s (same_any s) i
                (In-all (λ s. matches same at_least keys s s) i h))) in
      (
        again ++ unmatched same at_least keys once staged,
        then_ok _ b refl,
        length-append again (unmatched same at_least keys once staged)
            ∙ rw none_new (ground (arith, n)),
      )
