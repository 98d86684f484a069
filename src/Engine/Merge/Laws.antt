-- ===== src/Engine/Merge/Laws.antt =====
-- What the update branch of the MERGE of engine/loader.py changes in a row.
use oracle_repo.Base.{
  refl, ap, ◌≡◌, subst, ◌∙◌, inl, inr, String, ◌==◌, eq_iff, eq_refl, Bool, true, false, not, ◌&&◌,
  ◌||◌, Bool-cases, List, [], ◌∷◌, filter, arith, if◌then◌else◌,
}
use oracle_repo.Base.Text.{upper}
use oracle_repo.Engine.Staging.{has_column}
use oracle_repo.Engine.Merge.{updatable, copied_columns}
use oracle_repo.Engine.Merge.Rows.{Row, named, updated}

-- A name that the test refuses is not among those that pass.
filtered_out :
    (q : String → Bool) (c : String) (names : List String)
    → q c ≡ false
    → named c (filter q names) ≡ false
filtered_out q c [] h = refl
filtered_out q c (n ∷ names) h = elim (Bool-cases (n == c)) [
  | inl t ↦ ground (arith, ap q ((eq_iff n c).0 t) ∙ h, filtered_out q c names h)
  | inr t ↦ ground (arith, t, filtered_out q c names h)
]

still_out :
    (r : String → Bool) (c : String) (names : List String)
    → named c names ≡ false
    → named c (filter r names) ≡ false
still_out r c [] h = refl
still_out r c (n ∷ names) h = ground (arith, h, still_out r c names)

still_in :
    (r : String → Bool) (c : String) (names : List String)
    → r c ≡ true
    → named c names ≡ true
    → named c (filter r names) ≡ true
still_in r c [] k h = h
still_in r c (n ∷ names) k h = elim (Bool-cases (n == c)) [
  | inl t ↦ ground (arith, t, ap r ((eq_iff n c).0 t) ∙ k)
  | inr t ↦ ground (arith, t, h, still_in r c names k)
]

has_named : (k : String) (keys : List String) → named k keys ≡ true → has_column k keys ≡ true
unfolding has_column
has_named k [] h = h
has_named k (n ∷ keys) h = elim (Bool-cases (n == k)) [
  | inl t ↦ rw ((eq_iff n k).0 t, eq_refl (upper k)) refl
  | inr t ↦ ground (arith, t, h, has_named k keys)
]

not_copied :
    (keys columns : List String) (c : String)
    → (has_column c keys || c == "_first_ingested_at") ≡ true
    → named c (copied_columns keys columns) ≡ false
unfolding copied_columns
not_copied keys columns c h =
    still_out (λ c. not (c == "_source_op")) c (updatable keys columns)
      (filtered_out (λ c. not (has_column c keys) && not (c == "_first_ingested_at")) c columns
        (ground (arith, h)))

is_copied :
    (keys columns : List String) (c : String)
    → (has_column c keys || c == "_first_ingested_at") ≡ false
    → (c == "_source_op") ≡ false
    → named c columns ≡ true
    → named c (copied_columns keys columns) ≡ true
unfolding copied_columns
is_copied keys columns c h k n =
    still_in (λ c. not (c == "_source_op")) c (updatable keys columns) (ground (arith, k))
      (still_in (λ c. not (has_column c keys) && not (c == "_first_ingested_at")) c columns
        (ground (arith, h)) n)

not_staged :
    (keys columns : List String) (c : String)
    → named c columns ≡ false
    → named c (copied_columns keys columns) ≡ false
unfolding copied_columns
not_staged keys columns c h =
    still_out (λ c. not (c == "_source_op")) c (updatable keys columns)
      (still_out (λ c. not (has_column c keys) && not (c == "_first_ingested_at")) c columns h)

copied_lem :
    (keys columns : List String) (c : String)
    → (c == "_source_op") ≡ false
    → named c (copied_columns keys columns)
      ≡ (named c columns && not (has_column c keys || c == "_first_ingested_at"))
copied_lem keys columns c k = elim (Bool-cases (named c columns)) [
  | inr n ↦ not_staged keys columns c n ∙ rw n refl
  | inl n ↦ elim (Bool-cases (has_column c keys || c == "_first_ingested_at")) [
    | inl h ↦ not_copied keys columns c h ∙ rw (n, h) refl
    | inr h ↦ is_copied keys columns c h k n ∙ rw (n, h) refl
  ]
]

-- An update leaves the keys, in any case of their letters, and `_first_ingested_at` as they were,
-- and takes every other column of the batch but `_source_op` from the staged row.
pub updated_lem :
    (keys columns : List String) (t s : Row) (c : String)
    → (c == "_source_op") ≡ false
    → updated keys columns t s c ≡ (
        if named c columns && not (has_column c keys || c == "_first_ingested_at")
        then s c
        else t c)
unfolding updated
updated_lem keys columns t s c k = rw (copied_lem keys columns c k) (ground (arith, k))

pub updated_key :
    (keys columns : List String) (t s : Row) (k : String)
    → named "_source_op" keys ≡ false
    → named k keys ≡ true
    → updated keys columns t s k ≡ t k
updated_key keys columns t s k o h =
    updated_lem keys columns t s k (is_other keys k o h) ∙ rw (has_named k keys h) (ground arith)
  where
    is_other :
        (keys : List String) (k : String)
        → named "_source_op" keys ≡ false
        → named k keys ≡ true
        → (k == "_source_op") ≡ false
    is_other [] k o h = cc
    is_other (n ∷ keys) k o h = elim (Bool-cases (n == k)) [
      | inl t ↦ subst (λ x. (x == "_source_op") ≡ false) ((eq_iff n k).0 t) (ground (arith, o))
      | inr t ↦ is_other keys k (ground (arith, o)) (ground (arith, t, h))
    ]
