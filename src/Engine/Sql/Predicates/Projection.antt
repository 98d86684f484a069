-- ===== src/Engine/Sql/Predicates/Projection.antt =====
-- Which columns and which tests an extract has.
use oracle_repo.Base.{
  refl, subst, ◌≡◌, String, ◌==◌, Bool, true, not, ◌||◌, List, [], ◌∷◌, ◌++◌, all, any, arith,
}
use oracle_repo.Base.Text.{upper}
use oracle_repo.RunSpec.{RunSpec, listed}
use oracle_repo.Platform.{and_then_ok, ok-injective, ok}
use oracle_repo.Engine.Sql.Predicates.{
  identifiers, without, kept_columns, named_columns, scn_columns, build_projection,
}

-- Whether a column is named by `exclude_columns`, in any case of its letters.
abbrev pub is_excluded : List String → String → Bool
is_excluded excluded c = any (λ x. upper x == upper c) excluded

-- The pseudo-column of an SCN extract, or a column that is not excluded.
abbrev pub may_stand : List String → String → Bool
may_stand excluded c = (c == "ORA_ROWSCN AS ORA_ROWSCN") || not (is_excluded excluded c)

without_lem : (ex cs : List String) → all (may_stand ex) (without ex cs) ≡ true
unfolding without
without_lem ex [] = refl
without_lem ex (c ∷ cs) = ground (arith, without_lem ex cs)

none_excluded : (cs : List String) → all (may_stand []) cs ≡ true
none_excluded [] = refl
none_excluded (c ∷ cs) = ground (arith, none_excluded cs)

all-append :
    (p : String → Bool) (xs ys : List String)
    → all p xs ≡ true
    → all p ys ≡ true
    → all p (xs ++ ys) ≡ true
all-append p [] ys h k = k
all-append p (x ∷ xs) ys h k = ground (arith, h, k, all-append p xs ys)

kept_lem :
    (ex cs kept : List String) → kept_columns ex cs ≡ ok kept → all (may_stand ex) kept ≡ true
unfolding kept_columns
kept_lem [] cs kept h = ground (arith, h, none_excluded kept)
kept_lem (e ∷ ex) cs kept h = ground (arith, h, without_lem (e ∷ ex) cs)

scn_lem :
    (spec : RunSpec) (ex : List String) → all (may_stand ex) (scn_columns spec.extraction) ≡ true
unfolding scn_columns
scn_lem spec ex = ground arith

-- With a list of columns, no column that exclude_columns names is projected.
pub build_projection_excludes :
    (spec : RunSpec) (names columns : List String)
    → spec.extraction.columns ≡ listed names
    → build_projection spec ≡ ok columns
    → all (may_stand spec.extraction.exclude_columns) columns ≡ true
unfolding build_projection named_columns
build_projection_excludes spec names columns h k =
    let (named, a, b) = and_then_ok _ _ columns k in
    let (cs, c, d) =
      and_then_ok (identifiers names) (kept_columns spec.extraction.exclude_columns) named
        (subst (λ x. named_columns spec.extraction x ≡ ok named) h a) in
    subst (λ x. all (may_stand spec.extraction.exclude_columns) x ≡ true) (ok-injective b)
      (all-append (may_stand spec.extraction.exclude_columns) named (scn_columns spec.extraction)
        (kept_lem spec.extraction.exclude_columns cs named d)
        (scn_lem spec spec.extraction.exclude_columns))
