-- ===== src/Orchestration/Order/Laws.antt =====
-- What `order_tables` guarantees of its levels, and of its errors.
use oracle_repo.Base.{
  ℕ, suc, ◌+◌, ◌≤◌, ◌≡◌, refl, ◌⊎◌, inl, inr, String, ◌==◌, eq_iff, eq_refl, Bool, true, false,
  ◌||◌, List, [], ◌∷◌, ◌++◌, map, filter, length, arith, Bool-cases, if◌then◌else◌,
}
use oracle_repo.RunSpec.{RunSpec, table_fqn}
use oracle_repo.Orchestration.Order.{
  is_in, is_named, put_spec, put_all, by_fqn, insert_by_name, sort_by_name, popped,
}

-- How many of the specs have the name.
abbrev pub times : String → List RunSpec → ℕ
times name [] = 0
times name (s ∷ specs) =
    let rest = times name specs in if table_fqn s == name then suc rest else rest

-- All the levels, one after another.
abbrev pub flat : List (List RunSpec) → List RunSpec
flat [] = []
flat (level ∷ levels) = level ++ flat levels

pub times-append :
    (name : String) (xs ys : List RunSpec) → times name (xs ++ ys) ≡ times name xs + times name ys
times-append name [] ys = omega arith
times-append name (x ∷ xs) ys = ground (arith, times-append name xs ys)

pub times-filter-le :
    (name : String) (q : RunSpec → Bool) (xs : List RunSpec)
    → times name (filter q xs) ≤ times name xs
times-filter-le name q [] = omega arith
times-filter-le name q (x ∷ xs) = ground (arith, times-filter-le name q xs)

times-insert_by_name :
    (name : String) (s : RunSpec) (xs : List RunSpec)
    → times name (insert_by_name s xs) ≡ times name (s ∷ xs)
unfolding insert_by_name
times-insert_by_name name s [] = refl
times-insert_by_name name s (x ∷ xs) = ground (arith, times-insert_by_name name s xs)

pub times-sort_by_name :
    (name : String) (xs : List RunSpec) → times name (sort_by_name xs) ≡ times name xs
unfolding sort_by_name
times-sort_by_name name [] = refl
times-sort_by_name name (x ∷ xs) =
    ground (arith, times-insert_by_name name x (sort_by_name xs), times-sort_by_name name xs)

-- A name occurs when it is found.
pub is_named_iff :
    (name : String) (xs : List RunSpec)
    → ((is_named name xs ≡ true) × (1 ≤ times name xs))
      ⊎ ((is_named name xs ≡ false) × (times name xs ≡ 0))
unfolding is_named
is_named_iff name [] = inr (refl, refl)
is_named_iff name (x ∷ xs) = ground (arith, is_named_iff name xs)

pub is_in-names :
    (name : String) (xs : List RunSpec) → is_in name (map table_fqn xs) ≡ is_named name xs
unfolding is_named
is_in-names name [] = refl
is_in-names name (x ∷ xs) = ground (arith, is_in-names name xs)

pub times-popped :
    (name : String) (names : List String) (xs : List RunSpec)
    → times name (popped names xs) ≡ (if is_in name names then 0 else times name xs)
unfolding popped
times-popped name names [] = ground arith
times-popped name names (x ∷ xs) = elim (Bool-cases (table_fqn x == name)) [
  | inl same ↦
      let path : table_fqn x ≡ name = ground (arith, eq_iff (table_fqn x) name) in
      rw path (ground (arith, times-popped name names xs, eq_refl name))
  | inr apart ↦ ground (arith, times-popped name names xs)
]

pub length-popped :
    (name : String) (names : List String) (xs : List RunSpec)
    → is_in name names ≡ true
    → length (popped names xs) + times name xs ≤ length xs
unfolding popped
length-popped name names [] h = omega arith
length-popped name names (x ∷ xs) h = elim (Bool-cases (table_fqn x == name)) [
  | inl same ↦
      let path : table_fqn x ≡ name = ground (arith, eq_iff (table_fqn x) name) in
      rw path (ground (arith, length-popped name names xs h, eq_refl name))
  | inr apart ↦ ground (arith, length-popped name names xs h)
]

times-put_spec :
    (name : String) (s : RunSpec) (xs : List RunSpec)
    → times name (put_spec s xs)
      ≡ (if is_named (table_fqn s) xs then times name xs else times name (s ∷ xs))
unfolding put_spec is_named
times-put_spec name s [] = refl
times-put_spec name s (x ∷ xs) = elim (Bool-cases (table_fqn x == table_fqn s)) [
  | inl same ↦
      let path : table_fqn x ≡ table_fqn s = ground (arith, eq_iff (table_fqn x) (table_fqn s)) in
      rw path (ground (arith, eq_refl (table_fqn s)))
  | inr apart ↦ ground (arith, times-put_spec name s xs)
]

-- No name twice.
abbrev pub Once : List RunSpec → Type 0
Once table = (n : String) → times n table ≤ 1

put_spec-Once : (s : RunSpec) (table : List RunSpec) → Once table → Once (put_spec s table)
put_spec-Once s table once n = ground (
  arith,
  times-put_spec n s table,
  once n,
  is_named_iff n table,
  is_named_iff (table_fqn s) table,
  eq_iff (table_fqn s) n,
)

is_named-put_spec :
    (name : String) (s : RunSpec) (table : List RunSpec)
    → is_named name (put_spec s table) ≡ (table_fqn s == name || is_named name table)
is_named-put_spec name s table = ground (
  arith,
  times-put_spec name s table,
  is_named_iff name table,
  is_named_iff name (put_spec s table),
  is_named_iff (table_fqn s) table,
  eq_iff (table_fqn s) name,
)

put_all-Once : (specs table : List RunSpec) → Once table → Once (put_all specs table)
unfolding put_all
put_all-Once [] table once = once
put_all-Once (s ∷ specs) table once =
    put_all-Once specs (put_spec s table) (put_spec-Once s table once)

is_named-put_all :
    (name : String) (specs table : List RunSpec)
    → is_named name (put_all specs table) ≡ (is_named name specs || is_named name table)
unfolding put_all is_named
is_named-put_all name [] table = refl
is_named-put_all name (s ∷ specs) table =
    ground (arith, is_named-put_all name specs (put_spec s table), is_named-put_spec name s table)

pub is_named-by_fqn :
    (name : String) (specs : List RunSpec) → is_named name (by_fqn specs) ≡ is_named name specs
unfolding by_fqn is_named
is_named-by_fqn name specs = ground (arith, is_named-put_all name specs [])

pub by_fqn-Once : (specs : List RunSpec) → Once (by_fqn specs)
unfolding by_fqn
by_fqn-Once specs = put_all-Once specs [] (λ n. omega arith)

-- The dict has each name of the batch once, and no other.
pub times-by_fqn :
    (name : String) (specs : List RunSpec)
    → times name (by_fqn specs) ≡ (if is_named name specs then 1 else 0)
unfolding by_fqn is_named
times-by_fqn name specs =
    ground
      (arith, by_fqn-Once specs name, is_named-by_fqn name specs, is_named_iff name (by_fqn specs))
