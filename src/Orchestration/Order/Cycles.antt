-- ===== src/Orchestration/Order/Cycles.antt =====
-- The errors of `order_tables`: only for tables that wait for one another.
use oracle_repo.Base.{
  ℕ, zero, suc, ◌≤◌, ◌<◌, ◌≡◌, refl, sym, ap, ◌∙◌, inl, inr, String, ◌==◌, eq_iff, eq_refl, Bool,
  true, false, not, ◌&&◌, List, [], ◌∷◌, ◌++◌, map, any, all, filter, length, is_empty, All, arith,
  Bool-cases, subst, any-append,
}
use oracle_repo.RunSpec.{RunSpec, table_fqn}
use oracle_repo.Platform.{Result-cases, Error, err}
use oracle_repo.Orchestration.Order.{
  is_in, is_named, by_fqn, deps_of, is_ready, insert_by_name, sort_by_name, ready_specs, popped,
  rounds, depends_on_itself, order_known, order_tables,
}
use oracle_repo.Orchestration.Order.Laws.{times, is_named_iff, times-popped, length-popped}
use oracle_repo.Orchestration.Order.Levels.{times-ready_specs-le}

-- Each of the tables depends on one of them.
abbrev pub Waiting : List RunSpec → Type 0
Waiting specs = All (λ s. any (λ d. is_named d specs) s.table.depends_on ≡ true) specs

-- Tables of the batch, at least one, that wait for one another; a test chooses them.
pub record Stuck (known : List RunSpec) : Type 0 where
  pub test : RunSpec → Bool
  pub some_table : is_empty (filter test known) ≡ false
  pub waits : Waiting (filter test known)

is_named-head : (s : RunSpec) (xs : List RunSpec) → is_named (table_fqn s) (s ∷ xs) ≡ true
unfolding is_named
is_named-head s xs = ground (arith, eq_refl (table_fqn s))

-- A table with a dependency that is not done waits for one that is pending.
any-waiting :
    (known pending : List RunSpec) (done ds : List String)
    → ((d : String) → is_named d known ≡ true → is_in d done ≡ false → is_named d pending ≡ true)
    → all (λ d. is_in d done) (filter (λ d. is_named d known) ds) ≡ false
    → any (λ d. is_named d pending) ds ≡ true
any-waiting known pending done [] covered h = cc
any-waiting known pending done (d ∷ ds) covered h =
    ground (arith, covered d, any-waiting known pending done ds covered)

filter-filter :
    (q r : RunSpec → Bool) (xs : List RunSpec)
    → filter r (filter q xs) ≡ filter (λ x. q x && r x) xs
filter-filter q r [] = refl
filter-filter q r (x ∷ xs) = ground (arith, filter-filter q r xs)

module _ (P : RunSpec → Type 0) where
  All-none :
      (q : RunSpec → Bool) (xs : List RunSpec)
      → is_empty (filter q xs) ≡ true
      → ((s : RunSpec) → q s ≡ false → P s)
      → All P xs
  All-none q [] h f = tt
  All-none q (x ∷ xs) h f = elim (Bool-cases (q x)) [
    | inl good ↦ absurd (ground (arith, h, good))
    | inr bad ↦ (f x bad, All-none q xs (ground (arith, h, bad)) f)
  ]

is_empty-sort_by_name : (xs : List RunSpec) → is_empty (sort_by_name xs) ≡ is_empty xs
unfolding sort_by_name insert_by_name
is_empty-sort_by_name [] = refl
is_empty-sort_by_name (x ∷ xs) = go (sort_by_name xs)
  where
    go : (ys : List RunSpec) → is_empty (insert_by_name x ys) ≡ false
    go [] = refl
    go (y ∷ ys) = ground arith

-- Nothing is ready: every pending table waits for a pending table.
stuck-waits :
    (known : List RunSpec) (done : List String) (pending : List RunSpec)
    → ((d : String) → is_named d known ≡ true → is_in d done ≡ false → is_named d pending ≡ true)
    → is_empty (ready_specs known done pending) ≡ true
    → Waiting pending
unfolding ready_specs is_ready deps_of
stuck-waits known done pending covered h =
    All-none (λ s. any (λ d. is_named d pending) s.table.depends_on ≡ true) (is_ready known done)
      pending (sym (is_empty-sort_by_name (filter (is_ready known done) pending)) ∙ h)
      (λ s bad. any-waiting known pending done s.table.depends_on covered bad)

-- A known table is done or pending.
abbrev Covered : List RunSpec → List String → List RunSpec → Type 0
Covered known done pending =
    (d : String) → is_named d known ≡ true → is_in d done ≡ false → is_named d pending ≡ true

popped-Covered :
    (known : List RunSpec) (done names : List String) (pending : List RunSpec)
    → Covered known done pending
    → Covered known (names ++ done) (popped names pending)
popped-Covered known done names pending covered d named absent = ground (
  arith,
  covered d named,
  any-append (λ n. n == d) names done,
  absent,
  times-popped d names pending,
  is_named_iff d pending,
  is_named_iff d (popped names pending),
)

-- A round with a ready table makes the pending tables fewer.
popped-shorter :
    (known : List RunSpec) (done : List String) (pending : List RunSpec)
    → is_empty (ready_specs known done pending) ≡ false
    → length (popped (map table_fqn (ready_specs known done pending)) pending) < length pending
popped-shorter known done pending some_ready =
    go (ready_specs known done pending) some_ready (λ n. times-ready_specs-le n known done pending)
  where
    go :
        (ready : List RunSpec)
        → is_empty ready ≡ false
        → ((n : String) → times n ready ≤ times n pending)
        → length (popped (map table_fqn ready) pending) < length pending
    go [] e le = cc
    go (r ∷ ready) e le = ground (
      arith,
      length-popped (table_fqn r) (map table_fqn (r ∷ ready)) pending,
      le (table_fqn r),
      eq_refl (table_fqn r),
    )

rounds-nil-ok :
    (fuel : ℕ) (known : List RunSpec) (done : List String) (e : Error)
    → rounds fuel known done [] ≡ err e
    → ⊥
unfolding rounds
rounds-nil-ok zero known done e h = cc
rounds-nil-ok (suc fuel) known done e h = cc

-- A failing round that had a ready table failed later.
rounds-later :
    (fuel : ℕ) (known : List RunSpec) (done : List String) (s : RunSpec) (pending : List RunSpec)
    (e : Error)
    → rounds (suc fuel) known done (s ∷ pending) ≡ err e
    → is_empty (ready_specs known done (s ∷ pending)) ≡ false
    → rounds fuel known
        (map table_fqn (ready_specs known done (s ∷ pending)) ++ done)
        (popped (map table_fqn (ready_specs known done (s ∷ pending))) (s ∷ pending))
      ≡ err e
unfolding rounds
rounds-later fuel known done s pending e h some_ready =
    let names = map table_fqn (ready_specs known done (s ∷ pending)) in
    elim (Result-cases (rounds fuel known (names ++ done) (popped names (s ∷ pending)))) [
      | inl (rest, fine) ↦ absurd (ground (arith, h, some_ready, fine))
      | inr (x, failed) ↦ failed ∙ ground (arith, h, some_ready, failed)
    ]

rounds-Stuck :
    (fuel : ℕ) (known : List RunSpec) (done : List String) (pending : List RunSpec) (e : Error)
    (test : RunSpec → Bool)
    → pending ≡ filter test known
    → Covered known done pending
    → length pending ≤ fuel
    → rounds fuel known done pending ≡ err e
    → Stuck known
unfolding popped
rounds-Stuck fuel known done [] e test chosen covered enough h =
    absurd (rounds-nil-ok fuel known done e h)
rounds-Stuck zero known done (s ∷ pending) e test chosen covered enough h =
    absurd (omega (arith, enough))
rounds-Stuck (suc fuel) known done (s ∷ pending) e test chosen covered enough h =
    elim (Bool-cases (is_empty (ready_specs known done (s ∷ pending)))) [
      | inl none_ready ↦ record {
        test = test;
        some_table = subst (λ xs. is_empty xs ≡ false) chosen refl;
        waits = subst Waiting chosen (stuck-waits known done (s ∷ pending) covered none_ready);
      }
      | inr some_ready ↦
          let names = map table_fqn (ready_specs known done (s ∷ pending)) in
          rounds-Stuck fuel known (names ++ done) (popped names (s ∷ pending)) e
            (λ x. test x && not (is_in (table_fqn x) names)) (popped_chosen names)
            (popped-Covered known done names (s ∷ pending) covered)
            (omega (arith, enough, popped-shorter known done (s ∷ pending) some_ready))
            (rounds-later fuel known done s pending e h some_ready)
    ]
  where
    popped_chosen :
        (names : List String)
        → popped names (s ∷ pending) ≡ filter (λ x. test x && not (is_in (table_fqn x) names)) known
    popped_chosen names =
        ap (popped names) chosen ∙ filter-filter test (λ x. not (is_in (table_fqn x) names)) known

is_empty-filter : (q : RunSpec → Bool) (xs : List RunSpec) → is_empty (filter q xs) ≡ not (any q xs)
is_empty-filter q [] = refl
is_empty-filter q (x ∷ xs) = ground (arith, is_empty-filter q xs)

any-found :
    (f g : String → Bool) (ds : List String) (name : String)
    → is_in name (filter g ds) ≡ true
    → f name ≡ true
    → any f ds ≡ true
any-found f g [] name h k = cc
any-found f g (d ∷ ds) name h k = elim (Bool-cases (d == name)) [
  | inl same ↦ let path : d ≡ name = ground (arith, eq_iff d name) in rw (path, k) refl
  | inr apart ↦ ground (arith, h, apart, any-found f g ds name)
]

module _ (known : List RunSpec) where
  -- Tables that depend on themselves wait for themselves.
  self-waits :
      (chosen xs : List RunSpec)
      → ((name : String)
          → is_named name (filter (depends_on_itself known) xs) ≡ true
          → is_named name chosen ≡ true)
      → All
          (λ s. any (λ d. is_named d chosen) s.table.depends_on ≡ true)
          (filter (depends_on_itself known) xs)
  unfolding depends_on_itself deps_of is_named
  self-waits chosen [] within = tt
  self-waits chosen (x ∷ xs) within = elim (Bool-cases (depends_on_itself known x)) [
    | inl itself ↦ rw itself (
      any-found (λ d. is_named d chosen) (λ d. is_named d known) x.table.depends_on (table_fqn x)
          itself (within (table_fqn x) (ground (arith, itself, eq_refl (table_fqn x)))),
      self-waits chosen xs (λ name h. within name (ground (arith, itself, h))),
    )
    | inr other ↦ rw other (self-waits chosen xs (λ name h. within name (ground (arith, other, h))))
  ]

  order_known-Stuck : (e : Error) → order_known known ≡ err e → Stuck known
  unfolding order_known
  order_known-Stuck e h = elim (Bool-cases (any (depends_on_itself known) known)) [
    | inl itself ↦ record {
      test = depends_on_itself known;
      some_table = is_empty-filter (depends_on_itself known) known ∙ ap not itself;
      waits = self-waits (filter (depends_on_itself known) known) known (λ name h. h);
    }
    | inr apart ↦
        rounds-Stuck (length known) known [] known e (λ s. true) (all_chosen known)
          (λ d named absent. named) (omega arith) (ground (arith, h, apart))
  ]
    where
      all_chosen : (xs : List RunSpec) → xs ≡ filter (λ s. true) xs
      all_chosen [] = refl
      all_chosen (x ∷ xs) = ap (λ ys. x ∷ ys) (all_chosen xs)

-- `order_tables` raises only for tables that wait for one another: some of the batch's tables, at
-- least one, each of which depends on one of them. It never runs out of rounds.
pub order_tables-Stuck :
    (specs : List RunSpec) (e : Error) → order_tables specs ≡ err e → Stuck (by_fqn specs)
unfolding order_tables
order_tables-Stuck specs e h = order_known-Stuck (by_fqn specs) e h
