-- ===== src/Orchestration/Order/Levels.antt =====
-- The levels of `order_tables`: every table once, after what it depends on.
use oracle_repo.Base.{
  ℕ, zero, suc, ◌+◌, ◌≤◌, ◌≡◌, refl, sym, ap, ◌∙◌, inl, inr, String, ◌==◌, eq_iff, Bool, true, List,
  [], ◌∷◌, ◌++◌, map, all, filter, length, All, arith, Bool-cases, if◌then◌else◌, subst,
}
use oracle_repo.RunSpec.{RunSpec, table_fqn}
use oracle_repo.Platform.{Result-cases, ok}
use oracle_repo.Orchestration.Order.{
  is_in, is_named, by_fqn, deps_of, is_ready, insert_by_name, sort_by_name, ready_specs, popped,
  rounds, order_known, order_tables,
}
use oracle_repo.Orchestration.Order.Laws.{
  times, flat, Once, times-append, times-filter-le, times-sort_by_name, is_named_iff, is_in-names,
  times-popped, by_fqn-Once, times-by_fqn, is_named-by_fqn,
}

-- One round that went well, and the rest.
record Round (fuel : ℕ) (known : List RunSpec) (done : List String) (pending : List RunSpec)
    (levels : List (List RunSpec)) : Type 0 where
  rest : List (List RunSpec)
  split : levels ≡ ready_specs known done pending ∷ rest
  next :
      rounds fuel known
        (map table_fqn (ready_specs known done pending) ++ done)
        (popped (map table_fqn (ready_specs known done pending)) pending)
      ≡ ok rest

rounds-Round :
    (fuel : ℕ) (known : List RunSpec) (done : List String) (s : RunSpec) (pending : List RunSpec)
    (levels : List (List RunSpec))
    → rounds (suc fuel) known done (s ∷ pending) ≡ ok levels
    → Round fuel known done (s ∷ pending) levels
unfolding rounds
rounds-Round fuel known done s pending levels h =
    let ready = ready_specs known done (s ∷ pending) in
    elim (Result-cases (
      rounds fuel known (map table_fqn ready ++ done)
        (popped (map table_fqn ready) (s ∷ pending)))) [
          | inl (rest, e) ↦ record { rest = rest; split = ground (arith, h, e); next = e }
          | inr (x, e) ↦ absurd (ground (arith, h, e))
        ]

popped-Once :
    (names : List String) (pending : List RunSpec) → Once pending → Once (popped names pending)
popped-Once names pending once n = ground (arith, times-popped n names pending, once n)

rounds-nil :
    (fuel : ℕ) (known : List RunSpec) (done : List String) (levels : List (List RunSpec))
    → rounds fuel known done [] ≡ ok levels
    → levels ≡ []
unfolding rounds
rounds-nil zero known done levels h = cc
rounds-nil (suc fuel) known done levels h = cc

no_fuel :
    (known : List RunSpec) (done : List String) (s : RunSpec) (pending : List RunSpec)
    (levels : List (List RunSpec))
    → rounds zero known done (s ∷ pending) ≡ ok levels
    → ⊥
unfolding rounds
no_fuel known done s pending levels h = cc

pub times-ready_specs-le :
    (name : String) (known : List RunSpec) (done : List String) (pending : List RunSpec)
    → times name (ready_specs known done pending) ≤ times name pending
unfolding ready_specs
times-ready_specs-le name known done pending = omega (
  arith,
  times-sort_by_name name (filter (is_ready known done) pending),
  times-filter-le name (is_ready known done) pending,
)

-- A round parts the pending tables.
times-round :
    (name : String) (known : List RunSpec) (done : List String) (pending : List RunSpec)
    → Once pending
    → times name (ready_specs known done pending)
        + times name (popped (map table_fqn (ready_specs known done pending)) pending)
      ≡ times name pending
times-round name known done pending once =
    let ready = ready_specs known done pending in
    ground (
      arith,
      times-popped name (map table_fqn ready) pending,
      is_in-names name ready,
      is_named_iff name ready,
      times-ready_specs-le name known done pending,
      once name,
    )

rounds-times :
    (fuel : ℕ) (known : List RunSpec) (done : List String) (pending : List RunSpec)
    (levels : List (List RunSpec)) (name : String)
    → Once pending
    → rounds fuel known done pending ≡ ok levels
    → times name (flat levels) ≡ times name pending
rounds-times fuel known done [] levels name once h = rw (rounds-nil fuel known done levels h) refl
rounds-times zero known done (s ∷ pending) levels name once h =
    absurd (no_fuel known done s pending levels h)
rounds-times (suc fuel) known done (s ∷ pending) levels name once h =
    let r = rounds-Round fuel known done s pending levels h in
    let ready = ready_specs known done (s ∷ pending) in
    let left = popped (map table_fqn ready) (s ∷ pending) in
    rw r.split (
      times-append name ready (flat r.rest)
      ∙ ap (λ n. times name ready + n)
          (rounds-times fuel known (map table_fqn ready ++ done) left r.rest name
            (popped-Once (map table_fqn ready) (s ∷ pending) once) r.next)
      ∙ times-round name known done (s ∷ pending) once)

pub order_tables-rounds :
    (specs : List RunSpec) (levels : List (List RunSpec))
    → order_tables specs ≡ ok levels
    → rounds (length (by_fqn specs)) (by_fqn specs) [] (by_fqn specs) ≡ ok levels
unfolding order_tables order_known
order_tables-rounds specs levels h = ground (arith, h)

-- When `order_tables` returns, its levels hold each table of the batch once, and no other.
pub order_tables-times :
    (specs : List RunSpec) (levels : List (List RunSpec)) (name : String)
    → order_tables specs ≡ ok levels
    → times name (flat levels) ≡ (if is_named name specs then 1 else 0)
order_tables-times specs levels name h =
    rounds-times (length (by_fqn specs)) (by_fqn specs) [] (by_fqn specs) levels name
      (by_fqn-Once specs) (order_tables-rounds specs levels h)
    ∙ times-by_fqn name specs

-- The dependencies of a table that are in the batch, all of them among the names.
abbrev pub Earlier : List RunSpec → List String → RunSpec → Type 0
Earlier specs done s =
    (d : String) → is_in d s.table.depends_on ≡ true → is_named d specs ≡ true → is_in d done ≡ true

-- In every level each table's dependencies stand in the levels before.
abbrev pub Ordered : List RunSpec → List String → List (List RunSpec) → Type 0
Ordered specs done [] = Unit
Ordered specs done (level ∷ levels) =
    All (Earlier specs done) level × Ordered specs (map table_fqn level ++ done) levels

all-filter :
    (q r : String → Bool) (ds : List String) (d : String)
    → all q (filter r ds) ≡ true
    → is_in d ds ≡ true
    → r d ≡ true
    → q d ≡ true
all-filter q r [] d h k e = cc
all-filter q r (x ∷ ds) d h k e = elim (Bool-cases (x == d)) [
  | inl same ↦
      let path : x ≡ d = ground (arith, eq_iff x d) in
      subst (λ y. q y ≡ true) path (ground (arith, subst (λ y. r y ≡ true) (sym path) e))
  | inr apart ↦ all-filter q r ds d (ground arith) (ground arith) e
]

is_ready-Earlier :
    (known : List RunSpec) (done : List String) (s : RunSpec)
    → is_ready known done s ≡ true
    → Earlier known done s
unfolding is_ready deps_of
is_ready-Earlier known done s h d k e =
    all-filter (λ n. is_in n done) (λ n. is_named n known) s.table.depends_on d h k e

module _ (P : RunSpec → Type 0) where
  All-filter :
      (q : RunSpec → Bool) (xs : List RunSpec)
      → ((s : RunSpec) → q s ≡ true → P s)
      → All P (filter q xs)
  All-filter q [] h = tt
  All-filter q (x ∷ xs) h = elim (Bool-cases (q x)) [
    | inl good ↦ rw good (h x good, All-filter q xs h)
    | inr bad ↦ rw bad (All-filter q xs h)
  ]

  All-insert_by_name :
      (s : RunSpec) (xs : List RunSpec) → P s → All P xs → All P (insert_by_name s xs)
  unfolding insert_by_name
  All-insert_by_name s [] h k = (h, tt)
  All-insert_by_name s (x ∷ xs) h k = ground (arith, All-insert_by_name s xs h k.1)

  All-sort_by_name : (xs : List RunSpec) → All P xs → All P (sort_by_name xs)
  unfolding sort_by_name
  All-sort_by_name [] h = tt
  All-sort_by_name (x ∷ xs) h = All-insert_by_name x _ h.0 (All-sort_by_name xs h.1)

ready_specs-Earlier :
    (known : List RunSpec) (done : List String) (pending : List RunSpec)
    → All (Earlier known done) (ready_specs known done pending)
unfolding ready_specs
ready_specs-Earlier known done pending =
    All-sort_by_name (Earlier known done) _
      (All-filter (Earlier known done) (is_ready known done) pending (is_ready-Earlier known done))

rounds-Ordered :
    (fuel : ℕ) (known : List RunSpec) (done : List String) (pending : List RunSpec)
    (levels : List (List RunSpec))
    → rounds fuel known done pending ≡ ok levels
    → Ordered known done levels
rounds-Ordered fuel known done [] levels h = rw (rounds-nil fuel known done levels h) tt
rounds-Ordered zero known done (s ∷ pending) levels h =
    absurd (no_fuel known done s pending levels h)
rounds-Ordered (suc fuel) known done (s ∷ pending) levels h =
    let r = rounds-Round fuel known done s pending levels h in
    rw r.split
      (ready_specs-Earlier known done (s ∷ pending), rounds-Ordered fuel known _ _ r.rest r.next)

All-map :
    (P Q : RunSpec → Type 0) (xs : List RunSpec) → ((s : RunSpec) → P s → Q s) → All P xs → All Q xs
All-map P Q [] f h = tt
All-map P Q (x ∷ xs) f h = (f x h.0, All-map P Q xs f h.1)

Ordered-by_fqn :
    (specs : List RunSpec) (levels : List (List RunSpec)) (done : List String)
    → Ordered (by_fqn specs) done levels
    → Ordered specs done levels
Ordered-by_fqn specs [] done h = tt
Ordered-by_fqn specs (level ∷ levels) done h = (
  All-map (Earlier (by_fqn specs) done) (Earlier specs done) level
      (λ s k d dep named. k d dep (is_named-by_fqn d specs ∙ named)) h.0,
  Ordered-by_fqn specs levels _ h.1,
)

-- When `order_tables` returns, every dependency of a table that is in the batch stands in a level
-- before the table's own.
pub order_tables-Ordered :
    (specs : List RunSpec) (levels : List (List RunSpec))
    → order_tables specs ≡ ok levels
    → Ordered specs [] levels
order_tables-Ordered specs levels h =
    Ordered-by_fqn specs levels [] (
      rounds-Ordered _ (by_fqn specs) [] (by_fqn specs) levels (order_tables-rounds specs levels h))
