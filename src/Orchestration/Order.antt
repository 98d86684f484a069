-- ===== src/Orchestration/Order.antt =====
-- `order_tables`, `blocked_by` and `select_specs` of
-- src/ingestion_framework/orchestration/batch_runner.py.
pub mod Laws
pub mod Levels
pub mod Cycles
use Prim.Native.String.{compare}
use Prim.Native.Nat.{Ordering}
use oracle_repo.Base.{
  ℕ, zero, suc, String, ◌==◌, Bool, true, false, not, ◌&&◌, Option, none, some, List, [], ◌∷◌, ◌++◌,
  map, any, all, filter, length, is_empty, if◌then◌else◌,
}
use oracle_repo.Base.Text.{is_blank}
use oracle_repo.RunSpec.{RunSpec, table_fqn}
use oracle_repo.Platform.{Result, ok, err, dependency_error, and_then}

-- `name in names`
abbrev pub is_in : String → List String → Bool
is_in name names = any (λ n. n == name) names

-- Whether a table of that name is among the specs: `name in by_fqn`.
unfoldable pub is_named : String → List RunSpec → Bool
is_named name specs = any (λ s. table_fqn s == name) specs

-- `by_fqn[spec.table_fqn] = spec`: a later spec of a name takes the place of an earlier one.
unfoldable pub put_spec : RunSpec → List RunSpec → List RunSpec
put_spec spec [] = spec ∷ []
put_spec spec (s ∷ specs) =
    let rest = put_spec spec specs in
    if table_fqn s == table_fqn spec then spec ∷ specs else s ∷ rest

put_all : List RunSpec → List RunSpec → List RunSpec
unfolding put_spec
put_all [] table = table
put_all (s ∷ specs) table = put_all specs (put_spec s table)

-- The values of the dict `by_fqn`, in its order.
unfoldable pub by_fqn : List RunSpec → List RunSpec
unfolding put_all
by_fqn specs = put_all specs []

-- `pending[spec.table_fqn]`, which never changes: a name outside the batch is ignored.
unfoldable pub deps_of : List RunSpec → RunSpec → List String
unfolding is_named
deps_of known spec = filter (λ d. is_named d known) spec.table.depends_on

-- `deps <= done`
unfoldable pub is_ready : List RunSpec → List String → RunSpec → Bool
unfolding deps_of
is_ready known done spec = all (λ d. is_in d done) (deps_of known spec)

-- Names by code points.
abbrev is_before : RunSpec → RunSpec → Bool
is_before a b = elim (compare (table_fqn a) (table_fqn b)) [ Ordering.gt ↦ false | _ ↦ true ]

insert_by_name : RunSpec → List RunSpec → List RunSpec
insert_by_name spec [] = spec ∷ []
insert_by_name spec (s ∷ specs) =
    let rest = insert_by_name spec specs in
    if is_before spec s then spec ∷ (s ∷ specs) else s ∷ rest

unfoldable pub sort_by_name : List RunSpec → List RunSpec
unfolding insert_by_name
sort_by_name [] = []
sort_by_name (s ∷ specs) = insert_by_name s (sort_by_name specs)

-- The specs of `sorted(fqn for fqn, deps in pending.items() if deps <= done)`
unfoldable pub ready_specs : List RunSpec → List String → List RunSpec → List RunSpec
unfolding sort_by_name is_ready
ready_specs known done pending = sort_by_name (filter (is_ready known done) pending)

-- `for fqn in ready: pending.pop(fqn)`
unfoldable pub popped : List String → List RunSpec → List RunSpec
popped names pending = filter (λ s. not (is_in (table_fqn s) names)) pending

-- The loop `while pending`, each round of which takes a table off `pending`.
unfoldable pub rounds : ℕ → List RunSpec → List String → List RunSpec → Result (List (List RunSpec))
unfolding ready_specs popped
rounds fuel known done [] = ok []
rounds zero known done (s ∷ pending) = err dependency_error
rounds (suc fuel) known done (s ∷ pending) =
    let ready = ready_specs known done (s ∷ pending) in
    let names = map table_fqn ready in
    let rest = rounds fuel known (names ++ done) (popped names (s ∷ pending)) in
    if is_empty ready then err dependency_error else and_then rest (λ levels. ok (ready ∷ levels))

-- `fqn in deps`
unfoldable pub depends_on_itself : List RunSpec → RunSpec → Bool
unfolding deps_of
depends_on_itself known spec = is_in (table_fqn spec) (deps_of known spec)

order_known : List RunSpec → Result (List (List RunSpec))
unfolding depends_on_itself rounds
order_known known =
    if any (depends_on_itself known) known
    then err dependency_error
    else rounds (length known) known [] known

-- Dependency levels.
unfoldable pub order_tables : List RunSpec → Result (List (List RunSpec))
unfolding by_fqn order_known
order_tables specs = order_known (by_fqn specs)

-- Which of this table's dependencies failed.
unfoldable pub blocked_by : RunSpec → List String → List String
blocked_by spec failed = filter (λ d. is_in d failed) spec.table.depends_on

-- `if value:` of an optional text
abbrev on_text : Option String → (String → RunSpec → Bool) → List RunSpec → List RunSpec
on_text none test specs = specs
on_text (some s) test specs = if is_blank s then specs else filter (test s) specs

select_tables : List String → List RunSpec → Result (List RunSpec)
unfolding is_named
select_tables [] specs = ok specs
select_tables (t ∷ tables) specs =
    if all (λ name. is_named name specs) (t ∷ tables)
    then ok (filter (λ s. is_in (table_fqn s) (t ∷ tables)) specs)
    else err dependency_error

-- Filter by table, schedule group and domain. No tables are an empty list.
unfoldable pub select_specs :
    List RunSpec → List String → Option String → Option String → Result (List RunSpec)
unfolding select_tables
select_specs specs tables group domain = and_then (select_tables tables specs) λ selected. ok (
    on_text domain (λ name s. s.table.domain == name)
      (on_text group (λ name s. s.schedule.group == name) selected))
