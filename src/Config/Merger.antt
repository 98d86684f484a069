-- ===== src/Config/Merger.antt =====
-- src/ingestion_framework/config/merger.py: the deep merge of configuration layers. The paths
-- that it threads through are those of the error texts and are left out.
pub mod Plain
pub mod Wins
pub mod Layers
pub mod Total
use oracle_repo.Base.{ℕ, String, Bool, Option, none, some, List, [], ◌∷◌, if◌then◌else◌}
use oracle_repo.RunSpec.{Value}
use oracle_repo.Platform.{config_merge_error, external, Result, ok, err, and_then}
use oracle_repo.Config.Tree.{
  Config, Items, Fields, scalar, plain_list, append_list, merge_by_list, mapping, nil, cons, end,
  field, copy, copy_items, copy_fields, find, put, list_items, append_items, count_items, item_at,
  set_item,
}

-- What a list of mappings is merged into, and where each identity stands in it, the last one
-- first.
pub record Merged : Type 0 where
  pub items : Items
  pub index : List (Value × ℕ)

-- `item[key]` of an entry, which is looked up in a `dict` and so has to be hashable.
hashable : Option Config → Result Value
hashable none = err config_merge_error
hashable (some (scalar v)) = ok v
hashable (some _) = err (external "TypeError" "unhashable type")

unfoldable pub identity : String → Config → Result Value
unfolding hashable find
identity key (mapping fs) = hashable (find key fs)
identity key _ = err config_merge_error

unfoldable pub entry_at : Option ℕ → Items → Option Config
unfolding item_at
entry_at none xs = none
entry_at (some n) xs = item_at n xs

-- Equality of `dict` keys is Python's.
module _ (same : Value → Value → Bool) where
  unfoldable pub position : Value → List (Value × ℕ) → Option ℕ
  position v [] = none
  position v ((u, n) ∷ index) = let rest = position v index in if same u v then some n else rest

  -- `index[v] = len(merged)` and `merged.append(_copy(item))`
  unfoldable pub add_entry : Merged → Value → Config → Merged
  unfolding copy append_items count_items
  add_entry m v item = record {
    items = append_items m.items (cons (copy item) nil);
    index = (v, count_items m.items) ∷ m.index;
  }

  -- What an entry of the override changes; `merged` is what it makes of the entry at its place.
  unfoldable pub place_entry : Option ℕ → Merged → Value → Config → Result Config → Result Merged
  unfolding add_entry set_item
  place_entry none m v y merged = ok (add_entry m v y)
  place_entry (some n) m v y merged =
      and_then merged (λ x. ok (record { items = set_item n x m.items; index = m.index }))

  -- The loop over the base entries.
  unfoldable pub index_base : String → Merged → Items → Result Merged
  unfolding identity add_entry
  index_base key m nil = ok m
  index_base key m (cons x xs) =
      and_then (identity key x) (λ v. index_base key (add_entry m v x) xs)

  -- The base is `none` where it has no such key.
  unfoldable mutual
    unfolding copy find put list_items append_items entry_at identity position place_entry
        index_base

    pub deep_merge : Option Config → Config → Result Config
    deep_merge base (scalar v) = ok (scalar v)
    deep_merge base (plain_list ys) = ok (plain_list (copy_items ys))
    deep_merge base (append_list ys) =
        ok (plain_list (append_items (copy_items (list_items base)) (copy_items ys)))
    deep_merge base (merge_by_list key ys) =
        and_then (index_base key (record { items = nil; index = [] }) (list_items base))
          (λ m. and_then (merge_entries key m ys) (λ merged. ok (plain_list merged.items)))
    deep_merge (some (mapping gs)) (mapping fs) =
        and_then (merge_fields (copy_fields gs) fs) (λ merged. ok (mapping merged))
    deep_merge base (mapping fs) = ok (mapping (copy_fields fs))

    -- The loop of `_merge_mappings`
    pub merge_fields : Fields → Fields → Result Fields
    merge_fields merged end = ok merged
    merge_fields merged (field k v fs) =
        and_then (deep_merge (find k merged) v) (λ x. merge_fields (put k x merged) fs)

    -- The loop of `_merge_strategy_list` over the override.
    pub merge_entries : String → Merged → Items → Result Merged
    merge_entries key m nil = ok m
    merge_entries key m (cons y ys) = and_then (identity key y) (λ v.
        let place = position v m.index in
        and_then (place_entry place m v y (deep_merge (entry_at place m.items) y))
          (λ m'. merge_entries key m' ys))

  unfoldable pub merge_mappings : Fields → Fields → Result Fields
  unfolding copy_fields merge_fields
  merge_mappings base override = merge_fields (copy_fields base) override

  -- Later layers win; a layer that is missing or empty is passed over.
  unfoldable pub merge_layers_onto : Fields → List (Option Fields) → Result Fields
  unfolding merge_mappings
  merge_layers_onto result [] = ok result
  merge_layers_onto result (none ∷ layers) = merge_layers_onto result layers
  merge_layers_onto result (some end ∷ layers) = merge_layers_onto result layers
  merge_layers_onto result (some (field k v fs) ∷ layers) =
      and_then (merge_mappings result (field k v fs)) (λ merged. merge_layers_onto merged layers)

  unfoldable pub merge_layers : List (Option Fields) → Result Fields
  unfolding merge_layers_onto
  merge_layers layers = merge_layers_onto end layers
