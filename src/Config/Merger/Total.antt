-- ===== src/Config/Merger/Total.antt =====
-- Layers without tagged lists always merge.
use oracle_repo.Base.{refl, ◌≡◌, Bool, true, ◌&&◌, Option, none, some, List, [], ◌∷◌}
use oracle_repo.RunSpec.{Value}
use oracle_repo.Platform.{ok, then_ok}
use oracle_repo.Config.Tree.{
  Config, Fields, scalar, plain_list, append_list, merge_by_list, mapping, end, field, copy_items,
  copy_fields, find, put,
}
use oracle_repo.Config.Tree.Laws.{is_plain, plain_fields, and_parts}
use oracle_repo.Config.Merger.{
  deep_merge, merge_fields, merge_mappings, merge_layers_onto, merge_layers,
}

abbrev pub all_plain : List (Option Fields) → Bool
all_plain [] = true
all_plain (none ∷ layers) = all_plain layers
all_plain (some fs ∷ layers) = true && (plain_fields fs && all_plain layers)

module _ (same : Value → Value → Bool) where
  mutual
    unfolding deep_merge is_plain

    merge_returns :
        (base : Option Config) (v : Config)
        → is_plain v ≡ true
        → (w : Config) × (deep_merge same base v ≡ ok w)
    merge_returns base (scalar v) h = (scalar v, refl)
    merge_returns base (plain_list xs) h = (plain_list (copy_items xs), refl)
    merge_returns base (append_list xs) h = cc
    merge_returns base (merge_by_list k xs) h = cc
    merge_returns none (mapping fs) h = (mapping (copy_fields fs), refl)
    merge_returns (some (scalar v)) (mapping fs) h = (mapping (copy_fields fs), refl)
    merge_returns (some (plain_list v)) (mapping fs) h = (mapping (copy_fields fs), refl)
    merge_returns (some (append_list v)) (mapping fs) h = (mapping (copy_fields fs), refl)
    merge_returns (some (merge_by_list k v)) (mapping fs) h = (mapping (copy_fields fs), refl)
    merge_returns (some (mapping gs)) (mapping fs) h =
        let (m, e) = fields_return (copy_fields gs) fs h in
        (mapping m, then_ok (λ m. ok (mapping m)) e refl)

    fields_return :
        (m fs : Fields) → plain_fields fs ≡ true → (m' : Fields) × (merge_fields same m fs ≡ ok m')
    fields_return m end h = (m, refl)
    fields_return m (field k v fs) h =
        let parts = and_parts true (is_plain v) (plain_fields fs) h in
        let (x, e) = merge_returns (find k m) v parts.1.0 in
        let (m', f) = fields_return (put k x m) fs parts.1.1 in
        (m', then_ok (λ x. merge_fields same (put k x m) fs) e f)

  layers_return :
      (result : Fields) (layers : List (Option Fields))
      → all_plain layers ≡ true
      → (merged : Fields) × (merge_layers_onto same result layers ≡ ok merged)
  unfolding merge_layers_onto merge_mappings
  layers_return result [] h = (result, refl)
  layers_return result (none ∷ layers) h = layers_return result layers h
  layers_return result (some end ∷ layers) h =
      layers_return result layers (and_parts true (plain_fields end) (all_plain layers) h).1.1
  layers_return result (some (field k v fs) ∷ layers) h =
      let parts = and_parts true (plain_fields (field k v fs)) (all_plain layers) h in
      let (m, e) = fields_return (copy_fields result) (field k v fs) parts.1.0 in
      let (merged, f) = layers_return m layers parts.1.1 in
      (merged, then_ok (λ m. merge_layers_onto same m layers) e f)

  -- A merge raises only over a tagged list.
  pub merge_layers_total :
      (layers : List (Option Fields))
      → all_plain layers ≡ true
      → (merged : Fields) × (merge_layers same layers ≡ ok merged)
  unfolding merge_layers
  merge_layers_total layers h = layers_return end layers h
