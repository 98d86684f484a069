-- ===== src/Config/Merger/Layers.antt =====
-- Which of many layers a value of the merged configuration comes from.
use oracle_repo.Base.{
  ◌≡◌, ◌⊎◌, ap, ◌∙◌, subst, String, Bool, true, ◌&&◌, Option, none, some, List, [], ◌∷◌, ◌++◌,
  Option-cases, inl, inr, arith,
}
use oracle_repo.RunSpec.{Value}
use oracle_repo.Platform.{ok, and_then, and_then_ok, ok-injective}
use oracle_repo.Config.Tree.{
  Config, Fields, scalar, plain_list, append_list, merge_by_list, mapping, end, field, copy,
  copy_fields, find,
}
use oracle_repo.Config.Tree.Laws.{
  copy_plain, copy_id, find-copy_fields, keys_once, and_parts, find_once, at_path, at_path-copy,
}
use oracle_repo.Config.Merger.{
  deep_merge, merge_fields, merge_mappings, merge_layers_onto, merge_layers,
}
use oracle_repo.Config.Merger.Wins.{
  is_leaf, passes_by, deep_merge_wins, merge_fields_kept, merge_fields_merged, path_step, path_join,
}

copy-copy : (c : Config) → copy (copy c) ≡ copy c
copy-copy c = copy_id (copy c) (copy_plain c)

copied_entry :
    (k : String) (gs : Fields) (b : Config)
    → find k gs ≡ some b
    → find k (copy_fields gs) ≡ some (copy b)
copied_entry k gs b n = find-copy_fields k gs ∙ ground (arith, n)

absent_or_deeper :
    (k : String) (ks : List String) (fs : Fields)
    → passes_by (k ∷ ks) (mapping fs) ≡ true
    → (find k fs ≡ none) ⊎ ((u : Config) × (find k fs ≡ some u) × (passes_by ks u ≡ true))
unfolding passes_by
absent_or_deeper k ks fs h = elim (Option-cases (find k fs)) [
  | inl n ↦ inl n
  | inr (u, n) ↦ inr (u, n, ground (arith, h, n))
]

-- Whether a path is left alone by the layers: each is missing, or passes it by.
abbrev pub all_pass_by : List String → List (Option Fields) → Bool
all_pass_by ks [] = true
all_pass_by ks (none ∷ layers) = all_pass_by ks layers
all_pass_by ks (some fs ∷ layers) =
    passes_by ks (mapping fs) && (keys_once (mapping fs) && all_pass_by ks layers)

module _ (same : Value → Value → Bool) where
  -- What the base has at a path that the override passes by, the merge has too.
  pub deep_merge_keeps :
      (ks : List String) (c v w u : Config)
      → deep_merge same (some c) v ≡ ok w
      → keys_once v ≡ true
      → at_path ks c ≡ some u
      → passes_by ks v ≡ true
      → at_path ks w ≡ some (copy u)
  unfolding deep_merge keys_once passes_by at_path
  deep_merge_keeps [] c v w u h o e p = cc
  deep_merge_keeps (k ∷ ks) c (scalar v) w u h o e p = cc
  deep_merge_keeps (k ∷ ks) c (plain_list v) w u h o e p = cc
  deep_merge_keeps (k ∷ ks) c (append_list v) w u h o e p = cc
  deep_merge_keeps (k ∷ ks) c (merge_by_list j v) w u h o e p = cc
  deep_merge_keeps (k ∷ ks) (scalar c) (mapping fs) w u h o e p = cc
  deep_merge_keeps (k ∷ ks) (plain_list c) (mapping fs) w u h o e p = cc
  deep_merge_keeps (k ∷ ks) (append_list c) (mapping fs) w u h o e p = cc
  deep_merge_keeps (k ∷ ks) (merge_by_list j c) (mapping fs) w u h o e p = cc
  deep_merge_keeps (k ∷ ks) (mapping gs) (mapping fs) w u h o e p =
      let (m, f, g) =
        and_then_ok (merge_fields same (copy_fields gs) fs) (λ m. ok (mapping m)) w h in
      let (b, n, e') = path_step same k ks gs u e in
      subst (λ z. at_path (k ∷ ks) z ≡ some (copy u)) (ok-injective g)
        (elim (absent_or_deeper k ks fs p) [
          | inl a ↦
              path_join same k ks m (copy b)
                (merge_fields_kept same k (copy_fields gs) m fs f a ∙ copied_entry k gs b n)
              ∙ at_path-copy ks b u e'
          | inr (v, a, q) ↦
              let (x, c, d) = merge_fields_merged same k (copy_fields gs) m fs v f o a in
              path_join same k ks m x c
              ∙ deep_merge_keeps ks (copy b) v x (copy u)
                  (subst (λ z. deep_merge same z v ≡ ok x) (copied_entry k gs b n) d)
                  (find_once k fs v o a) (at_path-copy ks b u e') q
              ∙ ap some (copy-copy u)
        ])

  merge_mappings_deep :
      (gs fs m : Fields)
      → merge_mappings same gs fs ≡ ok m
      → deep_merge same (some (mapping gs)) (mapping fs) ≡ ok (mapping m)
  unfolding merge_mappings deep_merge
  merge_mappings_deep gs fs m h = ap (λ r. and_then r (λ x. ok (mapping x))) h

  pass_parts :
      (ks : List String) (fs : Fields) (layers : List (Option Fields))
      → all_pass_by ks (some fs ∷ layers) ≡ true
      → (passes_by ks (mapping fs) ≡ true)
        × ((keys_once (mapping fs) ≡ true) × (all_pass_by ks layers ≡ true))
  pass_parts ks fs layers a =
      and_parts (passes_by ks (mapping fs)) (keys_once (mapping fs)) (all_pass_by ks layers) a

  kept_by_later :
      (ks : List String) (result merged : Fields) (layers : List (Option Fields)) (u : Config)
      → merge_layers_onto same result layers ≡ ok merged
      → all_pass_by ks layers ≡ true
      → at_path ks (mapping result) ≡ some (copy u)
      → at_path ks (mapping merged) ≡ some (copy u)
  unfolding merge_layers_onto
  kept_by_later ks result merged [] u h a e =
      subst (λ x. at_path ks (mapping x) ≡ some (copy u)) (ok-injective h) e
  kept_by_later ks result merged (none ∷ layers) u h a e =
      kept_by_later ks result merged layers u h a e
  kept_by_later ks result merged (some end ∷ layers) u h a e =
      kept_by_later ks result merged layers u h (pass_parts ks end layers a).1.1 e
  kept_by_later ks result merged (some (field k v fs) ∷ layers) u h a e =
      let (m, f, g) =
        and_then_ok (merge_mappings same result (field k v fs))
          (λ m. merge_layers_onto same m layers) merged h in
      let parts = pass_parts ks (field k v fs) layers a in
      kept_by_later ks m merged layers u g parts.1.1 (
        deep_merge_keeps ks (mapping result) (mapping (field k v fs)) (mapping m) (copy u)
          (merge_mappings_deep result (field k v fs) m f) parts.1.0 e parts.0
        ∙ ap some (copy-copy u))

  set_by :
      (ks : List String) (result merged fs : Fields) (after : List (Option Fields)) (leaf : Config)
      → merge_layers_onto same result (some fs ∷ after) ≡ ok merged
      → keys_once (mapping fs) ≡ true
      → at_path ks (mapping fs) ≡ some leaf
      → is_leaf leaf ≡ true
      → all_pass_by ks after ≡ true
      → at_path ks (mapping merged) ≡ some (copy leaf)
  unfolding merge_layers_onto at_path
  set_by [] result merged end after leaf h o e l a = ground (arith, e, l)
  set_by (k ∷ ks) result merged end after leaf h o e l a = cc
  set_by ks result merged (field k v fs) after leaf h o e l a =
      let (m, f, g) =
        and_then_ok (merge_mappings same result (field k v fs))
          (λ m. merge_layers_onto same m after) merged h in
      kept_by_later ks m merged after leaf g a (
        deep_merge_wins same ks (some (mapping result)) (mapping (field k v fs)) (mapping m) leaf
          (merge_mappings_deep result (field k v fs) m f) o e l)

  set_in_order :
      (ks : List String) (result merged : Fields) (before : List (Option Fields)) (fs : Fields)
      (after : List (Option Fields)) (leaf : Config)
      → merge_layers_onto same result (before ++ (some fs ∷ after)) ≡ ok merged
      → keys_once (mapping fs) ≡ true
      → at_path ks (mapping fs) ≡ some leaf
      → is_leaf leaf ≡ true
      → all_pass_by ks after ≡ true
      → at_path ks (mapping merged) ≡ some (copy leaf)
  unfolding merge_layers_onto
  set_in_order ks result merged [] fs after leaf h o e l a =
      set_by ks result merged fs after leaf h o e l a
  set_in_order ks result merged (none ∷ before) fs after leaf h o e l a =
      set_in_order ks result merged before fs after leaf h o e l a
  set_in_order ks result merged (some end ∷ before) fs after leaf h o e l a =
      set_in_order ks result merged before fs after leaf h o e l a
  set_in_order ks result merged (some (field k v gs) ∷ before) fs after leaf h o e l a =
      let (m, f, g) =
        and_then_ok (merge_mappings same result (field k v gs))
          (λ m. merge_layers_onto same m (before ++ (some fs ∷ after))) merged h in
      set_in_order ks m merged before fs after leaf g o e l a

  -- A value that a layer sets is the merged one where every later layer leaves its path alone.
  pub merge_layers_last :
      (ks : List String) (before : List (Option Fields)) (fs : Fields)
      (after : List (Option Fields)) (merged : Fields) (leaf : Config)
      → merge_layers same (before ++ (some fs ∷ after)) ≡ ok merged
      → keys_once (mapping fs) ≡ true
      → at_path ks (mapping fs) ≡ some leaf
      → is_leaf leaf ≡ true
      → all_pass_by ks after ≡ true
      → at_path ks (mapping merged) ≡ some (copy leaf)
  unfolding merge_layers
  merge_layers_last ks before fs after merged leaf h o e l a =
      set_in_order ks end merged before fs after leaf h o e l a
