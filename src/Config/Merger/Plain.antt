-- ===== src/Config/Merger/Plain.antt =====
-- What a merge returns holds no tagged list, and a merge of plain data raises nothing.
use oracle_repo.Base.{
  refl, ◌≡◌, subst, ℕ, String, Bool, true, Option, none, some, List, zero, suc, [], ◌∷◌, arith,
}
use oracle_repo.RunSpec.{Value}
use oracle_repo.Platform.{Result, ok, and_then, and_then_ok, ok-injective}
use oracle_repo.Config.Tree.{
  Config, Items, Fields, scalar, plain_list, append_list, merge_by_list, mapping, nil, cons, end,
  field, copy, copy_items, copy_fields, find, put, set_item, list_items,
}
use oracle_repo.Config.Tree.Laws.{
  is_plain, plain_items, plain_fields, copy_plain, copy_items_plain, copy_fields_plain, put_plain,
  append_plain,
}
use oracle_repo.Config.Merger.{
  Merged, identity, position, add_entry, index_base, deep_merge, merge_fields, merge_entries,
  place_entry, entry_at, merge_mappings, merge_layers_onto, merge_layers,
}

set_plain :
    (n : ℕ) (x : Config) (xs : Items)
    → is_plain x ≡ true
    → plain_items xs ≡ true
    → plain_items (set_item n x xs) ≡ true
unfolding set_item is_plain
set_plain n x nil h u = refl
set_plain zero x (cons y ys) h u = ground (arith, h, u)
set_plain (suc n) x (cons y ys) h u = ground (arith, h, u, set_plain n x ys)

module _ (same : Value → Value → Bool) where
  add_plain :
      (m : Merged) (v : Value) (x : Config)
      → plain_items m.items ≡ true
      → plain_items (add_entry same m v x).items ≡ true
  unfolding add_entry is_plain
  add_plain m v x u = append_plain m.items (cons (copy x) nil) u (ground (arith, copy_plain x))

  index_base_plain :
      (key : String) (m m' : Merged) (xs : Items)
      → index_base same key m xs ≡ ok m'
      → plain_items m.items ≡ true
      → plain_items m'.items ≡ true
  unfolding index_base
  index_base_plain key m m' nil h u = subst (λ x. plain_items x.items ≡ true) (ok-injective h) u
  index_base_plain key m m' (cons x xs) h u =
      let (v, a, b) =
        and_then_ok (identity key x) (λ v. index_base same key (add_entry same m v x) xs) m' h in
      index_base_plain key (add_entry same m v x) m' xs b (add_plain m v x u)

  start_plain :
      (key : String) (base : Option Config) (m : Merged)
      → index_base same key (record { items = nil; index = [] }) (list_items base) ≡ ok m
      → plain_items m.items ≡ true
  unfolding is_plain
  start_plain key base m h =
      index_base_plain key (record { items = nil; index = [] }) m (list_items base) h refl

  plain_ok : (c w : Config) → is_plain c ≡ true → ok c ≡ ok w → is_plain w ≡ true
  plain_ok c w u h = subst (λ x. is_plain x ≡ true) (ok-injective h) u

  place_plain :
      (o : Option ℕ) (m m' : Merged) (v : Value) (y : Config) (r : Result Config)
      → place_entry same o m v y r ≡ ok m'
      → ((x : Config) → r ≡ ok x → is_plain x ≡ true)
      → plain_items m.items ≡ true
      → plain_items m'.items ≡ true
  unfolding place_entry
  place_plain none m m' v y r h k u =
      subst (λ x. plain_items x.items ≡ true) (ok-injective h) (add_plain m v y u)
  place_plain (some n) m m' v y r h k u =
      let (x, a, b) =
        and_then_ok r (λ x. ok (record { items = set_item n x m.items; index = m.index })) m' h in
      subst (λ z. plain_items z.items ≡ true) (ok-injective b) (set_plain n x m.items (k x a) u)

  -- The rest of the loop, once the entry's identity is known.
  place_then : String → Merged → Config → Items → Value → Result Merged
  place_then key m y ys v =
      and_then
        (place_entry same (position same v m.index) m v y
          (deep_merge same (entry_at (position same v m.index) m.items) y))
        (λ m'. merge_entries same key m' ys)

  mutual
    unfolding deep_merge is_plain place_then

    merge_plain :
        (base : Option Config) (v w : Config) → deep_merge same base v ≡ ok w → is_plain w ≡ true
    merge_plain base (scalar v) w h = plain_ok _ w refl h
    merge_plain base (plain_list ys) w h = plain_ok _ w (copy_items_plain ys) h
    merge_plain base (append_list ys) w h =
        plain_ok _ w
          (append_plain (copy_items (list_items base)) (copy_items ys)
            (copy_items_plain (list_items base)) (copy_items_plain ys))
          h
    merge_plain base (merge_by_list key ys) w h =
        let (m, a, b) =
          and_then_ok (index_base same key (record { items = nil; index = [] }) (list_items base))
            (λ m. and_then (merge_entries same key m ys) (λ merged. ok (plain_list merged.items))) w
            h in
        let (m', c, d) =
          and_then_ok (merge_entries same key m ys) (λ merged. ok (plain_list merged.items)) w b in
        plain_ok (plain_list m'.items) w (entries_plain key m m' ys c (start_plain key base m a)) d
    merge_plain none (mapping fs) w h = plain_ok _ w (copy_fields_plain fs) h
    merge_plain (some (mapping gs)) (mapping fs) w h =
        let (m, a, b) =
          and_then_ok (merge_fields same (copy_fields gs) fs) (λ merged. ok (mapping merged)) w h in
        plain_ok (mapping m) w (fields_plain (copy_fields gs) m fs a (copy_fields_plain gs)) b
    merge_plain (some (scalar v)) (mapping fs) w h = plain_ok _ w (copy_fields_plain fs) h
    merge_plain (some (plain_list v)) (mapping fs) w h = plain_ok _ w (copy_fields_plain fs) h
    merge_plain (some (append_list v)) (mapping fs) w h = plain_ok _ w (copy_fields_plain fs) h
    merge_plain (some (merge_by_list k v)) (mapping fs) w h = plain_ok _ w (copy_fields_plain fs) h

    fields_plain :
        (m m' fs : Fields)
        → merge_fields same m fs ≡ ok m'
        → plain_fields m ≡ true
        → plain_fields m' ≡ true
    fields_plain m m' end h u = subst (λ x. plain_fields x ≡ true) (ok-injective h) u
    fields_plain m m' (field k v fs) h u =
        let (x, a, b) =
          and_then_ok (deep_merge same (find k m) v) (λ x. merge_fields same (put k x m) fs) m' h in
        fields_plain (put k x m) m' fs b (put_plain k x m (merge_plain (find k m) v x a) u)

    entries_plain :
        (key : String) (m m' : Merged) (ys : Items)
        → merge_entries same key m ys ≡ ok m'
        → plain_items m.items ≡ true
        → plain_items m'.items ≡ true
    entries_plain key m m' nil h u = subst (λ x. plain_items x.items ≡ true) (ok-injective h) u
    entries_plain key m m' (cons y ys) h u =
        let (v, a, b) = and_then_ok (identity key y) (place_then key m y ys) m' h in
        let merged = deep_merge same (entry_at (position same v m.index) m.items) y in
        let (m'', c, d) =
          and_then_ok (place_entry same (position same v m.index) m v y merged)
            (λ m'. merge_entries same key m' ys) m' b in
        entries_plain key m'' m' ys d (
          place_plain (position same v m.index) m m'' v y merged c
            (merge_plain (entry_at (position same v m.index) m.items) y) u)

  layers_plain :
      (result merged : Fields) (layers : List (Option Fields))
      → merge_layers_onto same result layers ≡ ok merged
      → plain_fields result ≡ true
      → plain_fields merged ≡ true
  unfolding merge_layers_onto merge_mappings
  layers_plain result merged [] h u = subst (λ x. plain_fields x ≡ true) (ok-injective h) u
  layers_plain result merged (none ∷ layers) h u = layers_plain result merged layers h u
  layers_plain result merged (some end ∷ layers) h u = layers_plain result merged layers h u
  layers_plain result merged (some (field k v fs) ∷ layers) h u =
      let (m, a, b) =
        and_then_ok (merge_mappings same result (field k v fs))
          (λ m. merge_layers_onto same m layers) merged h in
      layers_plain m merged layers b
        (fields_plain (copy_fields result) m (field k v fs) a (copy_fields_plain result))

  -- Whatever the tags of the layers, the configuration that they merge into has none.
  pub merge_layers_plain :
      (layers : List (Option Fields)) (merged : Fields)
      → merge_layers same layers ≡ ok merged
      → plain_fields merged ≡ true
  unfolding merge_layers is_plain
  merge_layers_plain layers merged h = layers_plain end merged layers h refl
