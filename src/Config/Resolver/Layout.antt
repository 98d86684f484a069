-- ===== src/Config/Resolver/Layout.antt =====
-- The layout that _apply_derived_defaults of config/resolver.py gives a target that is merged into.
use oracle_repo.Base.{
  refl, ◌≡◌, ◌⊎◌, ap, subst, inl, inr, String, Bool, true, false, Option, none, some, arith, not,
  ◌&&◌, ◌||◌,
}
use oracle_repo.RunSpec.{null, bool, number, text, date, datetime}
use oracle_repo.Platform.{ok, and_then_ok, ok-injective}
use oracle_repo.Config.Tree.{
  Config, Items, Fields, scalar, plain_list, append_list, merge_by_list, mapping, end, field, find,
  put,
}
use oracle_repo.Config.Tree.Laws.{find-put_self}
use oracle_repo.Config.Resolver.{
  characters, keys, Python, truthy, is_set, list_of, is_text, listed, clustered, has_items,
  as_mapping, as_dict, keyed, named, derive_target, apply_derived_defaults,
}

module _ (python : Python) where
  -- The list of a value that is true has an entry.
  list_of-true :
      (v : Config) (xs : Items)
      → truthy python v ≡ true
      → list_of v ≡ ok xs
      → truthy python (plain_list xs) ≡ true
  unfolding truthy list_of has_items characters keys
  list_of-true (plain_list ys) xs t e = subst (λ z. has_items z ≡ true) (ok-injective e) t
  list_of-true (append_list ys) xs t e = subst (λ z. has_items z ≡ true) (ok-injective e) t
  list_of-true (merge_by_list key ys) xs t e = subst (λ z. has_items z ≡ true) (ok-injective e) t
  list_of-true (mapping end) xs t e = cc
  list_of-true (mapping (field k v fs)) xs t e =
      subst (λ z. has_items z ≡ true) (ok-injective e) refl
  list_of-true (scalar null) xs t e = cc
  list_of-true (scalar (bool b)) xs t e = cc
  list_of-true (scalar (number n)) xs t e = cc
  list_of-true (scalar (date n)) xs t e = cc
  list_of-true (scalar (datetime n)) xs t e = cc
  list_of-true (scalar (text String.[])) xs t e = ground (arith, t)
  list_of-true (scalar (text (String.◌∷◌ c s))) xs t e =
      subst (λ z. has_items z ≡ true) (ok-injective e) refl

  -- Whether a target that is merged into, with keys, has a layout.
  abbrev pub laid_out : Fields → Bool
  laid_out fs =
      not (is_text "merge" (find "write_mode" fs))
      || (not (is_set python (find "merge_keys" fs))
          || (is_set python (find "cluster_by" fs) || is_set python (find "partition_by" fs)))

  after_put :
      (xs : Items) (fs : Fields)
      → truthy python (plain_list xs) ≡ true
      → laid_out (put "cluster_by" (plain_list xs) fs) ≡ true
  unfolding is_set
  after_put xs fs t = ground (arith, t, find-put_self "cluster_by" (plain_list xs) fs)

  -- What `listed` did.
  listed_cases :
      (test : Bool) (j : String) (value : Option Config) (fs fs' : Fields)
      → listed python test j value fs ≡ ok fs'
      → ((fs ≡ fs') × ((test ≡ false) ⊎ (value ≡ none)))
        ⊎ ((v : Config) × (xs : Items) × (test ≡ true)
            × (value ≡ some v)
            × (list_of v ≡ ok xs)
            × (put j (plain_list xs) fs ≡ fs'))
  unfolding listed
  listed_cases test j none fs fs' e = inl (ok-injective e, inr refl)
  listed_cases false j (some v) fs fs' e = inl (ok-injective e, inl refl)
  listed_cases true j (some v) fs fs' e =
      let (xs, l, q) = and_then_ok (list_of v) (λ xs. ok (put j (plain_list xs) fs)) fs' e in
      inr (v, xs, refl, refl, l, ok-injective q)

  -- The test of `clustered`
  abbrev no_layout : Fields → Bool
  no_layout fs =
      is_text "merge" (find "write_mode" fs)
      && (not (is_set python (find "cluster_by" fs))
          && (not (is_set python (find "partition_by" fs)) && is_set python (find "merge_keys" fs)))

  not_needed :
      (fs : Fields) → (no_layout fs ≡ false) ⊎ (find "merge_keys" fs ≡ none) → laid_out fs ≡ true
  unfolding is_set
  not_needed fs (inl h) = ground (arith, h)
  not_needed fs (inr h) = ground (arith, ap (is_set python) h)

  keys_true :
      (fs : Fields) (v : Config)
      → no_layout fs ≡ true
      → find "merge_keys" fs ≡ some v
      → truthy python v ≡ true
  unfolding is_set
  keys_true fs v h e = ground (arith, h, ap (is_set python) e)

  pub clustered-laid_out : (fs fs' : Fields) → clustered python fs ≡ ok fs' → laid_out fs' ≡ true
  unfolding clustered
  clustered-laid_out fs fs' e =
      elim (listed_cases (no_layout fs) "cluster_by" (find "merge_keys" fs) fs fs' e) [
        | inl (same, why) ↦ subst (λ t. laid_out t ≡ true) same (not_needed fs why)
        | inr (v, xs, t, k, l, made) ↦
            subst (λ t. laid_out t ≡ true) made
              (after_put xs fs (list_of-true v xs (keys_true fs v t k) l))
      ]

  -- When _apply_derived_defaults returns, its target is clustered or partitioned by something, or
  -- is not written by merge, or has no merge keys.
  pub apply_derived_defaults-laid_out :
      (cfg cfg' : Fields)
      → apply_derived_defaults python cfg ≡ ok cfg'
      → (target : Fields) × (find "target" cfg' ≡ some (mapping target)) × (laid_out target ≡ true)
  unfolding apply_derived_defaults derive_target
  apply_derived_defaults-laid_out cfg cfg' e =
      let finish : Fields → Fields = λ t. put "target" (mapping t) cfg in
      let (fs, _, e1) = and_then_ok (as_dict python (find "target" cfg)) _ cfg' e in
      let (table_block, _, e2) = and_then_ok (as_mapping python (find "table" cfg)) _ cfg' e1 in
      let (target, k, e3) =
        and_then_ok (derive_target python table_block fs) (λ t. ok (finish t)) cfg' e2 in
      let (middle, _, c) =
        and_then_ok
          (keyed python (find "business_key" table_block)
            (named python (find "source_object" table_block) fs))
          (clustered python) target k in
      (
        target,
        subst (λ c. find "target" c ≡ some (mapping target)) (ok-injective e3)
            (find-put_self "target" (mapping target) cfg),
        clustered-laid_out middle target c,
      )
