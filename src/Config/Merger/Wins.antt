-- ===== src/Config/Merger/Wins.antt =====
-- Which layer a merged value comes from, at any depth.
use oracle_repo.Base.{
  refl, ◌≡◌, ◌⊎◌, eq_iff, ap, sym, ◌∙◌, subst, String, ◌==◌, Bool, true, false, Bool-cases, Option,
  none, some, List, [], ◌∷◌, Option-cases, inl, inr, arith,
}
use mathlib.Core.Option.{some-injective}
use oracle_repo.RunSpec.{Value}
use oracle_repo.Platform.{ok, and_then_ok, ok-injective}
use oracle_repo.Config.Tree.{
  Config, Fields, scalar, plain_list, append_list, merge_by_list, mapping, end, field, copy,
  copy_fields, find, put,
}
use oracle_repo.Config.Tree.Laws.{
  find-put_self, find-put_ne, keys_once, fields_once, once_lem, find_once, find_head, find_tail,
  same_entry, at_path, at_path-copy,
}
use oracle_repo.Config.Merger.{deep_merge, merge_fields}

-- A scalar or an untagged list.
abbrev pub is_leaf : Config → Bool
is_leaf (scalar v) = true
is_leaf (plain_list xs) = true
is_leaf _ = false

-- Whether the path leaves the mappings of a layer at a key that the layer does not have.
unfoldable pub passes_by : List String → Config → Bool
unfolding find
passes_by (k ∷ ks) (mapping fs) = elim (find k fs) [ none ↦ true | some v ↦ passes_by ks v ]
passes_by _ _ = false

module _ (same : Value → Value → Bool) where
  -- What a key is bound to once the loop over the override's entries has run.
  pub merge_fields_kept :
      (k : String) (m m' fs : Fields)
      → merge_fields same m fs ≡ ok m'
      → find k fs ≡ none
      → find k m' ≡ find k m
  unfolding deep_merge
  merge_fields_kept k m m' end h n = ap (find k) (sym (ok-injective h))
  merge_fields_kept k m m' (field j v fs) h n =
      let (x, a, b) =
        and_then_ok (deep_merge same (find j m) v) (λ x. merge_fields same (put j x m) fs) m' h in
      elim (Bool-cases (j == k)) [
        | inl t ↦ absurd_entry (sym (find_head j k v fs t) ∙ n)
        | inr t ↦
            merge_fields_kept k (put j x m) m' fs b (sym (find_tail j k v fs t) ∙ n)
            ∙ find-put_ne j k x m t
      ]
    where
      absurd_entry : some v ≡ none → find k m' ≡ find k m
      absurd_entry e = cc

  pub merge_fields_merged :
      (k : String) (m m' fs : Fields) (u : Config)
      → merge_fields same m fs ≡ ok m'
      → fields_once fs ≡ true
      → find k fs ≡ some u
      → (x : Config) × (find k m' ≡ some x) × (deep_merge same (find k m) u ≡ ok x)
  unfolding deep_merge find
  merge_fields_merged k m m' end u h o e = cc
  merge_fields_merged k m m' (field j v fs) u h o e =
      let (x, a, b) =
        and_then_ok (deep_merge same (find j m) v) (λ x. merge_fields same (put j x m) fs) m' h in
      elim (Bool-cases (j == k)) [
        | inl t ↦
            let q = (eq_iff j k).0 t in
            (
              x,
              merge_fields_kept k (put j x m) m' fs b
                    (subst (λ i. find i fs ≡ none) q (once_lem j v fs o).0)
                  ∙ subst (λ i. find i (put j x m) ≡ some x) q (find-put_self j x m),
              subst (λ y. deep_merge same (find k m) y ≡ ok x) (same_entry j k v u fs t e)
                  (subst (λ i. deep_merge same (find i m) v ≡ ok x) q a),
            )
        | inr t ↦
            let (y, c, d) =
              merge_fields_merged k (put j x m) m' fs u b (once_lem j v fs o).1.1
                (sym (find_tail j k v fs t) ∙ e) in
            (y, c, subst (λ z. deep_merge same z u ≡ ok y) (find-put_ne j k x m t) d)
      ]

  -- The mapping that a merge returns, and what it is on each base.
  leaf_wins :
      (base : Option Config) (leaf w : Config)
      → is_leaf leaf ≡ true
      → deep_merge same base leaf ≡ ok w
      → w ≡ copy leaf
  unfolding deep_merge copy
  leaf_wins base (scalar v) w l h = sym (ok-injective h)
  leaf_wins base (plain_list xs) w l h = sym (ok-injective h)
  leaf_wins base (append_list xs) w l h = cc
  leaf_wins base (merge_by_list key xs) w l h = cc
  leaf_wins base (mapping fs) w l h = cc

  -- Where the base is no mapping, an override that is one is copied.
  pub copied :
      (base : Option Config) (fs : Fields) (w : Config)
      → deep_merge same base (mapping fs) ≡ ok w
      → ((gs : Fields) × (m : Fields) × (base ≡ some (mapping gs))
          × (merge_fields same (copy_fields gs) fs ≡ ok m)
          × (w ≡ mapping m))
        ⊎ (w ≡ copy (mapping fs))
  unfolding deep_merge copy
  copied (some (mapping gs)) fs w h =
      let (m, a, b) =
        and_then_ok (merge_fields same (copy_fields gs) fs) (λ m. ok (mapping m)) w h in
      inl (gs, m, refl, a, sym (ok-injective b))
  copied none fs w h = inr (sym (ok-injective h))
  copied (some (scalar v)) fs w h = inr (sym (ok-injective h))
  copied (some (plain_list v)) fs w h = inr (sym (ok-injective h))
  copied (some (append_list v)) fs w h = inr (sym (ok-injective h))
  copied (some (merge_by_list k v)) fs w h = inr (sym (ok-injective h))

  pub path_step :
      (k : String) (ks : List String) (fs : Fields) (leaf : Config)
      → at_path (k ∷ ks) (mapping fs) ≡ some leaf
      → (u : Config) × (find k fs ≡ some u) × (at_path ks u ≡ some leaf)
  unfolding at_path
  path_step k ks fs leaf e = elim (Option-cases (find k fs)) [
    | inl n ↦ ground (arith, e, n)
    | inr (u, n) ↦ (u, n, ground (arith, e, n))
  ]

  pub path_join :
      (k : String) (ks : List String) (fs : Fields) (u : Config)
      → find k fs ≡ some u
      → at_path (k ∷ ks) (mapping fs) ≡ at_path ks u
  unfolding at_path
  path_join k ks fs u n = ground (arith, n)

  -- A leaf that the override sets at some path is what the merge has at that path.
  pub deep_merge_wins :
      (ks : List String) (base : Option Config) (v w leaf : Config)
      → deep_merge same base v ≡ ok w
      → keys_once v ≡ true
      → at_path ks v ≡ some leaf
      → is_leaf leaf ≡ true
      → at_path ks w ≡ some (copy leaf)
  unfolding at_path keys_once
  deep_merge_wins [] base v w leaf h o e l = ap some (
      leaf_wins base v w (subst (λ x. is_leaf x ≡ true) (sym (some-injective v leaf e)) l) h
      ∙ ap copy (some-injective v leaf e))
  deep_merge_wins (k ∷ ks) base (mapping fs) w leaf h o e l =
      let (u, n, e') = path_step k ks fs leaf e in
      elim (copied base fs w h) [
        | inl (gs, m, _, a, p) ↦
            let (x, b, c) = merge_fields_merged k (copy_fields gs) m fs u a o n in
            subst (λ z. at_path (k ∷ ks) z ≡ some (copy leaf)) (sym p)
              (path_join k ks m x b
                ∙ deep_merge_wins ks (find k (copy_fields gs)) u x leaf c (find_once k fs u o n) e'
                    l)
        | inr p ↦
            subst (λ z. at_path (k ∷ ks) z ≡ some (copy leaf)) (sym p)
              (at_path-copy (k ∷ ks) (mapping fs) leaf e)
      ]
  deep_merge_wins (k ∷ ks) base (scalar v) w leaf h o e l = cc
  deep_merge_wins (k ∷ ks) base (plain_list v) w leaf h o e l = cc
  deep_merge_wins (k ∷ ks) base (append_list v) w leaf h o e l = cc
  deep_merge_wins (k ∷ ks) base (merge_by_list j v) w leaf h o e l = cc
