-- ===== src/Config/Tree/Laws.antt =====
-- Entries of mappings, and what a copy is.
use oracle_repo.Base.{
  refl, ◌≡◌, sym, ◌∙◌, ap, subst, eq_refl, Option-cases, inl, inr, String, ◌==◌, Bool, true, false,
  ◌&&◌, Bool-cases, Option, none, some, List, [], ◌∷◌, eq_iff, arith,
}
use mathlib.Core.Option.{some-injective}
use oracle_repo.Config.Tree.{
  Config, Items, Fields, scalar, plain_list, append_list, merge_by_list, mapping, nil, cons, end,
  field, copy, copy_items, copy_fields, find, put, append_items,
}

-- No tagged list anywhere.
unfoldable mutual
  pub is_plain : Config → Bool
  is_plain (scalar v) = true
  is_plain (plain_list xs) = plain_items xs
  is_plain (append_list xs) = false
  is_plain (merge_by_list key xs) = false
  is_plain (mapping fs) = plain_fields fs

  pub plain_items : Items → Bool
  plain_items nil = true
  plain_items (cons x xs) = is_plain x && plain_items xs

  pub plain_fields : Fields → Bool
  plain_fields end = true
  plain_fields (field k v fs) = is_plain v && plain_fields fs

mutual
  unfolding copy is_plain

  pub copy_plain : (c : Config) → is_plain (copy c) ≡ true
  copy_plain (scalar v) = refl
  copy_plain (plain_list xs) = copy_items_plain xs
  copy_plain (append_list xs) = copy_items_plain xs
  copy_plain (merge_by_list key xs) = copy_items_plain xs
  copy_plain (mapping fs) = copy_fields_plain fs

  pub copy_items_plain : (xs : Items) → plain_items (copy_items xs) ≡ true
  copy_items_plain nil = refl
  copy_items_plain (cons x xs) = ground (arith, copy_plain x, copy_items_plain xs)

  pub copy_fields_plain : (fs : Fields) → plain_fields (copy_fields fs) ≡ true
  copy_fields_plain end = refl
  copy_fields_plain (field k v fs) = ground (arith, copy_plain v, copy_fields_plain fs)

mutual
  unfolding copy is_plain

  pub copy_id : (c : Config) → is_plain c ≡ true → copy c ≡ c
  copy_id (scalar v) h = refl
  copy_id (plain_list xs) h = ap plain_list (copy_items_id xs h)
  copy_id (append_list xs) h = cc
  copy_id (merge_by_list key xs) h = cc
  copy_id (mapping fs) h = ap mapping (copy_fields_id fs h)

  pub copy_items_id : (xs : Items) → plain_items xs ≡ true → copy_items xs ≡ xs
  copy_items_id nil h = refl
  copy_items_id (cons x xs) h = ground (arith, h, copy_id x, copy_items_id xs)

  pub copy_fields_id : (fs : Fields) → plain_fields fs ≡ true → copy_fields fs ≡ fs
  copy_fields_id end h = refl
  copy_fields_id (field k v fs) h = ground (arith, h, copy_id v, copy_fields_id fs)

pub find-put_self : (k : String) (x : Config) (fs : Fields) → find k (put k x fs) ≡ some x
unfolding find put
find-put_self k x end = ground (arith, eq_refl k)
find-put_self k x (field j v fs) = ground (arith, eq_refl k, find-put_self k x fs)

pub find-put_ne :
    (j k : String) (x : Config) (fs : Fields) → (j == k) ≡ false → find k (put j x fs) ≡ find k fs
unfolding find put
find-put_ne j k x end h = ground (arith, h)
find-put_ne j k x (field i v fs) h = ground (arith, h, find-put_ne j k x fs h, (eq_iff i j).0)

pub put_plain :
    (k : String) (x : Config) (fs : Fields)
    → is_plain x ≡ true
    → plain_fields fs ≡ true
    → plain_fields (put k x fs) ≡ true
unfolding put is_plain
put_plain k x end h u = ground (arith, h)
put_plain k x (field j v fs) h u = ground (arith, h, u, put_plain k x fs h)

pub find-copy_fields :
    (k : String) (fs : Fields)
    → find k (copy_fields fs) ≡ elim (find k fs) [ none ↦ none | some v ↦ some (copy v) ]
unfolding find copy
find-copy_fields k end = refl
find-copy_fields k (field j v fs) = ground (arith, find-copy_fields k fs)

pub append_plain :
    (xs ys : Items)
    → plain_items xs ≡ true
    → plain_items ys ≡ true
    → plain_items (append_items xs ys) ≡ true
unfolding is_plain append_items
append_plain nil ys h u = u
append_plain (cons x xs) ys h u = ground (arith, h, u, append_plain xs ys)

abbrev pub is_none : Option Config → Bool
is_none none = true
is_none (some u) = false

none_lem : (o : Option Config) → is_none o ≡ true → o ≡ none
none_lem none h = refl
none_lem (some u) h = cc

pub and_parts : (a b c : Bool) → (a && (b && c)) ≡ true → (a ≡ true) × ((b ≡ true) × (c ≡ true))
and_parts true true true h = (refl, (refl, refl))
and_parts true true false h = cc
and_parts true false c h = cc
and_parts false b c h = cc

-- No mapping, at any depth of mappings, has a key twice.
unfoldable mutual
  unfolding find

  pub keys_once : Config → Bool
  keys_once (mapping fs) = fields_once fs
  keys_once _ = true

  pub fields_once : Fields → Bool
  fields_once end = true
  fields_once (field k v fs) = is_none (find k fs) && (keys_once v && fields_once fs)

-- What a path of keys leads to.
unfoldable pub at_path : List String → Config → Option Config
unfolding find
at_path [] c = some c
at_path (k ∷ ks) (mapping fs) = elim (find k fs) [ none ↦ none | some v ↦ at_path ks v ]
at_path (k ∷ ks) _ = none

pub find_head :
    (j k : String) (v : Config) (fs : Fields) → (j == k) ≡ true → find k (field j v fs) ≡ some v
unfolding find
find_head j k v fs h = ground (arith, h)

pub find_tail :
    (j k : String) (v : Config) (fs : Fields) → (j == k) ≡ false → find k (field j v fs) ≡ find k fs
unfolding find
find_tail j k v fs h = ground (arith, h)

pub same_entry :
    (j k : String) (v u : Config) (fs : Fields)
    → (j == k) ≡ true
    → find k (field j v fs) ≡ some u
    → v ≡ u
same_entry j k v u fs t e = some-injective v u (sym (find_head j k v fs t) ∙ e)

pub once_lem :
    (k : String) (v : Config) (fs : Fields)
    → fields_once (field k v fs) ≡ true
    → (find k fs ≡ none) × ((keys_once v ≡ true) × (fields_once fs ≡ true))
unfolding keys_once
once_lem k v fs h =
    let parts = and_parts (is_none (find k fs)) (keys_once v) (fields_once fs) h in
    (none_lem (find k fs) parts.0, parts.1)

pub find_once :
    (k : String) (fs : Fields) (u : Config)
    → fields_once fs ≡ true
    → find k fs ≡ some u
    → keys_once u ≡ true
unfolding keys_once find
find_once k end u h e = cc
find_once k (field j v fs) u h e = elim (Bool-cases (j == k)) [
  | inl t ↦ subst (λ x. keys_once x ≡ true) (same_entry j k v u fs t e) (once_lem j v fs h).1.0
  | inr t ↦ find_once k fs u (once_lem j v fs h).1.1 (sym (find_tail j k v fs t) ∙ e)
]

pub at_path-copy :
    (ks : List String) (c u : Config) → at_path ks c ≡ some u → at_path ks (copy c) ≡ some (copy u)
unfolding at_path copy
at_path-copy [] c u e = ground (arith, e)
at_path-copy (k ∷ ks) (mapping fs) u e = elim (Option-cases (find k fs)) [
  | inl n ↦ ground (arith, n, e)
  | inr (v, n) ↦ ground (arith, n, e, find-copy_fields k fs, at_path-copy ks v u)
]
at_path-copy (k ∷ ks) (scalar v) u e = cc
at_path-copy (k ∷ ks) (plain_list xs) u e = cc
at_path-copy (k ∷ ks) (append_list xs) u e = cc
at_path-copy (k ∷ ks) (merge_by_list j xs) u e = cc
