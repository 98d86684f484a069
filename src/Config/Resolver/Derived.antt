-- ===== src/Config/Resolver/Derived.antt =====
-- What _apply_derived_defaults of config/resolver.py leaves as the files say it.
use oracle_repo.Base.{
  refl, ◌≡◌, sym, ◌∙◌, ap, subst, inl, inr, String, ◌==◌, Bool, true, false, Bool-cases, Option,
  none, some, eq_iff, arith, not, ◌&&◌,
}
use oracle_repo.Base.Text.{lower}
use oracle_repo.RunSpec.{text}
use oracle_repo.Platform.{ok, and_then_ok, ok-injective}
use oracle_repo.Config.Tree.{Config, Fields, scalar, plain_list, mapping, find, put}
use oracle_repo.Config.Tree.Laws.{find-put_self, find-put_ne}
use oracle_repo.Config.Resolver.{
  Python, truthy, is_set, as_dict, as_mapping, list_of, is_text, named, listed, keyed, clustered,
  derive_target, apply_derived_defaults,
}

module _ (python : Python) where
  -- A mapping has a value that is true at a key.
  abbrev pub Sets : String → Config → Fields → Type 0
  Sets key v fs = (find key fs ≡ some v) × (truthy python v ≡ true)

  set_elsewhere :
      (j key : String) (x v : Config) (fs : Fields)
      → is_set python (find j fs) ≡ false
      → Sets key v fs
      → Sets key v (put j x fs)
  unfolding is_set
  set_elsewhere j key x v fs h (e, t) = elim (Bool-cases (j == key)) [
    | inr n ↦ (find-put_ne j key x fs n ∙ e, t)
    | inl same ↦
        let f : find j fs ≡ some v = ap (λ k. find k fs) ((eq_iff j key).0 same) ∙ e in
        ground (arith, t, sym h ∙ ap (is_set python) f)
  ]

  named_keeps :
      (source : Option Config) (key : String) (v : Config) (fs : Fields)
      → Sets key v fs
      → Sets key v (named python source fs)
  unfolding named
  named_keeps none key v fs h = h
  named_keeps (some source) key v fs h = elim (Bool-cases (is_set python (find "table_name" fs))) [
    | inl a ↦ rw a h
    | inr a ↦ elim (Bool-cases (truthy python source)) [
      | inr b ↦ rw (a, b) h
      | inl b ↦
          rw (a, b)
            (set_elsewhere "table_name" key (scalar (text (lower (python.str_of source)))) v fs a h)
    ]
  ]

  listed_keeps :
      (test : Bool) (j : String) (value : Option Config) (key : String) (v : Config)
      (fs fs' : Fields)
      → (test ≡ true → is_set python (find j fs) ≡ false)
      → Sets key v fs
      → listed python test j value fs ≡ ok fs'
      → Sets key v fs'
  unfolding listed
  listed_keeps test j none key v fs fs' free h e = subst (Sets key v) (ok-injective e) h
  listed_keeps false j (some value) key v fs fs' free h e = subst (Sets key v) (ok-injective e) h
  listed_keeps true j (some value) key v fs fs' free h e =
      let (xs, _, q) = and_then_ok (list_of value) (λ xs. ok (put j (plain_list xs) fs)) fs' e in
      subst (Sets key v) (ok-injective q) (set_elsewhere j key (plain_list xs) v fs (free refl) h)

  keyed_keeps :
      (business_key : Option Config) (key : String) (v : Config) (fs fs' : Fields)
      → Sets key v fs
      → keyed python business_key fs ≡ ok fs'
      → Sets key v fs'
  unfolding keyed
  keyed_keeps business_key key v fs fs' h e =
      listed_keeps (not (is_set python (find "merge_keys" fs)) && is_set python business_key)
        "merge_keys" business_key key v fs fs' (λ t. ground (arith, t)) h e

  clustered_keeps :
      (key : String) (v : Config) (fs fs' : Fields)
      → Sets key v fs
      → clustered python fs ≡ ok fs'
      → Sets key v fs'
  unfolding clustered
  clustered_keeps key v fs fs' h e =
      listed_keeps
        (is_text "merge" (find "write_mode" fs)
          && (not (is_set python (find "cluster_by" fs))
              && (not (is_set python (find "partition_by" fs))
                  && is_set python (find "merge_keys" fs))))
        "cluster_by" (find "merge_keys" fs) key v fs fs' (λ t. ground (arith, t)) h e

  derive_target_keeps :
      (table_block : Fields) (key : String) (v : Config) (fs fs' : Fields)
      → Sets key v fs
      → derive_target python table_block fs ≡ ok fs'
      → Sets key v fs'
  unfolding derive_target
  derive_target_keeps table_block key v fs fs' h e =
      let start = named python (find "source_object" table_block) fs in
      let (middle, k, c) =
        and_then_ok (keyed python (find "business_key" table_block) start) (clustered python) fs'
          e in
      clustered_keeps key v middle fs'
        (keyed_keeps (find "business_key" table_block) key v start middle
          (named_keeps (find "source_object" table_block) key v fs h) k)
        c

  as_dict_mapping : (fs : Fields) → as_dict python (some (mapping fs)) ≡ ok fs
  unfolding as_dict
  as_dict_mapping fs = refl

  -- When _apply_derived_defaults returns for a target that is a mapping, a value of the target that
  -- Python takes as true is still at its key, and what stands at any other key of the configuration
  -- is as it was.
  pub apply_derived_defaults-Sets :
      (cfg cfg' target : Fields) (key : String) (v : Config) (other : String)
      → find "target" cfg ≡ some (mapping target)
      → Sets key v target
      → ("target" == other) ≡ false
      → apply_derived_defaults python cfg ≡ ok cfg'
      → (target' : Fields) × (find "target" cfg' ≡ some (mapping target'))
        × (find key target' ≡ some v)
        × (find other cfg' ≡ find other cfg)
  unfolding apply_derived_defaults
  apply_derived_defaults-Sets cfg cfg' target key v other here h ne e =
      let finish : Fields → Fields = λ t. put "target" (mapping t) cfg in
      let (fs, d, e1) = and_then_ok (as_dict python (find "target" cfg)) _ cfg' e in
      let (table_block, _, e2) = and_then_ok (as_mapping python (find "table" cfg)) _ cfg' e1 in
      let (target', k, e3) =
        and_then_ok (derive_target python table_block fs) (λ t. ok (finish t)) cfg' e2 in
      let same : fs ≡ target =
        ok-injective (sym d ∙ ap (as_dict python) here ∙ as_dict_mapping target) in
      let made : finish target' ≡ cfg' = ok-injective e3 in
      (
        target',
        subst (λ c. find "target" c ≡ some (mapping target')) made
            (find-put_self "target" (mapping target') cfg),
        (derive_target_keeps table_block key v fs target' (subst (Sets key v) (sym same) h) k).0,
        subst (λ c. find other c ≡ find other cfg) made
            (find-put_ne "target" other (mapping target') cfg ne),
      )
