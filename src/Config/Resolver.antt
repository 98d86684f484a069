-- ===== src/Config/Resolver.antt =====
-- src/ingestion_framework/config/resolver.py: what is done to the merged configuration of a table
-- before its placeholders are expanded. A configuration is what the merge has made of the layers.
pub mod Derived
pub mod Layout
use Prim.Native.Char.{Char, code}
use oracle_repo.Base.{
  String, ◌==◌, Bool, true, false, not, ◌&&◌, Option, none, some, List, [], ◌∷◌, eqb, if◌then◌else◌,
}
use oracle_repo.Base.Text.{lower}
use oracle_repo.RunSpec.{Value, null, bool, number, text}
use oracle_repo.Platform.{
  config_load_error, config_resolution_error, external, Result, ok, err, and_then,
}
use oracle_repo.Config.Tree.{
  Config, Items, Fields, scalar, plain_list, append_list, merge_by_list, mapping, nil, cons, end,
  field, find, put,
}

-- What Python makes of a value: whether a number is true, `str(value)`, and `dict(value)` of a
-- value that is no mapping.
pub record Python : Type 0 where
  pub number_true : String → Bool
  pub str_of : Config → String
  pub dict_of : Config → Result Fields

add_character : Char → List String → List String
add_character c [] = String.◌∷◌ c "" ∷ []
add_character c (s ∷ parts) = String.◌∷◌ c s ∷ parts

-- `s.split(".")`
split_dots : String → List String
unfolding add_character
split_dots String.[] = "" ∷ []
split_dots (String.◌∷◌ c s) =
    let parts = split_dots s in if eqb (code c) b'.' then "" ∷ parts else add_character c parts

-- Exactly one dot makes two parts.
domain_and_table : List String → Result (String × String)
domain_and_table (domain ∷ table ∷ []) = ok (domain, table)
domain_and_table _ = err config_load_error

unfoldable pub split_fqn : String → Result (String × String)
unfolding split_dots domain_and_table
split_fqn table_fqn = domain_and_table (split_dots table_fqn)

unfoldable pub has_items : Items → Bool
has_items nil = false
has_items (cons x xs) = true

unfoldable pub characters : String → Items
characters String.[] = nil
characters (String.◌∷◌ c s) = cons (scalar (text (String.◌∷◌ c ""))) (characters s)

unfoldable pub keys : Fields → Items
keys end = nil
keys (field k v fs) = cons (scalar (text k)) (keys fs)

-- `list(value)`
unfoldable pub list_of : Config → Result Items
unfolding characters keys
list_of (plain_list xs) = ok xs
list_of (append_list xs) = ok xs
list_of (merge_by_list key xs) = ok xs
list_of (mapping fs) = ok (keys fs)
list_of (scalar (text s)) = ok (characters s)
list_of (scalar _) = err (external "TypeError" "not iterable")

-- `value == s` for a text `s`
unfoldable pub is_text : String → Option Config → Bool
is_text s (some (scalar (text t))) = t == s
is_text s _ = false

-- `d.setdefault(key, value)`
put_missing : String → Config → Fields → Fields
unfolding find put
put_missing key value fs = elim (find key fs) [ none ↦ put key value fs | some v ↦ fs ]

module _ (python : Python) where
  -- `bool(value)`
  unfoldable pub truthy : Config → Bool
  unfolding has_items
  truthy (scalar null) = false
  truthy (scalar (bool b)) = b
  truthy (scalar (number n)) = python.number_true n
  truthy (scalar (text s)) = not (s == "")
  truthy (scalar _) = true
  truthy (plain_list xs) = has_items xs
  truthy (append_list xs) = has_items xs
  truthy (merge_by_list key xs) = has_items xs
  truthy (mapping end) = false
  truthy (mapping (field k v fs)) = true

  -- `bool(d.get(key))`
  unfoldable pub is_set : Option Config → Bool
  unfolding truthy
  is_set none = false
  is_set (some v) = truthy v

  -- `dict(value or {})`
  unfoldable pub as_dict : Option Config → Result Fields
  unfolding truthy
  as_dict none = ok end
  as_dict (some (mapping fs)) = ok fs
  as_dict (some v) = if truthy v then python.dict_of v else ok end

  -- `value or {}`, whose `get` is called
  unfoldable pub as_mapping : Option Config → Result Fields
  unfolding truthy
  as_mapping none = ok end
  as_mapping (some (mapping fs)) = ok fs
  as_mapping (some v) =
      if truthy v then err (external "AttributeError" "no attribute 'get'") else ok end

  -- The check of `resolve` on the name that an environment's file declares.
  unfoldable pub declares : String → Fields → Bool
  unfolding is_set is_text find
  declares env env_cfg =
      let declared = find "env" env_cfg in not (is_set declared && not (is_text env declared))

  overrides_block : Option Config → Result Fields
  unfolding truthy
  overrides_block none = ok end
  overrides_block (some (mapping fs)) = ok fs
  overrides_block (some v) = if truthy v then err config_resolution_error else python.dict_of v

  all_overrides : Option Config → Result Fields
  unfolding truthy
  all_overrides none = ok end
  all_overrides (some (mapping fs)) = ok fs
  all_overrides (some v) = if truthy v then err config_resolution_error else ok end

  unfoldable pub env_overrides_for : Fields → String → Result Fields
  unfolding all_overrides overrides_block find
  env_overrides_for env_cfg table_fqn =
      and_then (all_overrides (find "overrides" env_cfg))
        (λ overrides. overrides_block (find table_fqn overrides))

  unfoldable pub stamped : Fields → Fields → String → String → String → Fields
  unfolding put put_missing
  stamped cfg table_block domain table env =
      let table_block' =
        put_missing "name" (scalar (text table))
          (put "domain" (scalar (text domain)) table_block) in
      put "env" (scalar (text env)) (put "table" (mapping table_block') cfg)

  unfoldable pub apply_identity : Fields → String → String → String → Result Fields
  unfolding stamped as_dict is_set is_text find
  apply_identity cfg domain table env = and_then (as_dict (find "table" cfg)) (λ table_block.
      let declared = find "domain" table_block in
      if is_set declared && not (is_text domain declared)
      then err config_resolution_error
      else ok (stamped cfg table_block domain table env))

  -- The target's table, named after the source object.
  unfoldable pub named : Option Config → Fields → Fields
  unfolding is_set truthy find put lower
  named none target = target
  named (some source_object) target =
      if not (is_set (find "table_name" target)) && truthy source_object
      then put "table_name" (scalar (text (lower (python.str_of source_object)))) target
      else target

  -- `if test: target[key] = list(value)`
  unfoldable pub listed : Bool → String → Option Config → Fields → Result Fields
  unfolding list_of put
  listed test key none target = ok target
  listed test key (some value) target =
      if test
      then and_then (list_of value) (λ xs. ok (put key (plain_list xs) target))
      else ok target

  -- The merge keys, those of the business key if there are none.
  unfoldable pub keyed : Option Config → Fields → Result Fields
  unfolding listed is_set find
  keyed business_key target =
      listed (not (is_set (find "merge_keys" target)) && is_set business_key) "merge_keys"
        business_key target

  -- The columns that a merged target without a layout is clustered by.
  unfoldable pub clustered : Fields → Result Fields
  unfolding listed is_set is_text find
  clustered target =
      listed
        (is_text "merge" (find "write_mode" target)
          && (not (is_set (find "cluster_by" target))
              && (not (is_set (find "partition_by" target)) && is_set (find "merge_keys" target))))
        "cluster_by" (find "merge_keys" target) target

  unfoldable pub derive_target : Fields → Fields → Result Fields
  unfolding named keyed clustered find
  derive_target table_block target =
      and_then
        (keyed (find "business_key" table_block) (named (find "source_object" table_block) target))
        clustered

  unfoldable pub apply_derived_defaults : Fields → Result Fields
  unfolding as_mapping as_dict derive_target find put
  apply_derived_defaults cfg = and_then (as_dict (find "target" cfg)) (λ target.
      and_then (as_mapping (find "table" cfg)) (λ table_block.
        and_then (derive_target table_block target)
          (λ target'. ok (put "target" (mapping target') cfg))))
