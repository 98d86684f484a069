-- ===== src/Tests/Configs.antt =====
-- The theorems on the merge of configuration layers at concrete inputs.
use oracle_repo.Base.{
  refl, ◌≡◌, String, ◌==◌, Bool, true, false, not, Option, none, some, List, [], ◌∷◌,
}
use oracle_repo.RunSpec.{Value, number, text}
use oracle_repo.Platform.{ok, err, external}
use oracle_repo.Config.Tree.{
  Config, Fields, scalar, plain_list, append_list, mapping, nil, cons, end, field, copy, find,
}
use oracle_repo.Config.Tree.Laws.{plain_fields, keys_once, at_path}
use oracle_repo.Config.Resolver.{Python, truthy, apply_derived_defaults}
use oracle_repo.Config.Resolver.Derived.{Sets, apply_derived_defaults-Sets}
use oracle_repo.Config.Resolver.Layout.{laid_out, apply_derived_defaults-laid_out}
use oracle_repo.Config.Merger.{merge_layers}
use oracle_repo.Config.Merger.Wins.{passes_by}
use oracle_repo.Config.Merger.Layers.{all_pass_by, merge_layers_last}
use oracle_repo.Config.Merger.Plain.{merge_layers_plain}
use oracle_repo.Config.Merger.Total.{merge_layers_total}

abbrev same_text : Value → Value → Bool
same_text (text a) (text b) = a == b
same_text _ _ = false

abbrev word : String → Config
word s = scalar (text s)

-- Global settings, those of an environment, and those of a table.
abbrev global_layer : Fields
global_layer = field "runtime" (mapping (field "retries" (scalar (number "1")) end)) (
    field "alerting" (mapping (field "on_failure" (plain_list (cons (word "email:a") nil)) end))
      end)

abbrev env_layer : Fields
env_layer =
    field "runtime"
      (mapping (field "retries" (scalar (number "3")) (field "enabled" (word "yes") end))) end

abbrev table_layer : Fields
table_layer =
    field "alerting" (mapping (field "on_failure" (append_list (cons (word "slack:b") nil)) end))
      end

abbrev three_layers : List (Option Fields)
three_layers = some global_layer ∷ some env_layer ∷ some table_layer ∷ []

abbrev merged_layers : Fields
merged_layers =
    field "runtime"
      (mapping (field "retries" (scalar (number "3")) (field "enabled" (word "yes") end)))
      (field "alerting"
        (mapping
          (field "on_failure" (plain_list (cons (word "email:a") (cons (word "slack:b") nil))) end))
        end)

layers_merge : merge_layers same_text three_layers ≡ ok merged_layers
unfolding merge_layers
layers_merge = refl

env_once : keys_once (mapping env_layer) ≡ true
unfolding keys_once
env_once = refl

env_sets : at_path ("runtime" ∷ "retries" ∷ []) (mapping env_layer) ≡ some (scalar (number "3"))
unfolding at_path
env_sets = refl

table_passes_by : all_pass_by ("runtime" ∷ "retries" ∷ []) (some table_layer ∷ []) ≡ true
unfolding passes_by keys_once
table_passes_by = refl

merge_layers_last_example :
    at_path ("runtime" ∷ "retries" ∷ []) (mapping merged_layers) ≡ some (scalar (number "3"))
unfolding copy
merge_layers_last_example =
    merge_layers_last same_text ("runtime" ∷ "retries" ∷ []) (some global_layer ∷ []) env_layer
      (some table_layer ∷ []) merged_layers (scalar (number "3")) layers_merge env_once env_sets
      refl table_passes_by

merge_layers_plain_example : plain_fields merged_layers ≡ true
merge_layers_plain_example = merge_layers_plain same_text three_layers merged_layers layers_merge

merge_layers_total_example :
    (merged : Fields) × (merge_layers same_text (some global_layer ∷ none ∷ some env_layer ∷ [])
      ≡ ok merged)
unfolding plain_fields
merge_layers_total_example =
    merge_layers_total same_text (some global_layer ∷ none ∷ some env_layer ∷ []) refl

-- A table that names its source object and its business key, and a target that is merged into.
abbrev table_fields : Fields
table_fields =
    field "source_object" (word "ORDERS")
      (field "business_key" (plain_list (cons (word "order_id") nil)) end)

abbrev target_fields : Fields
target_fields = field "write_mode" (word "merge") end

abbrev config_before : Fields
config_before = field "table" (mapping table_fields) (field "target" (mapping target_fields) end)

abbrev filled_fields : Fields
filled_fields = field "write_mode" (word "merge") (
    field "table_name" (word "orders") (
      field "merge_keys" (plain_list (cons (word "order_id") nil))
        (field "cluster_by" (plain_list (cons (word "order_id") nil)) end)))

abbrev config_after : Fields
config_after = field "table" (mapping table_fields) (field "target" (mapping filled_fields) end)

abbrev sample_python : Python
sample_python = record {
  number_true = λ n. not (n == "0");
  str_of = λ v. "ORDERS";
  dict_of = λ v. err (external "TypeError" "not iterable");
}

defaults_filled : apply_derived_defaults sample_python config_before ≡ ok config_after
unfolding apply_derived_defaults
defaults_filled = refl

target_before : find "target" config_before ≡ some (mapping target_fields)
unfolding find
target_before = refl

mode_before : Sets sample_python "write_mode" (word "merge") target_fields
unfolding find truthy
mode_before = (refl, refl)

apply_derived_defaults-Sets_example :
    (target' : Fields) × (find "target" config_after ≡ some (mapping target'))
    × (find "write_mode" target' ≡ some (word "merge"))
    × (find "table" config_after ≡ find "table" config_before)
apply_derived_defaults-Sets_example =
    apply_derived_defaults-Sets sample_python config_before config_after target_fields "write_mode"
      (word "merge") "table" target_before mode_before refl defaults_filled

apply_derived_defaults-laid_out_example :
    (target : Fields) × (find "target" config_after ≡ some (mapping target))
    × (laid_out sample_python target ≡ true)
apply_derived_defaults-laid_out_example =
    apply_derived_defaults-laid_out sample_python config_before config_after defaults_filled
