-- ===== src/Config/Tree.antt =====
-- Configuration data as YAML gives it, with the tagged lists of
-- src/ingestion_framework/config/merger.py. A mapping is the list of its entries in their order.
pub mod Laws
use oracle_repo.Base.{
  ℕ, zero, suc, String, ◌==◌, Bool, true, false, Option, none, some, if◌then◌else◌,
}
use oracle_repo.RunSpec.{Value}

mutual
  pub data Config : Type 0 where
    scalar : Value → Config
    plain_list : Items → Config
    append_list : Items → Config
    merge_by_list : String → Items → Config
    mapping : Fields → Config

  pub data Items : Type 0 where
    nil : Items
    cons : Config → Items → Items

  pub data Fields : Type 0 where
    end : Fields
    field : String → Config → Fields → Fields

-- `_copy`: a deep copy in which a tagged list is a plain one.
unfoldable mutual
  pub copy : Config → Config
  copy (scalar v) = scalar v
  copy (plain_list xs) = plain_list (copy_items xs)
  copy (append_list xs) = plain_list (copy_items xs)
  copy (merge_by_list key xs) = plain_list (copy_items xs)
  copy (mapping fs) = mapping (copy_fields fs)

  pub copy_items : Items → Items
  copy_items nil = nil
  copy_items (cons x xs) = cons (copy x) (copy_items xs)

  pub copy_fields : Fields → Fields
  copy_fields end = end
  copy_fields (field k v fs) = field k (copy v) (copy_fields fs)

-- `d.get(key)`
unfoldable pub find : String → Fields → Option Config
find key end = none
find key (field k v fs) = let rest = find key fs in if k == key then some v else rest

-- `d[key] = value`, which keeps the place of a key that is there.
unfoldable pub put : String → Config → Fields → Fields
put key value end = field key value end
put key value (field k v fs) =
    let rest = put key value fs in if k == key then field k value fs else field k v rest

-- The entries of a list; of anything else, and of nothing, there are none.
unfoldable pub list_items : Option Config → Items
list_items (some (plain_list xs)) = xs
list_items (some (append_list xs)) = xs
list_items (some (merge_by_list key xs)) = xs
list_items _ = nil

unfoldable pub append_items : Items → Items → Items
append_items nil ys = ys
append_items (cons x xs) ys = cons x (append_items xs ys)

unfoldable pub count_items : Items → ℕ
count_items nil = 0
count_items (cons x xs) = suc (count_items xs)

unfoldable pub item_at : ℕ → Items → Option Config
item_at n nil = none
item_at zero (cons x xs) = some x
item_at (suc n) (cons x xs) = item_at n xs

-- `xs[n] = y`
unfoldable pub set_item : ℕ → Config → Items → Items
set_item n y nil = nil
set_item zero y (cons x xs) = cons y xs
set_item (suc n) y (cons x xs) = cons x (set_item n y xs)
