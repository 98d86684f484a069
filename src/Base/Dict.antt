-- ===== src/Base/Dict.antt =====
-- Python's `dict` with texts as keys, its entries in their order, and `sorted` with a text as key.
use Prim.Native.Nat.Ordering.{gt}
use Prim.Native.String.{String, compare}
use mathlib.Core.Path.{◌≡◌, refl}
use mathlib.Core.Bool.{false}
use mathlib.Core.Option.{Option, none, some}
use mathlib.Core.Logic.{inl, inr}
use mathlib.Core.List.{List, [], ◌∷◌}
use text.Mathlib.Text.{◌==◌}
use text.Mathlib.TextPositions.{eq_refl}
use text.Mathlib.TextEquality.{eq_iff}
use native.Mathlib.Omega.{arith}
use oracle_repo.Base.Tests.{Bool-cases, if◌then◌else◌}

module _ {ℓ} {A : Type ℓ} where
  -- `d.get(key)`
  unfoldable pub get : String → List (String × A) → Option A
  get key [] = none
  get key ((k, v) ∷ d) = let rest = get key d in if k == key then some v else rest

  -- `d[key] = value`
  unfoldable pub put : String → A → List (String × A) → List (String × A)
  put key value [] = (key, value) ∷ []
  put key value ((k, v) ∷ d) =
      let rest = put key value d in if k == key then (k, value) ∷ d else (k, v) ∷ rest

  -- `d.update(more)`
  unfoldable pub put_all : List (String × A) → List (String × A) → List (String × A)
  unfolding put
  put_all [] d = d
  put_all ((k, v) ∷ more) d = put_all more (put k v d)

  -- `d.setdefault(key, value)`
  unfoldable pub put_default : String → A → List (String × A) → List (String × A)
  unfolding get put
  put_default key value d = elim (get key d) [ none ↦ put key value d | some v ↦ d ]

  pub get-put_self : (k : String) (x : A) (d : List (String × A)) → get k (put k x d) ≡ some x
  unfolding get put
  get-put_self k x [] = ground (arith, eq_refl k)
  get-put_self k x (e ∷ d) = ground (arith, eq_refl k, get-put_self k x d)

  pub get-put_ne :
      (j k : String) (x : A) (d : List (String × A))
      → (j == k) ≡ false
      → get k (put j x d) ≡ get k d
  unfolding get put
  get-put_ne j k x [] h = ground (arith, h)
  get-put_ne j k x (e ∷ d) h = elim (Bool-cases (e.0 == j)) [
    | inl t ↦ rw (t, (eq_iff e.0 j).0 t, h) refl
    | inr t ↦ rw t (rw (get-put_ne j k x d h) refl)
  ]

  -- `sorted(xs, key=…)`, which keeps the order of equal keys
  unfoldable pub insert_sorted : (A → String) → A → List A → List A
  insert_sorted key x [] = x ∷ []
  insert_sorted key x (y ∷ ys) =
      let later = insert_sorted key x ys in
      elim (compare (key x) (key y)) [ gt ↦ y ∷ later | _ ↦ x ∷ y ∷ ys ]

  unfoldable pub sorted : (A → String) → List A → List A
  unfolding insert_sorted
  sorted key [] = []
  sorted key (x ∷ xs) = insert_sorted key x (sorted key xs)
