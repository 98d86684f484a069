-- ===== src/Base/Lists.antt =====
-- Lists as Python uses them: `any`, `all`, comprehensions with a test, lengths on native numbers.
use Prim.Native.Nat.{ℕ, suc, ◌+◌}
use mathlib.Core.Path.{◌≡◌, refl, ap}
use mathlib.Core.Bool.{Bool, true, false, ◌&&◌, ◌||◌}
use mathlib.Core.Option.{Option, none, some}
use mathlib.Core.List.{List, [], ◌∷◌, ◌++◌, map}
use native.Mathlib.Omega.{arith}
use mathlib.Core.Logic.{inl, inr}
use oracle_repo.Base.Tests.{Bool-cases, if◌then◌else◌}

module _ {ℓ} {A : Type ℓ} where
  abbrev pub length : List A → ℕ
  length [] = 0
  length (x ∷ xs) = suc (length xs)

  abbrev pub any : (A → Bool) → List A → Bool
  any p [] = false
  any p (x ∷ xs) = p x || any p xs

  abbrev pub all : (A → Bool) → List A → Bool
  all p [] = true
  all p (x ∷ xs) = p x && all p xs

  -- `[x for x in xs if p(x)]`
  abbrev pub filter : (A → Bool) → List A → List A
  filter p [] = []
  filter p (x ∷ xs) = let rest = filter p xs in if p x then x ∷ rest else rest

  abbrev pub head? : List A → Option A
  head? [] = none
  head? (x ∷ xs) = some x

  abbrev pub is_empty : List A → Bool
  is_empty [] = true
  is_empty (x ∷ xs) = false

  abbrev pub All {κ} : (A → Type κ) → List A → Type κ
  All P [] = Unit
  All P (x ∷ xs) = P x × All P xs

  pub length-append : (xs ys : List A) → length (xs ++ ys) ≡ length xs + length ys
  length-append [] ys = omega arith
  length-append (x ∷ xs) ys = omega (arith, length-append xs ys)

  pub any-append : (p : A → Bool) (xs ys : List A) → any p (xs ++ ys) ≡ (any p xs || any p ys)
  any-append p [] ys = refl
  any-append p (x ∷ xs) ys = ground (arith, any-append p xs ys)

  pub all-append : (p : A → Bool) (xs ys : List A) → all p (xs ++ ys) ≡ (all p xs && all p ys)
  all-append p [] ys = refl
  all-append p (x ∷ xs) ys = ground (arith, all-append p xs ys)

  pub all-filter : (p q : A → Bool) (xs : List A) → all p xs ≡ true → all p (filter q xs) ≡ true
  all-filter p q [] h = refl
  all-filter p q (x ∷ xs) h = elim (Bool-cases (q x)) [
    | inl e ↦ rw e (ground (arith, h, all-filter p q xs (ground (arith, h))))
    | inr e ↦ rw e (all-filter p q xs (ground (arith, h)))
  ]

  pub filter-cong :
      (p q : A → Bool) (xs : List A) → ((a : A) → p a ≡ q a) → filter p xs ≡ filter q xs
  filter-cong p q [] h = refl
  filter-cong p q (x ∷ xs) h = rw (h x, filter-cong p q xs h) refl

  pub All-append {κ} : (P : A → Type κ) (xs ys : List A) → All P xs → All P ys → All P (xs ++ ys)
  All-append P [] ys hx hy = hy
  All-append P (x ∷ xs) ys hx hy = (hx.0, All-append P xs ys hx.1 hy)

pub length-map {ℓ κ} :
    {A : Type ℓ} {B : Type κ} (xs : List A) (f : A → B) → length (map f xs) ≡ length xs
length-map [] f = refl
length-map (x ∷ xs) f = ap suc (length-map xs f)

pub data In {ℓ} {A : Type ℓ} (a : A) : List A → Type ℓ where
  first : {xs : List A} → In a (a ∷ xs)
  later : {x : A} {xs : List A} → In a xs → In a (x ∷ xs)

module _ {ℓ} {A : Type ℓ} where
  pub In-any : {a : A} {xs : List A} (p : A → Bool) → In a xs → p a ≡ true → any p xs ≡ true
  In-any p first h = ground (arith, h)
  In-any p (later i) h = ground (arith, In-any p i h)

  pub In-all : {a : A} {xs : List A} (p : A → Bool) → In a xs → all p xs ≡ true → p a ≡ true
  In-all p first h = ground (arith, h)
  In-all p (later i) h = In-all p i (ground (arith, h))

  pub In-filter : {a : A} {xs : List A} (p : A → Bool) → In a xs → p a ≡ true → In a (filter p xs)
  In-filter p (first {xs}) h = rw h first
  In-filter p (later {x} {xs} i) h = elim (Bool-cases (p x)) [
    | inl e ↦ rw e (later (In-filter p i h))
    | inr e ↦ rw e (In-filter p i h)
  ]

  -- Nothing passes a test that each element fails.
  pub filter-none :
      (p : A → Bool) (xs : List A) → ((a : A) → In a xs → p a ≡ false) → filter p xs ≡ []
  filter-none p [] h = refl
  filter-none p (x ∷ xs) h = rw (h x first, filter-none p xs (λ a i. h a (later i))) refl

  pub In-append_left : {a : A} {xs : List A} (ys : List A) → In a xs → In a (xs ++ ys)
  In-append_left ys first = first
  In-append_left ys (later i) = later (In-append_left ys i)

  pub In-append_right : {a : A} {ys : List A} (xs : List A) → In a ys → In a (xs ++ ys)
  In-append_right [] i = i
  In-append_right (x ∷ xs) i = later (In-append_right xs i)

pub In-map {ℓ κ} :
    {A : Type ℓ} {B : Type κ} {a : A} {xs : List A} (f : A → B) → In a xs → In (f a) (map f xs)
In-map f first = first
In-map f (later i) = later (In-map f i)
