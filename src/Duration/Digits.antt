-- ===== src/Duration/Digits.antt =====
-- Reading back the digits of a number.
use Prim.Native.Char.{code}
use text.Mathlib.TextLemmas.{nil-append, cons-append}
use oracle_repo.Base.{
  refl, ◌≡◌, ap, ◌∙◌, inl, inr, ℕ, zero, suc, ◌+◌, ◌-◌, ◌*◌, ◌/◌, ◌%◌, ◌<◌, String, ◌<>◌, true,
  false, Bool-cases, some, none, ltb, arith,
}
use oracle_repo.Base.Text.{show, digit, digits_onto}
use oracle_repo.Duration.{is_digit, read_digits, digit_ahead, after, field}

digit_value : (d : ℕ) → d < 10 → (is_digit (digit d) ≡ true) × (code (digit d) - 48 ≡ d)
unfolding digit
digit_value zero h = (refl, refl)
digit_value (suc zero) h = (refl, refl)
digit_value (suc (suc zero)) h = (refl, refl)
digit_value (suc (suc (suc zero))) h = (refl, refl)
digit_value (suc (suc (suc (suc zero)))) h = (refl, refl)
digit_value (suc (suc (suc (suc (suc zero))))) h = (refl, refl)
digit_value (suc (suc (suc (suc (suc (suc zero)))))) h = (refl, refl)
digit_value (suc (suc (suc (suc (suc (suc (suc zero))))))) h = (refl, refl)
digit_value (suc (suc (suc (suc (suc (suc (suc (suc zero)))))))) h = (refl, refl)
digit_value (suc (suc (suc (suc (suc (suc (suc (suc (suc n))))))))) h = (refl, omega (arith, h))

read_digit :
    (n d : ℕ) (s : String)
    → d < 10
    → read_digits n (String.◌∷◌ (digit d) s) ≡ read_digits (n * 10 + d) s
unfolding read_digits
read_digit n d s h = rw ((digit_value d h).0, (digit_value d h).1) refl

-- The digits that are put before a text are read as the number.
pub read_digits-digits_onto :
    (fuel n : ℕ) (s : String) → n < fuel → read_digits 0 (digits_onto fuel n s) ≡ read_digits n s
unfolding digits_onto
read_digits-digits_onto zero n s h = ground (arith, h)
read_digits-digits_onto (suc fuel) n s h = elim (Bool-cases (ltb n 10)) [
  | inl e ↦
      rw e (read_digit 0 (n % 10) s (omega arith) ∙ ap (λ k. read_digits k s) (ground (arith, e)))
  | inr e ↦ rw e (
      read_digits-digits_onto fuel (n / 10) (String.◌∷◌ (digit (n % 10)) s) (ground (arith, e, h))
      ∙ read_digit (n / 10) (n % 10) s (omega arith)
      ∙ ap (λ k. read_digits k s) (omega arith))
]

digits_onto-append :
    (fuel n : ℕ) (s t : String) → (digits_onto fuel n s <> t) ≡ digits_onto fuel n (s <> t)
unfolding digits_onto
digits_onto-append zero n s t = refl
digits_onto-append (suc fuel) n s t = elim (Bool-cases (ltb n 10)) [
  | inl e ↦ rw e (cons-append (digit (n % 10)) s t)
  | inr e ↦ rw e (
      digits_onto-append fuel (n / 10) (String.◌∷◌ (digit (n % 10)) s) t
      ∙ ap (digits_onto fuel (n / 10)) (cons-append (digit (n % 10)) s t))
]

pub still_ahead :
    (fuel n : ℕ) (s : String) → digit_ahead s ≡ true → digit_ahead (digits_onto fuel n s) ≡ true
unfolding digits_onto digit_ahead
still_ahead zero n s h = h
still_ahead (suc fuel) n s h = elim (Bool-cases (ltb n 10)) [
  | inl e ↦ rw e (digit_value (n % 10) (omega arith)).0
  | inr e ↦ rw e (
      still_ahead fuel (n / 10) (String.◌∷◌ (digit (n % 10)) s)
        (digit_value (n % 10) (omega arith)).0)
]

some_ahead : (fuel n : ℕ) (s : String) → 0 < fuel → digit_ahead (digits_onto fuel n s) ≡ true
unfolding digits_onto digit_ahead
some_ahead zero n s h = ground (arith, h)
some_ahead (suc fuel) n s h = elim (Bool-cases (ltb n 10)) [
  | inl e ↦ rw e (digit_value (n % 10) (omega arith)).0
  | inr e ↦ rw e (
      still_ahead fuel (n / 10) (String.◌∷◌ (digit (n % 10)) s)
        (digit_value (n % 10) (omega arith)).0)
]

-- The written number before a text.
pub show-ahead : (n : ℕ) (s : String) → digit_ahead (show n <> s) ≡ true
unfolding show
show-ahead n s =
    ap digit_ahead (digits_onto-append (n + 1) n "" s)
    ∙ some_ahead (n + 1) n ("" <> s) (omega arith)

pub read_digits-show : (n : ℕ) (s : String) → read_digits 0 (show n <> s) ≡ read_digits n s
unfolding show
read_digits-show n s =
    ap (read_digits 0) (digits_onto-append (n + 1) n "" s)
    ∙ read_digits-digits_onto (n + 1) n ("" <> s) (omega arith)
    ∙ ap (read_digits n) (nil-append s)

-- Whether a text starts with a character that is no digit, or is empty.
no_digit : (n : ℕ) (s : String) → digit_ahead s ≡ false → read_digits n s ≡ (n, s)
unfolding read_digits digit_ahead
no_digit n String.[] h = refl
no_digit n (String.◌∷◌ c s) h = rw h refl

-- A field is read to its letter; where another letter follows the digits, it is absent.
pub field_here :
    (letter n : ℕ) (s rest : String)
    → digit_ahead s ≡ false
    → after letter s ≡ some rest
    → field letter (show n <> s) ≡ (n, rest)
unfolding field
field_here letter n s rest h e =
    let read = read_digits-show n s ∙ no_digit n s h in
    rw (show-ahead n s) (rw read (rw e (ap (λ x. (x.0, rest)) read)))

pub field_absent :
    (letter n : ℕ) (s : String)
    → digit_ahead s ≡ false
    → after letter s ≡ none
    → field letter (show n <> s) ≡ (0, show n <> s)
unfolding field
field_absent letter n s h e = rw (show-ahead n s, read_digits-show n s, no_digit n s h, e) refl

pub field_none : (letter : ℕ) (s : String) → digit_ahead s ≡ false → field letter s ≡ (0, s)
unfolding field
field_none letter s h = rw h refl
