-- ===== src/Base/Text/Cases.antt =====
-- `lower` and `upper` of ASCII letters, one after the other.
use Prim.Native.Char.{Char, code}
use Prim.Native.String.{String}
use mathlib.Core.Path.{◌≡◌, refl, sym, ap, ◌∙◌}
use mathlib.Core.Bool.{Bool, true}
use mathlib.Core.Logic.{◌⊎◌, inl, inr}
use mathlib.Core.List.{List, [], ◌∷◌}
use text.Mathlib.Text.{◌==◌}
use text.Mathlib.TextEquality.{Char-path, eq_iff}
use native.Mathlib.Omega.{arith}
use oracle_repo.Base.Tests.{eqb, Bool-cases}
use oracle_repo.Base.Lists.{all, In, first, later, In-all}
use oracle_repo.Base.Text.{swap_char, letters, flip, map_chars, lower, upper}

-- The entry of the table that is used, if there is one.
swap_char_cases :
    (table : List (Char × Char)) (c : Char)
    → (swap_char table c ≡ c)
      ⊎ ((e : Char × Char) × In e table × (code e.0 ≡ code c) × (swap_char table c ≡ e.1))
unfolding swap_char
swap_char_cases [] c = inl refl
swap_char_cases ((a, b) ∷ table) c = elim (Bool-cases (eqb (code a) (code c))) [
  | inl h ↦ inr ((a, b), first, ground (arith, h), rw h refl)
  | inr h ↦ elim (swap_char_cases table c) [
    | inl e ↦ inl (rw h e)
    | inr (e, i, k, s) ↦ inr (e, later i, k, rw h s)
  ]
]

abbrev lower_char : Char → Char
lower_char c = swap_char letters c

abbrev upper_char : Char → Char
upper_char c = swap_char (flip letters) c

abbrev stays_lower : Char × Char → Bool
stays_lower e = eqb (code (lower_char (upper_char e.1))) (code e.1)

abbrev comes_back : Char × Char → Bool
comes_back e = eqb (code (lower_char e.1)) (code e.0)

all_stay : all stays_lower letters ≡ true
unfolding swap_char
all_stay = refl

all_back : all comes_back (flip letters) ≡ true
unfolding swap_char
all_back = refl

same_code : (c d : Char) → eqb (code c) (code d) ≡ true → c ≡ d
same_code c d h = Char-path c d (ground (arith, h))

lower_char_again : (c : Char) → lower_char (upper_char (lower_char c)) ≡ lower_char c
lower_char_again c = elim (swap_char_cases letters c) [
  | inr (e, i, k, s) ↦
      ap (λ x. lower_char (upper_char x)) s
      ∙ same_code (lower_char (upper_char e.1)) e.1 (In-all stays_lower i all_stay)
      ∙ sym s
  | inl s ↦ elim (swap_char_cases (flip letters) c) [
    | inl u ↦ ap (λ x. lower_char (upper_char x)) s ∙ ap lower_char u
    | inr (e, i, k, u) ↦
        ap (λ x. lower_char (upper_char x)) s
        ∙ ap lower_char u
        ∙ same_code (lower_char e.1) e.0 (In-all comes_back i all_back)
        ∙ Char-path e.0 c k
        ∙ sym s
  ]
]

lower_again : (s : String) → lower (upper (lower s)) ≡ lower s
unfolding lower upper map_chars
lower_again String.[] = refl
lower_again (String.◌∷◌ c s) =
    ap (λ x. String.◌∷◌ x (lower (upper (lower s)))) (lower_char_again c)
    ∙ ap (String.◌∷◌ (lower_char c)) (lower_again s)

-- Lower-case texts that agree in any case agree.
pub same_lower : (s t : String) → (upper (lower s) == upper (lower t)) ≡ true → lower s ≡ lower t
same_lower s t h =
    sym (lower_again s)
    ∙ ap lower ((eq_iff (upper (lower s)) (upper (lower t))).0 h)
    ∙ lower_again t
