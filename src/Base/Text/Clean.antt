-- ===== src/Base/Text/Clean.antt =====
-- Texts that `strip` and the replacement of `T` leave as they are.
use Prim.Native.Char.{Char, code}
use Prim.Native.String.{String}
use mathlib.Core.Path.{◌≡◌, refl, ap, ◌∙◌}
use mathlib.Core.Bool.{Bool, true, false, not, ◌&&◌}
use native.Mathlib.Omega.{arith}
use oracle_repo.Base.Tests.{eqb, leb}
use oracle_repo.Base.Text.{is_space, lstrip, rstrip, strip, replace_t, swap_char, map_chars}

-- Neither a space nor `T`, by its code: from `!` on, and not 84.
abbrev is_clean : Char → Bool
is_clean c = leb 33 (code c) && not (eqb 84 (code c))

abbrev pub all_clean : String → Bool
all_clean String.[] = true
all_clean (String.◌∷◌ c s) = is_clean c && all_clean s

clean_lem : (c : Char) → is_clean c ≡ true → (is_space c ≡ false) × (eqb 84 (code c) ≡ false)
unfolding is_space
clean_lem c h = (ground (arith, h), ground (arith, h))

rstrip-clean : (s : String) → all_clean s ≡ true → rstrip s ≡ s
unfolding rstrip
rstrip-clean String.[] h = refl
rstrip-clean (String.◌∷◌ c s) h =
    ground (arith, h, rstrip-clean s, (clean_lem c (ground (arith, h))).0)

lstrip-clean : (s : String) → all_clean s ≡ true → lstrip s ≡ s
unfolding lstrip
lstrip-clean String.[] h = refl
lstrip-clean (String.◌∷◌ c s) h = ground (arith, h, (clean_lem c (ground (arith, h))).0)

replace_t-clean : (s : String) → all_clean s ≡ true → replace_t s ≡ s
unfolding replace_t map_chars swap_char
replace_t-clean String.[] h = refl
replace_t-clean (String.◌∷◌ c s) h =
    ground (arith, h, replace_t-clean s, (clean_lem c (ground (arith, h))).1)

-- A clean text is what `strip` and the replacement make of it.
pub clean-strip : (s : String) → all_clean s ≡ true → replace_t (strip s) ≡ s
unfolding strip
clean-strip s h =
    ap (λ t. replace_t (rstrip t)) (lstrip-clean s h)
    ∙ ap replace_t (rstrip-clean s h)
    ∙ replace_t-clean s h
