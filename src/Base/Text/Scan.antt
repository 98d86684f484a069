-- ===== src/Base/Text/Scan.antt =====
-- Texts read character by character: tests on all characters or on some, and a final newline.
use Prim.Native.Char.{code}
use Prim.Native.Nat.{ℕ}
use Prim.Native.String.{String}
use mathlib.Core.Bool.{Bool, true, false, ◌&&◌, ◌||◌}
use mathlib.Core.Option.{Option, none, some}
use oracle_repo.Base.Tests.{eqb, leb, if◌then◌else◌}

abbrev pub all_chars : (ℕ → Bool) → String → Bool
all_chars p String.[] = true
all_chars p (String.◌∷◌ c s) = p (code c) && all_chars p s

-- Whether the character with this code occurs.
abbrev pub has_char : ℕ → String → Bool
has_char q String.[] = false
has_char q (String.◌∷◌ c s) = eqb (code c) q || has_char q s

-- A-Z and a-z; and 0-9
abbrev pub is_letter : ℕ → Bool
is_letter c = (leb b'A' c && leb c b'Z') || (leb b'a' c && leb c b'z')

abbrev pub is_decimal : ℕ → Bool
is_decimal c = leb b'0' c && leb c b'9'

-- Whether a text is over for `$`, which also matches before a final newline.
abbrev pub at_end : String → Bool
at_end String.[] = true
at_end (String.◌∷◌ c String.[]) = eqb (code c) 10
at_end (String.◌∷◌ c (String.◌∷◌ d s)) = false

-- `s.startswith(prefix)`
unfoldable pub has_prefix : String → String → Bool
has_prefix String.[] s = true
has_prefix (String.◌∷◌ q prefix) String.[] = false
has_prefix (String.◌∷◌ q prefix) (String.◌∷◌ c s) = eqb (code q) (code c) && has_prefix prefix s

is_nil : String → Bool
is_nil String.[] = true
is_nil (String.◌∷◌ c s) = false

drop_first : ℕ → String → String
drop_first q String.[] = String.[]
drop_first q (String.◌∷◌ c s) =
    let rest = drop_first q s in if eqb (code c) q then rest else String.◌∷◌ c s

drop_last : ℕ → String → String
unfolding is_nil
drop_last q String.[] = String.[]
drop_last q (String.◌∷◌ c s) =
    let rest = drop_last q s in
    if eqb (code c) q && is_nil rest then String.[] else String.◌∷◌ c rest

-- `s.strip(q)` for one character, by its code
unfoldable pub strip_char : ℕ → String → String
unfolding drop_first drop_last
strip_char q s = drop_last q (drop_first q s)

-- `[A-Za-z0-9_]*`, to the end
identifier_rest : String → Bool
identifier_rest String.[] = true
identifier_rest (String.◌∷◌ c s) =
    let more = identifier_rest s in
    at_end (String.◌∷◌ c s)
    || ((is_letter (code c) || (is_decimal (code c) || eqb (code c) b'_')) && more)

-- `^[A-Za-z_][A-Za-z0-9_]*$`
unfoldable pub plain_identifier : String → Bool
unfolding identifier_rest
plain_identifier String.[] = false
plain_identifier (String.◌∷◌ c s) = (is_letter (code c) || eqb (code c) b'_') && identifier_rest s

-- `s.split(q, 1)` at the first character with this code, `none` where there is none
unfoldable pub split_first : ℕ → String → Option (String × String)
split_first q String.[] = none
split_first q (String.◌∷◌ c s) =
    let rest = split_first q s in
    if eqb (code c) q
    then some ("", s)
    else elim rest [ none ↦ none | some parts ↦ some (String.◌∷◌ c parts.0, parts.1) ]
