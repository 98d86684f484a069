-- ===== src/Base/Text.antt =====
-- Python's `str` methods that the program uses, on native texts. Case is that of ASCII letters.
pub mod Cases
pub mod Clean
pub mod Scan
use Prim.Native.Char.{Char, code}
use Prim.Native.Nat.{ℕ, zero, suc, ◌+◌, ◌/◌, ◌%◌}
use Prim.Native.String.{String, ◌++◌ as ◌<>◌}
use mathlib.Core.Bool.{Bool, true, false, ◌||◌, ◌&&◌}
use mathlib.Core.List.{List, [], ◌∷◌}
use text.Mathlib.Text.{◌==◌}
use oracle_repo.Base.Tests.{eqb, leb, ltb, if◌then◌else◌}

-- The character of a one-letter table entry with the same code as `c`, or `c`.
swap_char : List (Char × Char) → Char → Char
swap_char [] c = c
swap_char ((a, b) ∷ table) c = if eqb (code a) (code c) then b else swap_char table c

abbrev letters : List (Char × Char)
letters =
    ("A", "a")
    ∷ ("B", "b")
    ∷ ("C", "c")
    ∷ ("D", "d")
    ∷ ("E", "e")
    ∷ ("F", "f")
    ∷ ("G", "g")
    ∷ ("H", "h")
    ∷ ("I", "i")
    ∷ ("J", "j")
    ∷ ("K", "k")
    ∷ ("L", "l")
    ∷ ("M", "m")
    ∷ ("N", "n")
    ∷ ("O", "o")
    ∷ ("P", "p")
    ∷ ("Q", "q")
    ∷ ("R", "r")
    ∷ ("S", "s")
    ∷ ("T", "t")
    ∷ ("U", "u")
    ∷ ("V", "v")
    ∷ ("W", "w")
    ∷ ("X", "x")
    ∷ ("Y", "y")
    ∷ ("Z", "z")
    ∷ []

abbrev flip : List (Char × Char) → List (Char × Char)
flip [] = []
flip ((a, b) ∷ table) = (b, a) ∷ flip table

map_chars : (Char → Char) → String → String
map_chars f String.[] = String.[]
map_chars f (String.◌∷◌ c s) = String.◌∷◌ (f c) (map_chars f s)

-- `s.lower()` and `s.upper()`
unfoldable pub lower : String → String
unfolding map_chars swap_char
lower s = map_chars (swap_char letters) s

unfoldable pub upper : String → String
unfolding map_chars swap_char
upper s = map_chars (swap_char (flip letters)) s

is_space : Char → Bool
is_space c = eqb (code c) 32 || (leb 9 (code c) && leb (code c) 13)

lstrip : String → String
lstrip String.[] = String.[]
lstrip (String.◌∷◌ c s) = let rest = lstrip s in if is_space c then rest else String.◌∷◌ c s

is_nil : String → Bool
is_nil String.[] = true
is_nil (String.◌∷◌ c s) = false

rstrip : String → String
rstrip String.[] = String.[]
rstrip (String.◌∷◌ c s) =
    let rest = rstrip s in if is_space c && is_nil rest then String.[] else String.◌∷◌ c rest

-- `s.strip()`
unfoldable pub strip : String → String
unfolding lstrip rstrip is_space is_nil
strip s = rstrip (lstrip s)

-- `s.replace("T", " ")`
unfoldable pub replace_t : String → String
unfolding map_chars swap_char
replace_t s = map_chars (swap_char (("T", " ") ∷ [])) s

-- `sep.join(parts)`
unfoldable pub join : String → List String → String
join sep [] = ""
join sep (s ∷ []) = s
join sep (s ∷ t ∷ rest) = s <> (sep <> join sep (t ∷ rest))

-- `not s`
abbrev pub is_blank : String → Bool
is_blank s = s == ""

unfoldable pub digit : ℕ → Char
digit zero = "0"
digit (suc zero) = "1"
digit (suc (suc zero)) = "2"
digit (suc (suc (suc zero))) = "3"
digit (suc (suc (suc (suc zero)))) = "4"
digit (suc (suc (suc (suc (suc zero))))) = "5"
digit (suc (suc (suc (suc (suc (suc zero)))))) = "6"
digit (suc (suc (suc (suc (suc (suc (suc zero))))))) = "7"
digit (suc (suc (suc (suc (suc (suc (suc (suc zero)))))))) = "8"
digit _ = "9"

unfoldable pub digits_onto : ℕ → ℕ → String → String
digits_onto zero n acc = acc
digits_onto (suc fuel) n acc =
    let acc' = String.◌∷◌ (digit (n % 10)) acc in
    let rest = digits_onto fuel (n / 10) acc' in if ltb n 10 then acc' else rest

-- `str(n)`
unfoldable pub show : ℕ → String
unfolding digits_onto digit
show n = digits_onto (n + 1) n ""

-- `s[:n]` and the characters after it, counted as characters.
unfoldable pub take_chars : ℕ → String → String
take_chars zero s = ""
take_chars (suc n) String.[] = ""
take_chars (suc n) (String.◌∷◌ c s) = String.◌∷◌ c (take_chars n s)

unfoldable pub drop_chars : ℕ → String → String
drop_chars zero s = s
drop_chars (suc n) String.[] = ""
drop_chars (suc n) (String.◌∷◌ c s) = drop_chars n s

-- `s.replace("'", "''")`
unfoldable pub double_quotes : String → String
double_quotes String.[] = String.[]
double_quotes (String.◌∷◌ c s) =
    let rest = double_quotes s in
    if eqb (code c) b'\'' then String.◌∷◌ c (String.◌∷◌ c rest) else String.◌∷◌ c rest

is_alphanumeric : ℕ → Bool
is_alphanumeric c =
    (leb b'0' c && leb c b'9') || ((leb b'A' c && leb c b'Z') || (leb b'a' c && leb c b'z'))

underscored : Char → Char
unfolding is_alphanumeric
underscored c = if is_alphanumeric (code c) then c else "_"

drop_underscores : String → String
drop_underscores String.[] = String.[]
drop_underscores (String.◌∷◌ c s) =
    let rest = drop_underscores s in if eqb (code c) b'_' then rest else String.◌∷◌ c s

drop_last_underscores : String → String
unfolding is_nil
drop_last_underscores String.[] = String.[]
drop_last_underscores (String.◌∷◌ c s) =
    let rest = drop_last_underscores s in
    if eqb (code c) b'_' && is_nil rest then String.[] else String.◌∷◌ c rest

-- `re.sub(r"[^A-Za-z0-9_]", "_", s)`, an underscore being replaced by itself
unfoldable pub underscore_all : String → String
unfolding map_chars underscored
underscore_all s = map_chars underscored s

-- `re.sub(r"[^A-Za-z0-9]", "_", s).strip("_")`
unfoldable pub sanitize : String → String
unfolding map_chars underscored drop_underscores drop_last_underscores
sanitize s = drop_last_underscores (drop_underscores (map_chars underscored s))
