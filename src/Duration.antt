-- ===== src/Duration.antt =====
-- src/ingestion_framework/utils/duration.py. A `timedelta` of whole seconds is their number.
-- The digits are those of ASCII, and `timedelta`'s upper limit is left out.
pub mod Digits
pub mod Fields
pub mod Inverse
use Prim.Native.Char.{Char, code}
use oracle_repo.Base.{
  ℕ, ◌+◌, ◌-◌, ◌*◌, ◌/◌, ◌%◌, String, ◌<>◌, ◌==◌, Bool, true, false, not, ◌&&◌, Option, none, some,
  eqb, leb, if◌then◌else◌,
}
use oracle_repo.Base.Text.{show}

abbrev pub is_digit : Char → Bool
is_digit c = leb b'0' (code c) && leb (code c) b'9'

-- `\d*`, with the value read so far
unfoldable pub read_digits : ℕ → String → ℕ × String
read_digits n String.[] = (n, "")
read_digits n (String.◌∷◌ c s) =
    let rest = read_digits (n * 10 + (code c - b'0')) s in
    if is_digit c then rest else (n, String.◌∷◌ c s)

-- `(?=\d)`
unfoldable pub digit_ahead : String → Bool
digit_ahead String.[] = false
digit_ahead (String.◌∷◌ c s) = is_digit c

-- `$`, which also matches before a last line feed
unfoldable pub at_end : String → Bool
at_end String.[] = true
at_end (String.◌∷◌ c s) = eqb (code c) 10 && s == ""

-- The text after a letter, if it is next.
unfoldable pub after : ℕ → String → Option String
after letter String.[] = none
after letter (String.◌∷◌ c s) = if eqb (code c) letter then some s else none

-- `(?:(\d+)X)?`: its value, 0 where it is absent, and the text after it.
unfoldable pub field : ℕ → String → ℕ × String
unfolding read_digits digit_ahead after
field letter s =
    if digit_ahead s
    then elim (after letter (read_digits 0 s).1) [
      | none ↦ (0, s)
      | some rest ↦ ((read_digits 0 s).0, rest)
    ]
    else (0, s)

-- `(?:(\d+)H)?(?:(\d+)M)?(?:(\d+)S)?` in seconds
unfoldable pub clock_part : String → ℕ × String
unfolding field
clock_part s =
    let (h, s1) = field b'H' s in
    let (m, s2) = field b'M' s1 in let (n, s3) = field b'S' s2 in (h * 3600 + m * 60 + n, s3)

-- `(?:T(?=\d)…)?`
unfoldable pub time_part : String → ℕ × String
unfolding clock_part after digit_ahead
time_part s = elim (after b'T' s) [
  | none ↦ (0, s)
  | some t ↦ if digit_ahead t then clock_part t else (0, s)
]

-- What follows the `P`.
unfoldable pub parse_body : String → Option ℕ
unfolding at_end field time_part
parse_body s =
    let (d, s1) = field b'D' s in
    let (n, s2) = time_part s1 in if not (at_end s) && at_end s2 then some (d * 86400 + n) else none

-- `none` for a `DurationParseError`
unfoldable pub parse_duration : String → Option ℕ
unfolding after parse_body
parse_duration s =
    if s == "" then some 0 else elim (after b'P' s) [ none ↦ none | some body ↦ parse_body body ]

-- `f"{n}X" if n else ""`
abbrev pub part : ℕ → String → String
part n letter = if eqb n 0 then "" else show n <> letter

unfoldable pub format_duration : ℕ → String
format_duration total =
    let days = total / 86400 in
    let rest = total % 86400 in
    let hours = rest / 3600 in
    let rest' = rest % 3600 in
    let time = part hours "H" <> (part (rest' / 60) "M" <> part (rest' % 60) "S") in
    if eqb total 0
    then "PT0S"
    else "P" <> (part days "D" <> (if time == "" then "" else "T" <> time))
