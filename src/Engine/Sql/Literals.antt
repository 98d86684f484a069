-- ===== src/Engine/Sql/Literals.antt =====
-- src/ingestion_framework/engine/sql_builder.py: literals and identifiers. The patterns of `re`
-- are written out; `\d` also matches digits outside ASCII, and `$` before a final newline.
pub mod Safety
use Prim.Native.Char.{Char, code}
use oracle_repo.Base.{
  ℕ, zero, suc, String, ◌<>◌, ◌==◌, Bool, true, false, ◌&&◌, ◌||◌, not, Option, none, some, eqb,
  if◌then◌else◌,
}
use oracle_repo.Base.Text.{lower}
use oracle_repo.Base.Text.Scan.{has_char, is_letter, is_decimal, at_end}
use oracle_repo.Platform.{Platform, sql_build_error, Result, ok, err}

module _ (p : Platform) where
  unfoldable pub is_digit : ℕ → Bool
  is_digit c = is_decimal c || p.wide_digit c

  -- Whether a character is what a place of a mask asks for: `9` stands for a digit.
  abbrev pub fits_char : ℕ → ℕ → Bool
  fits_char m c = if eqb m b'9' then is_digit c else eqb c m

  -- What is left of a text whose start fits the mask.
  unfoldable pub after_mask : String → String → Option String
  unfolding is_digit
  after_mask String.[] s = some s
  after_mask (String.◌∷◌ m mask) String.[] = none
  after_mask (String.◌∷◌ m mask) (String.◌∷◌ c s) =
      let rest = after_mask mask s in if fits_char (code m) (code c) then rest else none

  -- Up to `n` more digits, then the end.
  unfoldable pub digits_end : ℕ → String → Bool
  unfolding is_digit
  digits_end zero s = at_end s
  digits_end (suc n) String.[] = true
  digits_end (suc n) (String.◌∷◌ c s) =
      let more = digits_end n s in at_end (String.◌∷◌ c s) || (is_digit (code c) && more)

  -- The end, or a point and one to six digits.
  unfoldable pub fraction_end : String → Bool
  unfolding is_digit digits_end
  fraction_end (String.◌∷◌ c (String.◌∷◌ d s)) =
      eqb (code c) b'.' && (is_digit (code d) && digits_end 5 s)
  fraction_end s = at_end s

  -- `_CANONICAL_DATE` and `_CANONICAL_TIMESTAMP`
  unfoldable pub canonical_date : String → Bool
  unfolding after_mask
  canonical_date s = elim (after_mask "9999-99-99" s) [ none ↦ false | some rest ↦ at_end rest ]

  unfoldable pub canonical_timestamp : String → Bool
  unfolding after_mask fraction_end
  canonical_timestamp s = elim (after_mask "9999-99-99 99:99:99" s) [
    | none ↦ false
    | some rest ↦ fraction_end rest
  ]

  -- The number as `Decimal` writes it.
  number_literal : Option p.Decimal → Result String
  number_literal none = err sql_build_error
  number_literal (some d) = ok (p.decimal_text d)

  abbrev pub date_sql : String → String
  date_sql s = "TO_DATE('" <> (s <> "', 'YYYY-MM-DD')")

  abbrev pub timestamp_sql : String → String
  timestamp_sql s = "TO_TIMESTAMP('" <> (s <> "', 'YYYY-MM-DD HH24:MI:SS.FF6')")

  abbrev pub with_fraction : String → String
  with_fraction s = if has_char b'.' s then s else s <> ".000000"

  unfoldable pub literal : Option String → String → Result String
  unfolding number_literal canonical_date canonical_timestamp
  literal none watermark_type = err sql_build_error
  literal (some s) watermark_type =
      let wtype = lower watermark_type in
      if wtype == "number"
      then number_literal (p.decimal s)
      else if wtype == "date"
      then if canonical_date s then ok (date_sql s) else err sql_build_error
      else if wtype == "timestamp"
      then if canonical_timestamp s
        then ok (timestamp_sql (with_fraction s))
        else err sql_build_error
      else err sql_build_error

-- `[A-Za-z0-9_$#]*`, to the end
identifier_rest : String → Bool
identifier_rest String.[] = true
identifier_rest (String.◌∷◌ c s) =
    let more = identifier_rest s in
    at_end (String.◌∷◌ c s)
    || ((is_letter (code c)
          || (is_decimal (code c)
              || (eqb (code c) b'_' || (eqb (code c) b'$' || eqb (code c) b'#'))))
        && more)

-- `[^"]*"`, to the end, after at least one character
quoted_rest : String → Bool
quoted_rest String.[] = false
quoted_rest (String.◌∷◌ c s) =
    let more = quoted_rest s in if eqb (code c) b'"' then at_end s else more

-- `_ORACLE_IDENT`
unfoldable pub oracle_ident : String → Bool
unfolding identifier_rest quoted_rest
oracle_ident String.[] = false
oracle_ident (String.◌∷◌ c String.[]) = is_letter (code c)
oracle_ident (String.◌∷◌ c (String.◌∷◌ d s)) =
    if eqb (code c) b'"'
    then not (eqb (code d) b'"') && quoted_rest s
    else is_letter (code c) && identifier_rest (String.◌∷◌ d s)

unfoldable pub identifier : String → Result String
unfolding oracle_ident
identifier name = if oracle_ident name then ok name else err sql_build_error
