-- ===== src/Platform.antt =====
-- Exceptions, and what the framework takes from outside its own source: decimals and the text
-- formats of `datetime`, the comparison that the SQL engine makes, the clock, fresh identifiers
-- and the failures of the SQL client.
-- An instant is the number of microseconds since `datetime.min`; a date is its day number.
use oracle_repo.Base.{
  refl, ap, ◌∙◌, if◌then◌else◌, ◌⊎◌, inl, inr, ℕ, ◌≤◌, ◌<◌, ◌≡◌, ◌*◌, ◌/◌, String, Bool, true,
  false, Option, none, some,
}
use oracle_repo.Base.Text.{strip, replace_t}
use oracle_repo.Base.Int.{ℤ}
use oracle_repo.RunSpec.{Value}
use oracle_repo.Engine.Checks.{ReconciliationReport}

pub data Error : Type 0 where
  watermark_error : Error
  overflow_error : Error
  control_state_error : Error
  duration_parse_error : Error
  sql_build_error : Error
  dependency_error : Error
  extraction_error : Error
  load_error : Error
  channel_parse_error : Error
  control_schema_error : Error
  bundle_error : Error
  config_merge_error : Error
  config_load_error : Error
  config_resolution_error : Error
  reconciliation_failure : ReconciliationReport → Error
  -- an exception of Spark, JDBC or the SQL client: its type's name and its text
  external : String → String → Error

-- `type(error).__name__`
unfoldable pub type_name : Error → String
type_name watermark_error = "WatermarkError"
type_name overflow_error = "OverflowError"
type_name control_state_error = "ControlStateError"
type_name duration_parse_error = "DurationParseError"
type_name sql_build_error = "SqlBuildError"
type_name dependency_error = "DependencyError"
type_name extraction_error = "ExtractionError"
type_name load_error = "LoadError"
type_name channel_parse_error = "ChannelParseError"
type_name control_schema_error = "ControlSchemaError"
type_name bundle_error = "BundleError"
type_name config_merge_error = "ConfigMergeError"
type_name config_load_error = "ConfigLoadError"
type_name config_resolution_error = "ConfigResolutionError"
type_name (reconciliation_failure report) = "ReconciliationFailure"
type_name (external name text) = name

pub data Result (A : Type 0) : Type 0 where
  ok : A → Result A
  err : Error → Result A

abbrev pub and_then : {A B : Type 0} → Result A → (A → Result B) → Result B
and_then (ok a) f = f a
and_then (err e) f = err e

pub Result-cases :
    {A : Type 0} (r : Result A) → ((a : A) × (r ≡ ok a)) ⊎ ((e : Error) × (r ≡ err e))
Result-cases (ok a) = inl (a, refl)
Result-cases (err e) = inr (e, refl)

pub ok-injective : {A : Type 0} {a b : A} → ok a ≡ ok b → a ≡ b
ok-injective h = cc

-- A chain that returns has a first step that returned.
pub and_then_ok :
    {A B : Type 0} (r : Result A) (f : A → Result B) (b : B)
    → and_then r f ≡ ok b
    → (a : A) × (r ≡ ok a) × (f a ≡ ok b)
and_then_ok (ok a) f b h = (a, refl, h)
and_then_ok (err e) f b h = cc

pub then_ok :
    {A B : Type 0} {r : Result A} (f : A → Result B) {a : A} {b : B}
    → r ≡ ok a
    → f a ≡ ok b
    → and_then r f ≡ ok b
then_ok f h k = ap (λ r. and_then r f) h ∙ k

-- What a guard that passes returns.
pub guard_returns :
    {A : Type 0} {b : Bool} (a : A) (e : Error)
    → b ≡ true
    → (x : A) × ((if b then ok a else err e) ≡ ok x)
guard_returns a e h = (a, rw h refl)

pub then_returns :
    {A B : Type 0} {r : Result A} (f : A → Result B) {a : A}
    → r ≡ ok a
    → (b : B) × (f a ≡ ok b)
    → (b : B) × (and_then r f ≡ ok b)
then_returns f h (b, k) = (b, then_ok f h k)

-- `TIMESTAMP_FORMAT`, "%Y-%m-%d %H:%M:%S" and `DATE_FORMAT`
pub data Format : Type 0 where
  timestamp_format seconds_format date_format : Format

-- The casts of `_CAST_BY_TYPE`
pub data Cast : Type 0 where
  to_timestamp to_date to_decimal : Cast

pub record Platform : Type 1 where
  pub Decimal : Type 0
  -- `Decimal(text)`, `none` for `InvalidOperation`
  pub decimal : String → Option Decimal
  -- `str(decimal)`
  pub decimal_text : Decimal → String
  pub decimal_gt : Decimal → Decimal → Bool
  -- `datetime.strptime`, `none` for `ValueError`, and `strftime`
  pub strptime : Format → String → Option ℕ
  pub strftime : Format → ℕ → String
  -- `str` of a date and of a datetime
  pub date_text : ℕ → String
  pub datetime_text : ℕ → String
  -- `int((end - start).total_seconds() * 1000)`, in floating point
  pub duration_ms : ℕ → ℕ → ℤ
  -- `str(error)`
  pub error_text : Error → String
  -- `re`: the codes outside ASCII that `\d` and `\w` match; and what `re.sub` makes of a
  -- replacement text that has a backslash in it
  pub wide_digit : ℕ → Bool
  pub wide_word : ℕ → Bool
  pub expand : String → Result String
  -- `int(value)` of a count, `none` for `TypeError` and `ValueError`
  pub to_count : Value → Option ℕ
  -- whether the SQL comparison `new > old`, both cast, is TRUE
  pub newer : Cast → String → String → Bool
  -- the exception that the n-th call of the SQL client raises, if it raises one
  pub fault : ℕ → Option Error
  -- the n-th reading of the clock, and the n-th fresh identifier
  pub now : ℕ → ℕ
  pub new_id : ℕ → String
  -- Oracle, the Spark session and the Delta tables; and a data frame
  pub Lake : Type 0
  pub Frame : Type 0

-- Documented behaviour that the theorems rely on.
pub record IsOrdered (p : Platform) : Type 0 where
  -- SQL's `>` is a strict order on what the texts are cast to.
  pub newer_irrefl : (c : Cast) (a : String) → p.newer c a a ≡ false
  pub newer_trans :
      (c : Cast) (a b d : String)
      → p.newer c a b ≡ true
      → p.newer c b d ≡ true
      → p.newer c a d ≡ true

-- From the year 1000 on (the instant `from`), `strptime` reads what `strftime` writes, to the
-- precision of the format. What `strftime` writes has no outer space and no `T`.
pub record IsCalendar (p : Platform) (from : ℕ) : Type 0 where
  pub written_clean : (f : Format) (t : ℕ) → replace_t (strip (p.strftime f t)) ≡ p.strftime f t
  pub read_timestamp :
      (t : ℕ) → from ≤ t → p.strptime timestamp_format (p.strftime timestamp_format t) ≡ some t
  pub read_date :
      (t : ℕ)
      → from ≤ t
      → p.strptime date_format (p.strftime date_format t) ≡ some (t / 86400000000 * 86400000000)
  pub date_no_timestamp : (t : ℕ) → p.strptime timestamp_format (p.strftime date_format t) ≡ none
  pub date_no_seconds : (t : ℕ) → p.strptime seconds_format (p.strftime date_format t) ≡ none
  pub read_decimal : (d : p.Decimal) → p.decimal (p.decimal_text d) ≡ some d

-- The characters outside ASCII have codes from 128 on.
pub record IsWide (p : Platform) : Type 0 where
  pub digit_wide : (c : ℕ) → p.wide_digit c ≡ true → 127 < c
