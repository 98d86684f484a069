-- ===== src/Control/Watermark.antt =====
-- src/ingestion_framework/control/watermark.py: the values of watermarks and the window of a run.
pub mod Texts
pub mod Canonical
use oracle_repo.Base.{
  ℕ, ◌-◌, ◌*◌, ◌/◌, String, ◌==◌, Bool, true, false, not, ◌&&◌, ◌||◌, Option, none, some, ltb, eqb,
  if◌then◌else◌,
}
use oracle_repo.Base.Text.{strip, replace_t, lower, is_blank}
use oracle_repo.RunSpec.{Value, null, bool, number, text, date, datetime}
use oracle_repo.Platform.{
  Platform, watermark_error, overflow_error, Result, ok, err, and_then, timestamp_format,
  seconds_format, date_format, Cast, to_timestamp, to_date, to_decimal,
}
use oracle_repo.Control.Tables.{WatermarkRow}

pub record WatermarkRecord : Type 0 where
  pub table_fqn : String
  pub env : String
  pub watermark_column : Option String
  pub watermark_type : String
  pub watermark_value : Option String
  pub previous_value : Option String
  pub run_id : Option String
  pub updated_at : Option ℕ

-- `row.get("watermark_type") or "timestamp"`
abbrev or_timestamp : Option String → String
or_timestamp none = "timestamp"
or_timestamp (some t) = if is_blank t then "timestamp" else t

unfoldable pub from_row : WatermarkRow → WatermarkRecord
from_row row = record {
  table_fqn = row.table_fqn;
  env = row.env;
  watermark_column = row.watermark_column;
  watermark_type = or_timestamp row.watermark_type;
  watermark_value = row.watermark_value;
  previous_value = row.previous_value;
  run_id = row.run_id;
  updated_at = row.updated_at;
}

pub record WatermarkWindow : Type 0 where
  pub lower_bound : Option String
  pub stored_value : Option String
  pub overlap_applied : Bool
  pub is_first_run : Bool

abbrev pub day : ℕ
day = 86400000000

-- `_CAST_BY_TYPE.get(watermark_type.lower())`
unfoldable pub cast_by_type : String → Option Cast
cast_by_type wtype =
    let t = lower wtype in
    if t == "timestamp"
    then some to_timestamp
    else if t == "date"
    then some to_date
    else if t == "number"
    then some to_decimal
    else none

module _ (p : Platform) where
  -- The first format that reads the text.
  read_text : String → Result ℕ
  read_text s = elim (p.strptime timestamp_format s) [
    | some t ↦ ok t
    | none ↦ elim (p.strptime seconds_format s) [
      | some t ↦ ok t
      | none ↦ elim (p.strptime date_format s) [ some t ↦ ok t | none ↦ err watermark_error ]
    ]
  ]

  unfoldable pub to_datetime : Value → Result ℕ
  unfolding read_text
  to_datetime (datetime t) = ok t
  to_datetime (date d) = ok (d * day)
  to_datetime (text s) = read_text (replace_t (strip s))
  to_datetime (number s) = read_text (replace_t (strip s))
  to_datetime (bool true) = read_text (replace_t (strip "True"))
  to_datetime (bool false) = read_text (replace_t (strip "False"))
  to_datetime null = read_text (replace_t (strip "None"))

  -- `_to_datetime(value).date()`, and the date itself for a date
  pub to_day : Value → Result ℕ
  unfolding to_datetime
  to_day (date d) = ok d
  to_day v = and_then (to_datetime v) (λ t. ok (t / day))

  -- `Decimal(str(value))`. The `str` of a bool, a date or a datetime is no numeral.
  to_number : Value → Result p.Decimal
  to_number (text s) = elim (p.decimal s) [ some d ↦ ok d | none ↦ err watermark_error ]
  to_number (number s) = elim (p.decimal s) [ some d ↦ ok d | none ↦ err watermark_error ]
  to_number v = err watermark_error

  -- Once the value is not None.
  canonical_text : Value → String → Result String
  unfolding to_datetime to_day to_number
  canonical_text v wtype =
      if wtype == "number"
      then and_then (to_number v) (λ d. ok (p.decimal_text d))
      else if wtype == "date"
      then and_then (to_day v) (λ d. ok (p.strftime date_format (d * day)))
      else if wtype == "timestamp"
      then and_then (to_datetime v) (λ t. ok (p.strftime timestamp_format t))
      else err watermark_error

  unfoldable pub canonicalize : Value → String → Result (Option String)
  unfolding canonical_text
  canonicalize null wtype = ok none
  canonicalize v wtype = and_then (canonical_text v (lower wtype)) (λ s. ok (some s))

  -- A comparable Python value.
  pub data Parsed : Type 0 where
    decimal : p.Decimal → Parsed
    day_number : ℕ → Parsed
    instant : ℕ → Parsed

  unfoldable pub parse : String → String → Result Parsed
  unfolding to_datetime to_day to_number
  parse value watermark_type =
      let wtype = lower watermark_type in
      if wtype == "number"
      then and_then (to_number (text value)) (λ d. ok (decimal d))
      else if wtype == "date"
      then and_then (to_day (text value)) (λ d. ok (day_number d))
      else if wtype == "timestamp"
      then and_then (to_datetime (text value)) (λ t. ok (instant t))
      else err watermark_error

  -- `a > b`; two values parsed for one type are of one kind.
  greater : Parsed → Parsed → Bool
  greater (decimal a) (decimal b) = p.decimal_gt a b
  greater (day_number a) (day_number b) = ltb b a
  greater (instant a) (instant b) = ltb b a
  greater _ _ = false

  unfoldable pub should_advance : Option String → Option String → String → Result Bool
  unfolding parse greater
  should_advance current none wtype = ok false
  should_advance none (some candidate) wtype = ok true
  should_advance (some current) (some candidate) wtype =
      and_then (parse candidate wtype)
        λ new. and_then (parse current wtype) λ old. ok (greater new old)

  first_window : Option String → WatermarkWindow
  first_window bound = record {
    lower_bound = bound;
    stored_value = none;
    overlap_applied = false;
    is_first_run = true;
  }

  -- The stored mark, rewound or not.
  later_window : Option String → String → Bool → WatermarkWindow
  later_window bound stored applied = record {
    lower_bound = bound;
    stored_value = some stored;
    overlap_applied = applied;
    is_first_run = false;
  }

  -- `canonicalize(rewound - overlap, …)`; before `datetime.min` the subtraction overflows.
  rewind : Parsed → ℕ → String → Result (Option String)
  unfolding canonicalize
  rewind (instant t) overlap wtype =
      if ltb t overlap then err overflow_error else canonicalize (datetime (t - overlap)) wtype
  rewind (day_number d) overlap wtype =
      if ltb (d * day) overlap
      then err overflow_error
      else canonicalize (date ((d * day - overlap) / day)) wtype
  rewind (decimal d) overlap wtype = err watermark_error

  -- In TIMESTAMP_TYPES
  is_time_type : String → Bool
  is_time_type wtype = lower wtype == "timestamp" || lower wtype == "date"

  rewound_window : String → String → ℕ → Result WatermarkWindow
  unfolding parse rewind later_window
  rewound_window stored wtype overlap =
      and_then (parse stored wtype)
        λ mark. and_then (rewind mark overlap wtype) λ bound. ok (later_window bound stored true)

  unfoldable pub window_from : Option String → String → ℕ → Value → Result WatermarkWindow
  unfolding canonicalize first_window later_window rewound_window is_time_type
  window_from none wtype overlap default =
      and_then (canonicalize default wtype) (λ bound. ok (first_window bound))
  window_from (some stored) wtype overlap default =
      if not (eqb overlap 0) && is_time_type wtype
      then rewound_window stored wtype overlap
      else ok (later_window (some stored) stored false)

  -- `record.watermark_value if record else None`
  abbrev stored_of : Option WatermarkRecord → Option String
  stored_of none = none
  stored_of (some r) = r.watermark_value

  unfoldable pub compute_window :
      Option WatermarkRecord → String → ℕ → Value → Result WatermarkWindow
  unfolding window_from
  compute_window r wtype overlap default = window_from (stored_of r) wtype overlap default
