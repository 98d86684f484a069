-- ===== src/Control/Watermark/Texts.antt =====
-- Canonical texts are read back, and the window of a stored mark is the mark less the overlap.
use oracle_repo.Base.{
  ℕ, ◌-◌, ◌*◌, ◌/◌, ◌≡◌, ◌≤◌, refl, ◌∙◌, ap, inl, inr, String, true, false, not, some, eqb, ltb,
  arith, Bool-cases,
}
use oracle_repo.Base.Text.{lower}
use oracle_repo.RunSpec.{Value, text}
use oracle_repo.Platform.{Platform, IsCalendar, ok, and_then, timestamp_format, date_format}
use oracle_repo.Control.Watermark.{
  WatermarkRecord, day, read_text, to_datetime, to_day, canonical_text, canonicalize, instant,
  parse, rewind, later_window, rewound_window, is_time_type, window_from, compute_window,
}

module _ {p : Platform} {from : ℕ} (calendar : IsCalendar p from) where
  -- A canonical timestamp from the first year that is read back.
  pub to_datetime-timestamp :
      (t : ℕ) → from ≤ t → to_datetime p (text (p.strftime timestamp_format t)) ≡ ok t
  unfolding to_datetime read_text
  to_datetime-timestamp t late =
      rw (calendar.written_clean timestamp_format t, read_text, calendar.read_timestamp t late) refl

  pub days_of : (d : ℕ) → d * day / day ≡ d
  days_of d = omega arith

  read_text-date :
      (d : ℕ) → from ≤ d * day → read_text p (p.strftime date_format (d * day)) ≡ ok (d * day)
  unfolding read_text
  read_text-date d late =
      rw
        (
          read_text,
          calendar.date_no_timestamp (d * day),
          calendar.date_no_seconds (d * day),
          calendar.read_date (d * day) late,
          days_of d,
        )
        refl

  -- A canonical date is read back.
  pub to_day-date :
      (d : ℕ) → from ≤ d * day → to_day p (text (p.strftime date_format (d * day))) ≡ ok d
  unfolding to_day to_datetime
  to_day-date d late =
      rw (calendar.written_clean date_format (d * day), read_text-date d late, days_of d) refl

  parse-timestamp :
      (wtype : String) (t : ℕ)
      → lower wtype ≡ "timestamp"
      → from ≤ t
      → parse p (p.strftime timestamp_format t) wtype ≡ ok (instant t)
  unfolding parse
  parse-timestamp wtype t typed late = rw (typed, to_datetime-timestamp t late) refl

  rewind-timestamp :
      (wtype : String) (overlap t : ℕ)
      → lower wtype ≡ "timestamp"
      → overlap ≤ t
      → rewind p (instant t) overlap wtype ≡ ok (some (p.strftime timestamp_format (t - overlap)))
  unfolding rewind canonicalize canonical_text to_datetime
  rewind-timestamp wtype overlap t typed enough =
      let fits : ltb t overlap ≡ false = ground (arith, enough) in rw (fits, typed) refl

  rewound_window-timestamp :
      (wtype : String) (overlap t : ℕ)
      → lower wtype ≡ "timestamp"
      → from ≤ t
      → overlap ≤ t
      → rewound_window p (p.strftime timestamp_format t) wtype overlap
        ≡ ok (
            later_window p
              (some (p.strftime timestamp_format (t - overlap)))
              (p.strftime timestamp_format t)
              true)
  unfolding rewound_window
  rewound_window-timestamp wtype overlap t typed late enough =
      ap
        (λ m. and_then m λ mark.
          and_then (rewind p mark overlap wtype)
            λ bound. ok (later_window p bound (p.strftime timestamp_format t) true))
        (parse-timestamp wtype t typed late)
      ∙ ap (λ b. and_then b λ bound. ok (later_window p bound (p.strftime timestamp_format t) true))
          (rewind-timestamp wtype overlap t typed enough)

  -- The window of a timestamp mark that stands at the instant `t`, which is read back and not before
  -- the overlap: it starts at the mark less the overlap, and says whether it was rewound.
  pub compute_window-timestamp :
      (r : WatermarkRecord) (wtype : String) (overlap t : ℕ) (default : Value)
      → lower wtype ≡ "timestamp"
      → r.watermark_value ≡ some (p.strftime timestamp_format t)
      → from ≤ t
      → overlap ≤ t
      → compute_window p (some r) wtype overlap default
        ≡ ok (record {
          lower_bound = some (p.strftime timestamp_format (t - overlap));
          stored_value = some (p.strftime timestamp_format t);
          overlap_applied = not (eqb overlap 0);
          is_first_run = false;
        })
  unfolding compute_window window_from rewound_window is_time_type later_window
  compute_window-timestamp r wtype overlap t default typed stored late enough =
      elim (Bool-cases (eqb overlap 0)) [
        | inl zero_overlap ↦
            let none_off : overlap ≡ 0 = ground (arith, zero_overlap) in
            let whole : t - 0 ≡ t = omega arith in rw (stored, none_off, whole) refl
        | inr some_overlap ↦
            let rewinds : is_time_type p wtype ≡ true = rw (is_time_type, typed) refl in
            rw
              (
                stored,
                some_overlap,
                rewinds,
                rewound_window-timestamp wtype overlap t typed late enough,
              )
              refl
      ]
