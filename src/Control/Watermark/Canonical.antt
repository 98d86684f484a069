-- ===== src/Control/Watermark/Canonical.antt =====
-- A canonical text is its own canonical text.
use oracle_repo.Base.{
  ℕ, ◌*◌, ◌/◌, ◌≡◌, ◌≤◌, refl, sym, ◌∙◌, ap, subst, inl, inr, String, ◌==◌, eq_iff, true, false,
  some, arith, Bool-cases,
}
use oracle_repo.Base.Text.{lower}
use oracle_repo.RunSpec.{Value, null, text, date, datetime, bool, number}
use oracle_repo.Platform.{
  Platform, IsCalendar, watermark_error, Result, ok, err, and_then, timestamp_format, date_format,
}
use oracle_repo.Control.Watermark.{
  day, to_datetime, to_day, to_number, canonical_text, canonicalize,
}
use oracle_repo.Control.Watermark.Texts.{to_datetime-timestamp, to_day-date}

-- What a chain of two results returned.
and_then-ok :
    {A B : Type 0} (r : Result A) (f : A → Result B) (b : B)
    → and_then r f ≡ ok b
    → (a : A) × (r ≡ ok a) × (f a ≡ ok b)
and_then-ok (ok a) f b h = (a, refl, h)
and_then-ok (err e) f b h = cc

ok-same : {A : Type 0} {a b : A} → ok a ≡ ok b → a ≡ b
ok-same e = cc

without_some :
    (r : Result String) (s : String) → and_then r (λ x. ok (some x)) ≡ ok (some s) → r ≡ ok s
without_some (ok a) s h = cc
without_some (err e) s h = cc

module _ {p : Platform} {from : ℕ} (calendar : IsCalendar p from) where
  -- The value's day is one that is read back.
  abbrev pub IsDated : Value → Type 0
  IsDated v = (t : ℕ) → to_datetime p v ≡ ok t → from ≤ t / day * day

  number-again :
      (v : Value) (s : String)
      → canonical_text p v "number" ≡ ok s
      → canonical_text p (text s) "number" ≡ ok s
  unfolding canonical_text to_number
  number-again v s h =
      let (d, _, written) = and_then-ok (to_number p v) _ s h in
      subst (λ t. canonical_text p (text t) "number" ≡ ok t) (ok-same written)
        (rw (to_number, calendar.read_decimal d) refl)

  timestamp-again :
      (v : Value) (s : String)
      → IsDated v
      → canonical_text p v "timestamp" ≡ ok s
      → canonical_text p (text s) "timestamp" ≡ ok s
  unfolding canonical_text
  timestamp-again v s dated h =
      let (t, returned, written) = and_then-ok (to_datetime p v) _ s h in
      subst (λ x. canonical_text p (text x) "timestamp" ≡ ok x) (ok-same written)
        (ap (λ r. and_then r (λ t. ok (p.strftime timestamp_format t)))
          (to_datetime-timestamp calendar t (omega (arith, dated t returned))))

  late_day :
      (v : Value) (d : ℕ)
      → IsDated v
      → and_then (to_datetime p v) (λ t. ok (t / day)) ≡ ok d
      → from ≤ d * day
  late_day v d dated h =
      let (t, returned, same) = and_then-ok (to_datetime p v) _ d h in
      omega (arith, dated t returned, ok-same same)

  to_day-late : (v : Value) (d : ℕ) → IsDated v → to_day p v ≡ ok d → from ≤ d * day
  unfolding to_day to_datetime
  to_day-late (date x) d dated h = omega (arith, dated (x * day) refl, ok-same h)
  to_day-late null d dated h = late_day null d dated h
  to_day-late (bool b) d dated h = late_day (bool b) d dated h
  to_day-late (number s) d dated h = late_day (number s) d dated h
  to_day-late (text s) d dated h = late_day (text s) d dated h
  to_day-late (datetime t) d dated h = late_day (datetime t) d dated h

  date-again :
      (v : Value) (s : String)
      → IsDated v
      → canonical_text p v "date" ≡ ok s
      → canonical_text p (text s) "date" ≡ ok s
  unfolding canonical_text
  date-again v s dated h =
      let (d, returned, written) = and_then-ok (to_day p v) _ s h in
      subst (λ x. canonical_text p (text x) "date" ≡ ok x) (ok-same written)
        (ap (λ r. and_then r (λ d. ok (p.strftime date_format (d * day))))
          (to_day-date calendar d (to_day-late v d dated returned)))

  canonical_text-unknown :
      (v : Value) (w : String)
      → (w == "number") ≡ false
      → (w == "date") ≡ false
      → (w == "timestamp") ≡ false
      → canonical_text p v w ≡ err watermark_error
  unfolding canonical_text
  canonical_text-unknown v w no_number no_date no_timestamp =
      rw (canonical_text, no_number, no_date, no_timestamp) refl

  abbrev Again : Value → String → String → Type 0
  Again v s w = canonical_text p v w ≡ ok s → canonical_text p (text s) w ≡ ok s

  -- The three types of a watermark, and any other.
  again : (v : Value) (s w : String) → IsDated v → Again v s w
  again v s w dated h = elim (Bool-cases (w == "number")) [
    | inl same ↦ by_type "number" same (number-again v s)
    | inr no_number ↦ elim (Bool-cases (w == "date")) [
      | inl same ↦ by_type "date" same (date-again v s dated)
      | inr no_date ↦ elim (Bool-cases (w == "timestamp")) [
        | inl same ↦ by_type "timestamp" same (timestamp-again v s dated)
        | inr no_timestamp ↦
            absurd (not_ok (sym (canonical_text-unknown v w no_number no_date no_timestamp) ∙ h))
      ]
    ]
  ]
    where
      not_ok : err watermark_error ≡ ok s → ⊥
      not_ok e = cc

      by_type : (t : String) → (w == t) ≡ true → Again v s t → canonical_text p (text s) w ≡ ok s
      by_type t same go =
          let path : t ≡ w = ground (arith, same, eq_iff w t) in subst (Again v s) path go h

  -- The canonical text of a value is its own canonical text, for a value whose day is one that is
  -- read back.
  pub canonicalize-canonicalize :
      (v : Value) (wtype s : String)
      → IsDated v
      → canonicalize p v wtype ≡ ok (some s)
      → canonicalize p (text s) wtype ≡ ok (some s)
  unfolding canonicalize
  canonicalize-canonicalize v wtype s dated h =
      ap (λ r. and_then r (λ x. ok (some x)))
        (again v s (lower wtype) dated (canonical_of v dated h))
    where
      canonical_of :
          (v : Value)
          → IsDated v
          → canonicalize p v wtype ≡ ok (some s)
          → canonical_text p v (lower wtype) ≡ ok s
      canonical_of null dated h = cc
      canonical_of (bool b) dated h = without_some _ s h
      canonical_of (number x) dated h = without_some _ s h
      canonical_of (text x) dated h = without_some _ s h
      canonical_of (date d) dated h = without_some _ s h
      canonical_of (datetime t) dated h = without_some _ s h
