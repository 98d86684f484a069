-- ===== src/Duration/Inverse.antt =====
-- Reading back the text of format_duration.
use Prim.Native.Char.{Char}
use text.Mathlib.TextLemmas.{nil-append, cons-append, append-nil}
use text.Mathlib.TextEquality.{eq_iff}
use oracle_repo.Base.{
  refl, ◌≡◌, ap, sym, ◌∙◌, inl, inr, ℕ, ◌<◌, ◌+◌, ◌*◌, ◌/◌, ◌%◌, String, ◌<>◌, ◌==◌, true, false,
  Bool-cases, some, eqb, arith, if◌then◌else◌,
}
use oracle_repo.Duration.{
  read_digits, digit_ahead, after, at_end, field, clock_part, time_part, parse_body, parse_duration,
  part, format_duration,
}
use oracle_repo.Duration.Digits.{field_none}
use oracle_repo.Duration.Fields.{
  lead, clock_text, own_field, lead_zero, clock_lem, lead_ahead, clock_ahead,
}

-- `f"T{time_part}" if time_part else ""`
abbrev time_text : String → String
time_text time = if time == "" then "" else String.◌∷◌ "T" time

ahead_not_empty : (t : String) → digit_ahead t ≡ true → (t == "") ≡ false
unfolding digit_ahead
ahead_not_empty t h = elim (Bool-cases (t == "")) [
  | inr e ↦ e
  | inl e ↦ ground (arith, sym h ∙ ap digit_ahead ((eq_iff t "").0 e))
]

ahead_not_end : (t : String) → digit_ahead t ≡ true → at_end t ≡ false
unfolding digit_ahead at_end
ahead_not_end String.[] h = sym h
ahead_not_end (String.◌∷◌ c t) h = ground (arith, h)

time_step : (t : String) → digit_ahead t ≡ true → time_part (String.◌∷◌ "T" t) ≡ clock_part t
unfolding time_part after
time_step t h = rw h refl

time_text_some : (t : String) → digit_ahead t ≡ true → time_text t ≡ String.◌∷◌ "T" t
time_text_some t h = rw (ahead_not_empty t h) refl

time_absent : (n : ℕ) → n ≡ 0 → time_part "" ≡ (n, "")
unfolding time_part after
time_absent n h = ap (λ k. (k, "")) (sym h)

time_lem : (h m s : ℕ) → time_part (time_text (clock_text h m s)) ≡ (h * 3600 + m * 60 + s, "")
time_lem h m s = elim (clock_ahead h m s) [
  | inl (a, b, c, e) ↦
      ap (λ t. time_part (time_text t)) e
      ∙ time_absent (h * 3600 + m * 60 + s) (omega (arith, a, b, c))
  | inr e ↦
      ap time_part (time_text_some (clock_text h m s) e)
      ∙ time_step (clock_text h m s) e
      ∙ clock_lem h m s
]

time_text_stops : (t : String) → digit_ahead (time_text t) ≡ false
unfolding digit_ahead
time_text_stops t = elim (Bool-cases (t == "")) [ inl e ↦ rw e refl | inr e ↦ rw e refl ]

body_lem :
    (s s1 s2 : String) (d n : ℕ)
    → at_end s ≡ false
    → field b'D' s ≡ (d, s1)
    → time_part s1 ≡ (n, s2)
    → at_end s2 ≡ true
    → parse_body s ≡ some (d * 86400 + n)
unfolding parse_body
body_lem s s1 s2 d n e1 e2 e3 e4 = rw (e1, e2) (rw e3 (rw e4 refl))

abbrev body_text : ℕ → ℕ → ℕ → ℕ → String
body_text d h m s = lead d "D" (time_text (clock_text h m s))

time_not_end : (t : String) → digit_ahead t ≡ true → at_end (time_text t) ≡ false
unfolding at_end
time_not_end t h = ap at_end (time_text_some t h)

body_not_end :
    (d h m s : ℕ) → 0 < d * 86400 + (h * 3600 + m * 60 + s) → at_end (body_text d h m s) ≡ false
body_not_end d h m s pos = elim (Bool-cases (eqb d 0)) [
  | inr e ↦ ahead_not_end (body_text d h m s) (lead_ahead d "D" (time_text (clock_text h m s)) e)
  | inl e ↦ elim (clock_ahead h m s) [
    | inl (a, b, c, x) ↦ ground (arith, pos, e, a, b, c)
    | inr x ↦
        ap at_end (lead_zero d "D" (time_text (clock_text h m s)) e)
        ∙ time_not_end (clock_text h m s) x
  ]
]

ended : at_end "" ≡ true
unfolding at_end
ended = refl

parse_body_text :
    (d h m s : ℕ)
    → 0 < d * 86400 + (h * 3600 + m * 60 + s)
    → parse_body (body_text d h m s) ≡ some (d * 86400 + (h * 3600 + m * 60 + s))
parse_body_text d h m s pos =
    let time = time_text (clock_text h m s) in
    body_lem (body_text d h m s) time "" d (h * 3600 + m * 60 + s) (body_not_end d h m s pos)
      (own_field b'D' d "D" time refl refl
        (field_none b'D' time (time_text_stops (clock_text h m s))))
      (time_lem h m s) ended

p_not_empty : (t : String) → (String.◌∷◌ "P" t == "") ≡ false
unfolding at_end
p_not_empty t = elim (Bool-cases (String.◌∷◌ "P" t == "")) [
  | inr e ↦ e
  | inl e ↦ ground (arith, ap at_end ((eq_iff (String.◌∷◌ "P" t) "").0 e))
]

parse_p : (t : String) → parse_duration (String.◌∷◌ "P" t) ≡ parse_body t
unfolding parse_duration after
parse_p t = rw (p_not_empty t) refl

put_p : (c : Char) (t : String) → (String.◌∷◌ c "" <> t) ≡ String.◌∷◌ c t
put_p c t = cons-append c "" t ∙ ap (String.◌∷◌ c) (nil-append t)

-- The texts of `format_duration`, with the parts of the total.
abbrev days_of : ℕ → ℕ
days_of n = n / 86400

abbrev hours_of : ℕ → ℕ
hours_of n = n % 86400 / 3600

abbrev minutes_of : ℕ → ℕ
minutes_of n = n % 86400 % 3600 / 60

abbrev seconds_of : ℕ → ℕ
seconds_of n = n % 86400 % 3600 % 60

abbrev text_of : ℕ → String
text_of n = body_text (days_of n) (hours_of n) (minutes_of n) (seconds_of n)

abbrev with_time : ℕ → String → String
with_time d t = "P" <> (part d "D" <> (if t == "" then "" else "T" <> t))

format_text : (n : ℕ) → eqb n 0 ≡ false → format_duration n ≡ String.◌∷◌ "P" (text_of n)
unfolding format_duration
format_text n h = rw h (
    ap (λ t. with_time (days_of n) (part (hours_of n) "H" <> (part (minutes_of n) "M" <> t)))
      (sym (append-nil (part (seconds_of n) "S")))
    ∙ ap
        (λ t.
          "P"
          <> (part (days_of n) "D"
              <> (if clock_text (hours_of n) (minutes_of n) (seconds_of n) == "" then "" else t)))
        (put_p "T" (clock_text (hours_of n) (minutes_of n) (seconds_of n)))
    ∙ put_p "P" (text_of n))

parts_lem :
    (n : ℕ)
    → n / 86400 * 86400
        + (n % 86400 / 3600 * 3600 + n % 86400 % 3600 / 60 * 60 + n % 86400 % 3600 % 60)
      ≡ n
parts_lem n = omega arith

parse_zero : parse_duration (format_duration 0) ≡ some 0
unfolding parse_duration format_duration after parse_body at_end field time_part clock_part
    digit_ahead read_digits
parse_zero = refl

-- What format_duration writes for a duration of whole seconds is read back by parse_duration as the
-- same duration, for every number of seconds, zero included.
pub parse_duration-format_duration : (n : ℕ) → parse_duration (format_duration n) ≡ some n
parse_duration-format_duration n = elim (Bool-cases (eqb n 0)) [
  | inl e ↦
      let z : n ≡ 0 = ground (arith, e) in
      ap (λ k. parse_duration (format_duration k)) z ∙ parse_zero ∙ ap some (sym z)
  | inr e ↦
      ap parse_duration (format_text n e)
      ∙ parse_p (text_of n)
      ∙ parse_body_text (days_of n) (hours_of n) (minutes_of n) (seconds_of n)
          (ground (arith, e, parts_lem n))
      ∙ ap some (parts_lem n)
]
