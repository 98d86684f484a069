-- ===== src/Duration/Fields.antt =====
-- Reading back the parts of a written duration, from the days to the seconds.
use Prim.Native.Char.{Char, code}
use text.Mathlib.TextLemmas.{nil-append, cons-append, append_assoc}
use oracle_repo.Base.{
  refl, ◌≡◌, ◌⊎◌, ap, sym, ◌∙◌, inl, inr, ℕ, ◌+◌, ◌*◌, String, ◌<>◌, true, false, Bool-cases, some,
  none, eqb, arith,
}
use oracle_repo.Base.Text.{show}
use oracle_repo.Duration.{is_digit, digit_ahead, after, field, clock_part, part}
use oracle_repo.Duration.Digits.{show-ahead, field_here, field_absent}

-- A part of the text before the rest: the number and its letter, or nothing.
abbrev pub lead : ℕ → Char → String → String
lead n c rest = part n (String.◌∷◌ c "") <> rest

pub lead_zero : (n : ℕ) (c : Char) (rest : String) → eqb n 0 ≡ true → lead n c rest ≡ rest
lead_zero n c rest h = rw h (nil-append rest)

lead_some :
    (n : ℕ) (c : Char) (rest : String)
    → eqb n 0 ≡ false
    → lead n c rest ≡ (show n <> String.◌∷◌ c rest)
lead_some n c rest h =
    rw h (append_assoc (show n) (String.◌∷◌ c "") rest)
    ∙ ap (λ s. show n <> s) (cons-append c "" rest ∙ ap (String.◌∷◌ c) (nil-append rest))

letter_next :
    (q : ℕ) (c : Char) (rest : String)
    → eqb (code c) q ≡ true
    → after q (String.◌∷◌ c rest) ≡ some rest
unfolding after
letter_next q c rest h = rw h refl

letter_other :
    (q : ℕ) (c : Char) (rest : String) → eqb (code c) q ≡ false → after q (String.◌∷◌ c rest) ≡ none
unfolding after
letter_other q c rest h = rw h refl

letter_stops :
    (c : Char) (rest : String) → is_digit c ≡ false → digit_ahead (String.◌∷◌ c rest) ≡ false
unfolding digit_ahead
letter_stops c rest h = h

-- A part is read by its own field, if the field is absent from the rest.
pub own_field :
    (q n : ℕ) (c : Char) (rest : String)
    → is_digit c ≡ false
    → eqb (code c) q ≡ true
    → field q rest ≡ (0, rest)
    → field q (lead n c rest) ≡ (n, rest)
own_field q n c rest hd hc hr = elim (Bool-cases (eqb n 0)) [
  | inl z ↦ ap (field q) (lead_zero n c rest z) ∙ hr ∙ ap (λ k. (k, rest)) (ground (arith, z))
  | inr z ↦
      ap (field q) (lead_some n c rest z)
      ∙ field_here q n (String.◌∷◌ c rest) rest (letter_stops c rest hd) (letter_next q c rest hc)
]

-- A part is not read by another field.
other_field :
    (q n : ℕ) (c : Char) (rest : String)
    → is_digit c ≡ false
    → eqb (code c) q ≡ false
    → field q rest ≡ (0, rest)
    → field q (lead n c rest) ≡ (0, lead n c rest)
other_field q n c rest hd hc hr = elim (Bool-cases (eqb n 0)) [
  | inl z ↦ ap (field q) (lead_zero n c rest z) ∙ hr ∙ ap (λ s. (0, s)) (sym (lead_zero n c rest z))
  | inr z ↦
      ap (field q) (lead_some n c rest z)
      ∙ field_absent q n (String.◌∷◌ c rest) (letter_stops c rest hd) (letter_other q c rest hc)
      ∙ ap (λ s. (0, s)) (sym (lead_some n c rest z))
]

nothing_left : (q : ℕ) → field q "" ≡ (0, "")
unfolding field digit_ahead
nothing_left q = refl

abbrev seconds_text : ℕ → String
seconds_text s = lead s "S" ""

abbrev minutes_text : ℕ → ℕ → String
minutes_text m s = lead m "M" (seconds_text s)

abbrev pub clock_text : ℕ → ℕ → ℕ → String
clock_text h m s = lead h "H" (minutes_text m s)

-- The three fields of the clock, one after the other.
abbrev with_seconds : ℕ → ℕ → ℕ × String → ℕ × String
with_seconds h m x = (h * 3600 + m * 60 + x.0, x.1)

abbrev with_minutes : ℕ → ℕ × String → ℕ × String
with_minutes h x = with_seconds h x.0 (field b'S' x.1)

abbrev with_hours : ℕ × String → ℕ × String
with_hours x = with_minutes x.0 (field b'M' x.1)

pub clock_lem : (h m s : ℕ) → clock_part (clock_text h m s) ≡ (h * 3600 + m * 60 + s, "")
unfolding clock_part
clock_lem h m s =
    ap with_hours (
      own_field b'H' h "H" (minutes_text m s) refl refl (
        other_field b'H' m "M" (seconds_text s) refl refl
          (other_field b'H' s "S" "" refl refl (nothing_left b'H'))))
    ∙ ap (with_minutes h) (
        own_field b'M' m "M" (seconds_text s) refl refl
          (other_field b'M' s "S" "" refl refl (nothing_left b'M')))
    ∙ ap (with_seconds h m) (own_field b'S' s "S" "" refl refl (nothing_left b'S'))

-- A part that is written starts with a digit.
pub lead_ahead :
    (n : ℕ) (c : Char) (rest : String) → eqb n 0 ≡ false → digit_ahead (lead n c rest) ≡ true
lead_ahead n c rest h = ap digit_ahead (lead_some n c rest h) ∙ show-ahead n (String.◌∷◌ c rest)

-- The text of a clock is empty, or starts with a digit.
pub clock_ahead :
    (h m s : ℕ)
    → ((h ≡ 0) × (m ≡ 0) × (s ≡ 0) × (clock_text h m s ≡ ""))
      ⊎ (digit_ahead (clock_text h m s) ≡ true)
clock_ahead h m s = elim (Bool-cases (eqb h 0)) [
  | inr a ↦ inr (lead_ahead h "H" (minutes_text m s) a)
  | inl a ↦ elim (Bool-cases (eqb m 0)) [
    | inr b ↦ inr (
        ap digit_ahead (lead_zero h "H" (minutes_text m s) a) ∙ lead_ahead m "M" (seconds_text s) b)
    | inl b ↦ elim (Bool-cases (eqb s 0)) [
      | inr c ↦ inr (
          ap digit_ahead (lead_zero h "H" (minutes_text m s) a ∙ lead_zero m "M" (seconds_text s) b)
          ∙ lead_ahead s "S" "" c)
      | inl c ↦ inl (
        ground (arith, a),
        ground (arith, b),
        ground (arith, c),
        lead_zero h "H" (minutes_text m s) a
            ∙ lead_zero m "M" (seconds_text s) b
            ∙ lead_zero s "S" "" c,
      )
    ]
  ]
]
