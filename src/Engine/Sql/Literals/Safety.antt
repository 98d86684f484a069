-- ===== src/Engine/Sql/Literals/Safety.antt =====
-- What a literal that is not refused can hold.
use Prim.Native.Char.{code}
use oracle_repo.Base.{
  refl, inl, inr, ℕ, zero, suc, ◌≡◌, String, ◌==◌, Bool, true, false, ◌||◌, some, Option-cases, eqb,
  arith,
}
use oracle_repo.Base.Text.{lower}
use oracle_repo.Base.Text.Scan.{all_chars, has_char, at_end}
use oracle_repo.Platform.{Platform, IsWide, ok}
use oracle_repo.Engine.Sql.Literals.{
  is_digit, after_mask, digits_end, fraction_end, canonical_date, canonical_timestamp, literal,
}

module _ (p : Platform) where
  -- A digit, one of `-: .` or a newline.
  abbrev pub is_plain : ℕ → Bool
  is_plain c =
      is_digit p c || (eqb c b'-' || (eqb c b':' || (eqb c b' ' || (eqb c b'.' || eqb c 10))))

  -- What a mask asks for is plain, where its own characters are.
  abbrev plain_mask : String → Bool
  plain_mask s = all_chars (λ c. eqb c b'9' || is_plain c) s

  at_end-plain : (s : String) → at_end s ≡ true → all_chars is_plain s ≡ true
  at_end-plain String.[] h = refl
  at_end-plain (String.◌∷◌ c String.[]) h = ground (arith, h)
  at_end-plain (String.◌∷◌ c (String.◌∷◌ d s)) h = ground (arith, h)

  after_mask-plain :
      (mask s rest : String)
      → after_mask p mask s ≡ some rest
      → plain_mask mask ≡ true
      → all_chars is_plain rest ≡ true
      → all_chars is_plain s ≡ true
  unfolding after_mask
  after_mask-plain String.[] s rest h m k = ground (arith, h, k)
  after_mask-plain (String.◌∷◌ q mask) String.[] rest h m k = refl
  after_mask-plain (String.◌∷◌ q mask) (String.◌∷◌ c s) rest h m k =
      ground (arith, h, m, k, after_mask-plain mask s rest)

  digits_end-plain : (n : ℕ) (s : String) → digits_end p n s ≡ true → all_chars is_plain s ≡ true
  unfolding digits_end
  digits_end-plain zero s h = at_end-plain s h
  digits_end-plain (suc n) String.[] h = refl
  digits_end-plain (suc n) (String.◌∷◌ c s) h =
      ground (arith, h, at_end-plain (String.◌∷◌ c s), digits_end-plain n s)

  fraction_end-plain : (s : String) → fraction_end p s ≡ true → all_chars is_plain s ≡ true
  unfolding fraction_end
  fraction_end-plain String.[] h = refl
  fraction_end-plain (String.◌∷◌ c String.[]) h = at_end-plain (String.◌∷◌ c String.[]) h
  fraction_end-plain (String.◌∷◌ c (String.◌∷◌ d s)) h = ground (arith, h, digits_end-plain 5 s)

  canonical_date-plain : (s : String) → canonical_date p s ≡ true → all_chars is_plain s ≡ true
  unfolding canonical_date
  canonical_date-plain s h = elim (Option-cases (after_mask p "9999-99-99" s)) [
    | inl e ↦ ground (arith, h, e)
    | inr (rest, e) ↦
        after_mask-plain "9999-99-99" s rest e (ground arith)
          (at_end-plain rest (ground (arith, h, e)))
  ]

  canonical_timestamp-plain :
      (s : String) → canonical_timestamp p s ≡ true → all_chars is_plain s ≡ true
  unfolding canonical_timestamp
  canonical_timestamp-plain s h = elim (Option-cases (after_mask p "9999-99-99 99:99:99" s)) [
    | inl e ↦ ground (arith, h, e)
    | inr (rest, e) ↦
        after_mask-plain "9999-99-99 99:99:99" s rest e (ground arith)
          (fraction_end-plain rest (ground (arith, h, e)))
  ]

  -- A plain character is neither a quote nor a semicolon.
  plain_lem : (w : IsWide p) (c : ℕ) → is_plain c ≡ true → (eqb c b'\'' || eqb c b';') ≡ false
  unfolding is_digit
  plain_lem w c h = ground (arith, h, w.digit_wide c)

  plain-has_char :
      (w : IsWide p) (s : String)
      → all_chars is_plain s ≡ true
      → (has_char b'\'' s || has_char b';' s) ≡ false
  plain-has_char w String.[] h = refl
  plain-has_char w (String.◌∷◌ c s) h = ground (arith, h, plain-has_char w s, plain_lem w (code c))

  -- A bound that is rendered as something other than a number has no quote and no semicolon.
  pub literal_closed :
      (w : IsWide p) (bound watermark_type sql : String)
      → literal p (some bound) watermark_type ≡ ok sql
      → (lower watermark_type == "number") ≡ false
      → (has_char b'\'' bound || has_char b';' bound) ≡ false
  unfolding literal
  literal_closed w bound watermark_type sql h k =
      plain-has_char w bound
        (ground (arith, h, k, canonical_date-plain bound, canonical_timestamp-plain bound))
