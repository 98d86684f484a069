-- ===== src/Engine/Sql/Predicates/Windows.antt =====
-- Which rows the windows of successive runs read, each run's upper bound being the next run's
-- lower bound.
use oracle_repo.Base.{
  Bool-cases, inl, inr, ℕ, ◌+◌, ◌≤◌, ◌≡◌, String, ◌==◌, Bool, true, false, ◌&&◌, ◌||◌, not, some,
  List, [], ◌∷◌, all, eqb, leb, ltb, arith, if◌then◌else◌,
}
use oracle_repo.RunSpec.{RunSpec}
use oracle_repo.Engine.Sql.Predicates.{Comparison, lower_bound_is_inclusive, window_comparisons}

-- `at` is the place of a bound in the order of the watermark column.
module _ (at : String → ℕ) where
  -- Whether Oracle finds the comparison TRUE of a row whose column stands at `v`; another text is
  -- no comparison, and finds no row.
  abbrev pub holds : ℕ → Comparison → Bool
  holds v c =
      if c.operator == ">="
      then leb (at c.bound) v
      else if c.operator == ">"
      then ltb (at c.bound) v
      else if c.operator == "<="
      then leb v (at c.bound)
      else if c.operator == "<"
      then ltb v (at c.bound)
      else false

  -- Whether the extract from `b` up to `c` reads the row.
  abbrev pub reads : RunSpec → String → String → ℕ → Bool
  reads spec b c v = all (holds v) (window_comparisons spec (some b) (some c))

  -- How often the row is read by the runs whose bounds are `b` and then `bs`.
  abbrev pub times_read : RunSpec → String → List String → ℕ → ℕ
  times_read spec b [] v = 0
  times_read spec b (c ∷ bs) v = (if reads spec b c v then 1 else 0) + times_read spec c bs v

  abbrev pub Rising : String → List String → Type 0
  Rising b [] = Unit
  Rising b (c ∷ bs) = (at b ≤ at c) × Rising c bs

  abbrev pub last_bound : String → List String → String
  last_bound b [] = b
  last_bound b (c ∷ bs) = last_bound c bs

  -- Whether the row stands at one of the bounds.
  abbrev pub on_bound : String → List String → ℕ → Bool
  on_bound b [] v = eqb (at b) v
  on_bound b (c ∷ bs) v = eqb (at b) v || on_bound c bs v

  Rising-last : (b : String) (bs : List String) → Rising b bs → at b ≤ at (last_bound b bs)
  Rising-last b [] h = omega arith
  Rising-last b (c ∷ bs) h = omega (arith, h, Rising-last c bs h.1)

  on_bound_below :
      (b : String) (bs : List String) (v : ℕ)
      → Rising b bs
      → ltb v (at b) ≡ true
      → on_bound b bs v ≡ false
  on_bound_below b [] v h k = ground (arith, k)
  on_bound_below b (c ∷ bs) v h k =
      ground (arith, h, k, on_bound_below c bs v h.1 (ground (arith, h, k)))

  on_bound_first :
      (b : String) (bs : List String) (v : ℕ) → eqb (at b) v ≡ true → on_bound b bs v ≡ true
  on_bound_first b [] v h = h
  on_bound_first b (c ∷ bs) v h = ground (arith, h)

  reads_lem :
      (spec : RunSpec) (b c : String) (v : ℕ)
      → reads spec b c v
        ≡ ((leb (at b) v && ltb v (at c)) && (lower_bound_is_inclusive spec || not (eqb (at b) v)))
  unfolding window_comparisons
  reads_lem spec b c v = elim (Bool-cases (lower_bound_is_inclusive spec)) [
    | inl e ↦ rw e (ground arith)
    | inr e ↦ rw e (ground arith)
  ]

  -- What the runs read together: each row from the first bound up to the last is read once,
  -- except that with an exclusive lower bound a row that stands at a bound is never read.
  pub times_read_lem :
      (spec : RunSpec) (b : String) (bs : List String) (v : ℕ)
      → Rising b bs
      → times_read spec b bs v ≡ (
          if (leb (at b) v && ltb v (at (last_bound b bs)))
            && (lower_bound_is_inclusive spec || not (on_bound b bs v))
          then 1
          else 0)
  times_read_lem spec b [] v h = ground arith
  times_read_lem spec b (c ∷ bs) v h =
      rw (reads_lem spec b c v, times_read_lem spec c bs v h.1)
        (ground (arith, h, Rising-last c bs h.1, on_bound_below c bs v h.1, on_bound_first c bs v))
