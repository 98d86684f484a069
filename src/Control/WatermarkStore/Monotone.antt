-- ===== src/Control/WatermarkStore/Monotone.antt =====
-- A mark that moves by `advance` alone never moves back, whoever calls it and in whatever order.
use oracle_repo.Base.{
  ◌≡◌, refl, ◌⊎◌, inl, inr, String, ◌==◌, true, ◌&&◌, Option, none, some, List, arith, Bool-cases,
}
use oracle_repo.Platform.{Platform, IsOrdered, Cast}
use oracle_repo.Control.Tables.{WatermarkRow}
use oracle_repo.Control.WatermarkStore.{Mark, advance_guard, merge_advance, find_mark}
use oracle_repo.Control.WatermarkStore.Laws.{advanced, merge_advance_lem}

-- The stored value of a row, NULL where there is no row.
abbrev pub value_of : Option WatermarkRow → Option String
value_of none = none
value_of (some row) = row.watermark_value

module _ (p : Platform) (c : Cast) where
  -- `new` is `old`, or newer than it; anything is newer than NULL.
  abbrev pub NotBack : Option String → Option String → Type 0
  NotBack none new = Unit
  NotBack (some v) none = ⊥
  NotBack (some v) (some u) = (u ≡ v) ⊎ (p.newer c u v ≡ true)

  -- Advances by any runs, one after another, of which those of the key use the cast `c`.
  pub data Advances (t e : String) (rows : List WatermarkRow) : List WatermarkRow → Type 0 where
    none_yet : Advances t e rows rows
    next :
        {rows' : List WatermarkRow} (c' : Cast) (m : Mark)
        → Advances t e rows rows'
        → ((m.table_fqn == t && m.env == e) ≡ true → c' ≡ c)
        → Advances t e rows (merge_advance p c' m rows')

  pub NotBack-refl : (o : Option String) → NotBack o o
  NotBack-refl none = tt
  NotBack-refl (some v) = inl refl

  guard_newer : (new old : Option String) → advance_guard p c new old ≡ true → NotBack old new
  unfolding advance_guard
  guard_newer new none h = tt
  guard_newer none (some v) h = cc
  guard_newer (some u) (some v) h = inr h

  NotBack-advanced :
      (m : Mark) (r : Option WatermarkRow)
      → NotBack (value_of r) (value_of (some (advanced p c m r)))
  NotBack-advanced m none = tt
  NotBack-advanced m (some row) =
      elim (Bool-cases (advance_guard p c m.value row.watermark_value)) [
        | inl passed ↦ rw passed (guard_newer m.value row.watermark_value passed)
        | inr held ↦ rw held (NotBack-refl row.watermark_value)
      ]

  pub NotBack-merge_advance :
      (c' : Cast) (m : Mark) (t e : String) (rows : List WatermarkRow)
      → ((m.table_fqn == t && m.env == e) ≡ true → c' ≡ c)
      → NotBack
          (value_of (find_mark p t e rows))
          (value_of (find_mark p t e (merge_advance p c' m rows)))
  NotBack-merge_advance c' m t e rows same_cast =
      rw (merge_advance_lem p c' m t e rows) (elim (Bool-cases (m.table_fqn == t && m.env == e)) [
        | inl same ↦ rw (same, same_cast same) (NotBack-advanced m (find_mark p t e rows))
        | inr apart ↦ rw apart (NotBack-refl (value_of (find_mark p t e rows)))
      ])

  module _ (o : IsOrdered p) where
    pub NotBack-trans : (a b d : Option String) → NotBack a b → NotBack b d → NotBack a d
    NotBack-trans none b d h k = tt
    NotBack-trans (some a) none d h k = absurd h
    NotBack-trans (some a) (some b) none h k = absurd k
    NotBack-trans (some a) (some b) (some d) h k = ground (arith, o.newer_trans c d b a)

    -- After any sequence of advances, the stored mark of a key is the one that it was before, or
    -- newer by the comparison of the key's type. What is asked of the SQL engine is that its `>` is
    -- transitive.
    pub Advances-NotBack :
        {t e : String} {rows rows' : List WatermarkRow}
        → Advances t e rows rows'
        → NotBack (value_of (find_mark p t e rows)) (value_of (find_mark p t e rows'))
    Advances-NotBack none_yet = NotBack-refl _
    Advances-NotBack {t} {e} {rows} (next {rows' = before} c' m h same_cast) =
        NotBack-trans (value_of (find_mark p t e rows)) (value_of (find_mark p t e before)) _
          (Advances-NotBack h) (NotBack-merge_advance c' m t e before same_cast)
