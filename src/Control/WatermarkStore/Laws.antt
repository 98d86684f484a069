-- ===== src/Control/WatermarkStore/Laws.antt =====
-- What `advance` and `force_set` leave in the table of watermarks.
use oracle_repo.Base.{
  ◌≡◌, refl, ◌∙◌, inl, inr, String, ◌==◌, eq_iff, eq_refl, Bool, true, false, ◌&&◌, Option, none,
  some, List, [], ◌∷◌, ◌++◌, any, filter, head?, is_some, arith, Bool-cases, if◌then◌else◌,
}
use oracle_repo.Platform.{Platform, Cast}
use oracle_repo.Control.Tables.{WatermarkRow}
use oracle_repo.Control.World.{merge_into, update_where}
use oracle_repo.Control.WatermarkStore.{
  at_key, Mark, inserted, overwritten, advance_guard, merge_advance, find_mark,
}

-- Rows found by a key after an UPDATE that leaves the keys alone, and after an INSERT.
module _ (table_fqn env : String) where
  abbrev found : List WatermarkRow → Option WatermarkRow
  found rows = head? (filter (at_key table_fqn env) rows)

  abbrev or_new : WatermarkRow → Option WatermarkRow → Option WatermarkRow
  or_new new none = if at_key table_fqn env new then some new else none
  or_new new (some row) = some row

  found-snoc :
      (rows : List WatermarkRow) (new : WatermarkRow)
      → found (rows ++ new ∷ []) ≡ or_new new (found rows)
  found-snoc [] new = ground arith
  found-snoc (row ∷ rows) new = ground (arith, found-snoc rows new)

  any-found : (rows : List WatermarkRow) → any (at_key table_fqn env) rows ≡ is_some (found rows)
  any-found [] = refl
  any-found (row ∷ rows) = ground (arith, any-found rows)

  abbrev changed : (WatermarkRow → WatermarkRow) → Option WatermarkRow → Option WatermarkRow
  changed f none = none
  changed f (some row) = some (f row)

  -- An UPDATE of the rows at the key, which keeps the key, or of other rows only.
  found-update_where :
      (f : WatermarkRow → WatermarkRow) (rows : List WatermarkRow)
      → ((row : WatermarkRow) → at_key table_fqn env (f row) ≡ at_key table_fqn env row)
      → found (update_where (at_key table_fqn env) f rows) ≡ changed f (found rows)
  found-update_where f [] h = refl
  found-update_where f (row ∷ rows) h = ground (arith, h row, found-update_where f rows h)

  found-update_where_other :
      (on : WatermarkRow → Bool) (f : WatermarkRow → WatermarkRow) (rows : List WatermarkRow)
      → ((row : WatermarkRow) → at_key table_fqn env (f row) ≡ at_key table_fqn env row)
      → ((row : WatermarkRow) → on row ≡ true → at_key table_fqn env row ≡ false)
      → found (update_where on f rows) ≡ found rows
  found-update_where_other on f [] h apart = refl
  found-update_where_other on f (row ∷ rows) h apart =
      ground (arith, h row, apart row, found-update_where_other on f rows h apart)

  found-merge_into :
      (f : WatermarkRow → WatermarkRow) (new : WatermarkRow) (rows : List WatermarkRow)
      → ((row : WatermarkRow) → at_key table_fqn env (f row) ≡ at_key table_fqn env row)
      → at_key table_fqn env new ≡ true
      → found (merge_into (at_key table_fqn env) f new rows)
        ≡ some (elim (found rows) [ none ↦ new | some row ↦ f row ])
  unfolding merge_into
  found-merge_into f new rows h own =
      ground (arith, any-found rows, found-update_where f rows h, found-snoc rows new)

  found-merge_into_other :
      (on : WatermarkRow → Bool) (f : WatermarkRow → WatermarkRow) (new : WatermarkRow)
      (rows : List WatermarkRow)
      → ((row : WatermarkRow) → at_key table_fqn env (f row) ≡ at_key table_fqn env row)
      → ((row : WatermarkRow) → on row ≡ true → at_key table_fqn env row ≡ false)
      → on new ≡ true
      → found (merge_into on f new rows) ≡ found rows
  unfolding merge_into
  found-merge_into_other on f new rows h apart own =
      ground (arith, apart new own, found-update_where_other on f rows h apart, found-snoc rows new)

at_key_self : (t e : String) → (t == t && e == e) ≡ true
at_key_self t e = simp eq_refl

-- Two keys that differ are not those of one row.
at_key_apart :
    (t e t' e' : String) (row : WatermarkRow)
    → (t == t' && e == e') ≡ false
    → at_key t e row ≡ true
    → at_key t' e' row ≡ false
at_key_apart t e t' e' row apart h = ground (
  arith,
  eq_iff t t',
  eq_iff e e',
  eq_iff row.table_fqn t,
  eq_iff row.env e,
  eq_iff row.table_fqn t',
  eq_iff row.env e',
)

module _ (p : Platform) where
  -- What the MERGE of `advance` makes of the row that it finds.
  abbrev pub advanced : Cast → Mark → Option WatermarkRow → WatermarkRow
  advanced c m none = inserted m
  advanced c m (some row) =
      if advance_guard p c m.value row.watermark_value then overwritten m row else row

  find_mark-merge_advance :
      (c : Cast) (m : Mark) (rows : List WatermarkRow)
      → find_mark p m.table_fqn m.env (merge_advance p c m rows)
        ≡ some (advanced c m (find_mark p m.table_fqn m.env rows))
  unfolding find_mark merge_advance
  find_mark-merge_advance c m rows =
      found-merge_into m.table_fqn m.env _ (inserted m) rows (λ row. ground arith)
        (at_key_self m.table_fqn m.env)
      ∙ ground arith

  find_mark-merge_advance_other :
      (c : Cast) (m : Mark) (t e : String) (rows : List WatermarkRow)
      → (m.table_fqn == t && m.env == e) ≡ false
      → find_mark p t e (merge_advance p c m rows) ≡ find_mark p t e rows
  unfolding find_mark merge_advance
  find_mark-merge_advance_other c m t e rows apart =
      found-merge_into_other t e (at_key m.table_fqn m.env) _ (inserted m) rows
        (λ row. ground arith) (λ row h. at_key_apart m.table_fqn m.env t e row apart h)
        (at_key_self m.table_fqn m.env)

  -- What any key is looked up as after the MERGE of `advance`.
  pub merge_advance_lem :
      (c : Cast) (m : Mark) (t e : String) (rows : List WatermarkRow)
      → find_mark p t e (merge_advance p c m rows) ≡ (
          if m.table_fqn == t && m.env == e
          then some (advanced c m (find_mark p t e rows))
          else find_mark p t e rows)
  merge_advance_lem c m t e rows = elim (Bool-cases (m.table_fqn == t && m.env == e)) [
    | inl same ↦
        let pt : m.table_fqn ≡ t = ground (arith, eq_iff m.table_fqn t, eq_iff m.env e) in
        let pe : m.env ≡ e = ground (arith, eq_iff m.table_fqn t, eq_iff m.env e) in
        rw (same, ← pt, ← pe) (find_mark-merge_advance c m rows)
    | inr apart ↦ rw apart (find_mark-merge_advance_other c m t e rows apart)
  ]
