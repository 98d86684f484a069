-- ===== src/Control/WatermarkStore.antt =====
-- `WatermarkStore` of src/ingestion_framework/control/watermark.py. A statement is modelled by
-- what its text tells the engine to do with the rows of the table `watermarks`.
pub mod Laws
pub mod Monotone
use oracle_repo.Base.{
  ℕ, String, ◌==◌, Bool, true, false, ◌&&◌, ◌||◌, Option, none, some, List, map, filter, head?,
  if◌then◌else◌,
}
use oracle_repo.RunSpec.{Value}
use oracle_repo.Platform.{
  Platform, watermark_error, Result, ok, err, Cast, to_timestamp, to_date, to_decimal,
}
use oracle_repo.Control.Tables.{WatermarkRow, Tables}
use oracle_repo.Control.World.{Action, pure, lift, client, ◌>>=◌, ◌>>◌, merge_into, update_where}
use oracle_repo.Control.Watermark.{
  WatermarkRecord, WatermarkWindow, from_row, canonicalize, compute_window, cast_by_type,
}

-- `t.table_fqn = s.table_fqn AND t.env = s.env`
abbrev pub at_key : String → String → WatermarkRow → Bool
at_key table_fqn env row = row.table_fqn == table_fqn && row.env == env

-- The values that a statement binds.
pub record Mark : Type 0 where
  pub table_fqn : String
  pub env : String
  pub watermark_column : Option String
  pub watermark_type : String
  pub value : Option String
  pub run_id : String
  pub updated_at : ℕ

-- The row of `WHEN NOT MATCHED THEN INSERT`, and the SET list of `WHEN MATCHED`.
abbrev pub inserted : Mark → WatermarkRow
inserted m = record {
  table_fqn = m.table_fqn;
  env = m.env;
  watermark_column = m.watermark_column;
  watermark_type = some m.watermark_type;
  watermark_value = m.value;
  previous_value = none;
  run_id = some m.run_id;
  updated_at = some m.updated_at;
}

abbrev pub overwritten : Mark → WatermarkRow → WatermarkRow
overwritten m row = record row {
  watermark_column = m.watermark_column;
  watermark_type = some m.watermark_type;
  previous_value = row.watermark_value;
  watermark_value = m.value;
  run_id = some m.run_id;
  updated_at = some m.updated_at;
}

abbrev pub cast_or_raise : Option Cast → Result Cast
cast_or_raise none = err watermark_error
cast_or_raise (some c) = ok c

module _ (p : Platform) where
  -- `advance_guard_sql`: `(t.watermark_value IS NULL OR new > old)`. A NULL is never greater.
  unfoldable pub advance_guard : Cast → Option String → Option String → Bool
  advance_guard cast new none = true
  advance_guard cast none (some old) = false
  advance_guard cast (some new) (some old) = p.newer cast new old

  -- The MERGE of `advance` and that of `force_set`
  unfoldable pub merge_advance : Cast → Mark → List WatermarkRow → List WatermarkRow
  unfolding merge_into advance_guard
  merge_advance cast m rows =
      merge_into (at_key m.table_fqn m.env)
        (λ row. if advance_guard cast m.value row.watermark_value then overwritten m row else row)
        (inserted m) rows

  unfoldable pub merge_force : Mark → List WatermarkRow → List WatermarkRow
  unfolding merge_into
  merge_force m rows = merge_into (at_key m.table_fqn m.env) (overwritten m) (inserted m) rows

  -- `SELECT * … WHERE table_fqn = … AND env = …`, the first row
  unfoldable pub find_mark : String → String → List WatermarkRow → Option WatermarkRow
  find_mark table_fqn env rows = head? (filter (at_key table_fqn env) rows)

  abbrev record_of : Option WatermarkRow → Option WatermarkRecord
  record_of none = none
  record_of (some row) = some (from_row row)

  unfoldable pub get : String → String → Action p (Option WatermarkRecord)
  unfolding client find_mark from_row
  get table_fqn env = client λ t. (record_of (find_mark table_fqn env t.watermarks), t)

  unfoldable pub window : String → String → String → ℕ → Value → Action p WatermarkWindow
  unfolding get compute_window
  window table_fqn env wtype overlap default = do
    stored ← get table_fqn env
    lift (compute_window p stored wtype overlap default)

  -- Whether the row shows this call's value and run.
  abbrev pub is_moved : String → String → Option WatermarkRecord → Bool
  is_moved value run_id none = false
  is_moved value run_id (some r) = is value r.watermark_value && is run_id r.run_id
    where
      is : String → Option String → Bool
      is s none = false
      is s (some t) = t == s

  -- The MERGE, and the row read back.
  unfoldable pub advance_with : Mark → String → Cast → Action p Bool
  unfolding client merge_advance get
  advance_with m canonical cast = do
    client (λ t. (tt, record t { watermarks = merge_advance cast m t.watermarks }))
    current ← get m.table_fqn m.env
    pure (is_moved canonical m.run_id current)

  -- Once the value is canonical.
  unfoldable pub advance_to : Mark → String → Action p Bool
  unfolding advance_with
  advance_to m canonical =
      lift (cast_or_raise (cast_by_type m.watermark_type)) >>= advance_with m canonical

  unfoldable pub advance :
      String → String → Value → String → Option String → String → ℕ → Action p Bool
  unfolding advance_to canonicalize
  advance table_fqn env new_value run_id column wtype updated_at = do
    canonical ← lift (canonicalize p new_value wtype)
    elim canonical [
      | none ↦ pure false
      | some value ↦
          advance_to
            (record {
              table_fqn = table_fqn;
              env = env;
              watermark_column = column;
              watermark_type = wtype;
              value = some value;
              run_id = run_id;
              updated_at = updated_at;
            })
            value
    ]

  -- Set the mark unconditionally, including backwards.
  unfoldable pub force_set :
      String → String → Value → String → Option String → String → ℕ → Action p (Unit {0})
  unfolding client merge_force canonicalize
  force_set table_fqn env value wtype column run_id updated_at = do
    canonical ← lift (canonicalize p value wtype)
    client λ t. (
      tt,
      record t {
        watermarks =
            merge_force
              (record {
                table_fqn = table_fqn;
                env = env;
                watermark_column = column;
                watermark_type = wtype;
                value = canonical;
                run_id = run_id;
                updated_at = updated_at;
              })
              t.watermarks;
      },
    )
