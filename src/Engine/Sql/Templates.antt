-- ===== src/Engine/Sql/Templates.antt =====
-- src/ingestion_framework/engine/sql_builder.py: the placeholders of a custom query file.
use Prim.Native.Char.{code}
use oracle_repo.Base.{
  ℕ, zero, suc, ◌-◌, String, ◌<>◌, Bool, true, false, ◌&&◌, ◌||◌, not, Option, none, some, List, [],
  ◌∷◌, ◌++◌, any, eqb, if◌then◌else◌,
}
use oracle_repo.Base.Text.{strip}
use oracle_repo.Base.Text.Scan.{has_char, is_letter, is_decimal}
use oracle_repo.RunSpec.{RunSpec, bound_type, table_fqn}
use oracle_repo.Platform.{Platform, sql_build_error, Result, ok, err, and_then}
use oracle_repo.Engine.Sql.Literals.{literal}

is_empty_text : String → Bool
is_empty_text String.[] = true
is_empty_text (String.◌∷◌ c s) = false

-- `s.rstrip(";")`
drop_semicolons : String → String
unfolding is_empty_text
drop_semicolons String.[] = String.[]
drop_semicolons (String.◌∷◌ c s) =
    let rest = drop_semicolons s in
    if eqb (code c) b';' && is_empty_text rest then String.[] else String.◌∷◌ c rest

module _ (p : Platform) where
  is_word : ℕ → Bool
  is_word c = is_letter c || (is_decimal c || (eqb c b'_' || p.wide_word c))

  -- `\b` after a word character
  at_boundary : String → Bool
  unfolding is_word
  at_boundary String.[] = true
  at_boundary (String.◌∷◌ c s) = not (is_word (code c))

  -- Whether a text starts with the placeholder, as a whole word.
  starts_with : String → String → Bool
  unfolding at_boundary
  starts_with String.[] s = at_boundary s
  starts_with (String.◌∷◌ q name) String.[] = false
  starts_with (String.◌∷◌ q name) (String.◌∷◌ c s) = eqb (code q) (code c) && starts_with name s

  text_length : String → ℕ
  text_length String.[] = 0
  text_length (String.◌∷◌ c s) = suc (text_length s)

  -- The replacement of each placeholder; `skip` characters of one are still to be passed.
  substitute : String → String → ℕ → String → String
  unfolding starts_with text_length
  substitute name value skip String.[] = ""
  substitute name value (suc skip) (String.◌∷◌ c s) = substitute name value skip s
  substitute name value zero (String.◌∷◌ c s) =
      let passed = substitute name value (text_length name - 1) s in
      let kept = String.◌∷◌ c (substitute name value zero s) in
      if starts_with name (String.◌∷◌ c s) then value <> passed else kept

  -- Whether the placeholder stands somewhere in a text.
  unfoldable pub mentions : String → String → Bool
  unfolding starts_with
  mentions name String.[] = false
  mentions name (String.◌∷◌ c s) =
      let more = mentions name s in starts_with name (String.◌∷◌ c s) || more

  -- `re.sub(rf"{placeholder}\b", value, rendered)`
  re_sub : String → String → String → Result String
  unfolding substitute
  re_sub name value s =
      if has_char b'\\' value
      then and_then (p.expand value) (λ expanded. ok (substitute name expanded 0 s))
      else ok (substitute name value 0 s)

  substitute_all : List (String × String) → String → Result String
  unfolding re_sub
  substitute_all [] s = ok s
  substitute_all ((name, value) ∷ rest) s =
      and_then (re_sub name value s) (λ t. substitute_all rest t)

  bound_replacement : String → Option String → String → Result (List (String × String))
  unfolding literal
  bound_replacement name none wtype = ok []
  bound_replacement name (some b) wtype =
      and_then (literal p (some b) wtype) (λ sql. ok ((name, sql) ∷ []))

  replacements : RunSpec → Option String → Option String → Result (List (String × String))
  unfolding bound_type bound_replacement table_fqn
  replacements spec lower_bound upper_bound =
      let wtype = bound_type spec.extraction.incremental in
      and_then (bound_replacement ":lower_bound" lower_bound wtype) (λ lower.
        and_then (bound_replacement ":upper_bound" upper_bound wtype) (λ upper. ok (
          (":env", "'" <> (spec.env <> "'"))
          ∷ (":table_fqn", "'" <> (table_fqn spec <> "'"))
          ∷ (lower ++ upper))))

  abbrev pub placeholders : List String
  placeholders = ":lower_bound" ∷ ":upper_bound" ∷ ":table_fqn" ∷ ":env" ∷ []

  -- A placeholder that is left over is an error.
  unfoldable pub without_leftovers : String → Result String
  unfolding mentions
  without_leftovers s =
      if any (λ name. mentions name s) placeholders then err sql_build_error else ok s

  unfoldable pub render_query_template :
      String → RunSpec → Option String → Option String → Result String
  unfolding drop_semicolons replacements substitute_all without_leftovers
  render_query_template template spec lower_bound upper_bound =
      and_then (replacements spec lower_bound upper_bound) (λ table.
        and_then (substitute_all table (drop_semicolons (strip template))) without_leftovers)
