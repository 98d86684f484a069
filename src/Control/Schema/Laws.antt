-- ===== src/Control/Schema/Laws.antt =====
-- The control plane can be set up wherever its catalog and its schema have plain names.
use oracle_repo.Base.{false, ◌<>◌, ◌≡◌, String, Bool, true, ◌&&◌, all, List, [], ◌∷◌}
use oracle_repo.Base.Text.Scan.{plain_identifier}
use oracle_repo.Platform.{Result, ok, err, control_schema_error}
use oracle_repo.Control.Schema.{TableDef, all_tables, defines}

-- A table with a plain name that is clustered by columns of its own.
abbrev well_defined : TableDef → Bool
well_defined t = plain_identifier t.name && all (defines t) t.cluster_by

abbrev pub named_table : String → String → String → String
named_table catalog schema name = catalog <> ("." <> (schema <> ("." <> name)))

-- How the statement for a table starts.
abbrev pub table_head : String → String → TableDef → String
table_head catalog schema t =
    "CREATE TABLE IF NOT EXISTS " <> (named_table catalog schema t.name <> " (")

abbrev pub schema_statement : String → String → String → String
schema_statement catalog schema comment =
    "CREATE SCHEMA IF NOT EXISTS " <> ((catalog <> ("." <> schema)) <> comment)

-- One statement for each table, in their order, that creates the table under its own name.
abbrev pub Creates : String → String → List TableDef → List String → Type 0
Creates catalog schema [] ss = ss ≡ []
Creates catalog schema (t ∷ ts) ss =
    (rest : String) × (later : List String) × (ss ≡ (table_head catalog schema t <> rest) ∷ later)
    × Creates catalog schema ts later

-- What ddl_statements does where both names are plain, and where one is not.
abbrev pub Outcome : String → String → Bool → Result (List String) → Type 0
Outcome catalog schema true r =
    (comment : String) × (ss : List String) × (r
      ≡ ok (schema_statement catalog schema comment ∷ ss))
    × Creates catalog schema all_tables ss
Outcome catalog schema false r = r ≡ err control_schema_error
