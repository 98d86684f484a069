-- ===== src/Engine/Extractor/Reads.antt =====
-- Spark refuses a read that has both `query` and `partitionColumn`.
use oracle_repo.Base.{
  refl, inl, inr, ◌≡◌, ◌⊎◌, ◌∙◌, String, ◌==◌, Bool, true, false, not, Bool-cases, Option, none,
  some, [], ◌∷◌, all, arith,
}
use oracle_repo.Base.Text.{show}
use oracle_repo.Base.Dict.{get, put, put_all, get-put_ne, get-put_self}
use oracle_repo.RunSpec.{Value, null, number, text, RunSpec, is_set, is_parallel}
use oracle_repo.Engine.Sql.Queries.{SourceQuery, as_subquery}
use oracle_repo.Engine.Cluster.{Options}
use oracle_repo.Engine.Extractor.{
  Credentials, text_value, login_options, with_session, partitioned, read_options, jdbc_options,
}

-- Whether a key is not among those of a mapping.
abbrev pub lacks : String → Options → Bool
lacks k o = all (λ e. not (e.0 == k)) o

get-put_all :
    (k : String) (more o : Options) → lacks k more ≡ true → get k (put_all more o) ≡ get k o
unfolding put_all
get-put_all k [] o h = refl
get-put_all k ((j, v) ∷ more) o h =
    get-put_all k more (put j v o) (ground (arith, h)) ∙ get-put_ne j k v o (ground (arith, h))

-- A read of a query, or of a table that is split.
abbrev pub ReadsOnce : RunSpec → SourceQuery → Options → Type 0
ReadsOnce spec query o =
    ((get "query" o ≡ some (text query.sql))
      × (get "dbtable" o ≡ none)
      × (get "partitionColumn" o ≡ none))
    ⊎ ((get "query" o ≡ none)
        × (get "dbtable" o ≡ some (text (as_subquery query "src")))
        × (get "partitionColumn" o ≡ some (text_value spec.source.read.partition_column)))

-- What the options are before the extract is put in, with a session statement or without one.
abbrev Plain : Options → Type 0
Plain o = (get "query" o ≡ none) × (get "dbtable" o ≡ none) × (get "partitionColumn" o ≡ none)

whole_read :
    (spec : RunSpec) (query : SourceQuery) (o : Options)
    → Plain o
    → ReadsOnce spec query (put "query" (text query.sql) o)
whole_read spec query o h = inl (
  get-put_self "query" (text query.sql) o,
  get-put_ne "query" "dbtable" (text query.sql) o refl ∙ h.1,
  get-put_ne "query" "partitionColumn" (text query.sql) o refl ∙ h.2,
)

past_bounds :
    (k : String) (count lower upper : Value) (o : Options)
    → ("numPartitions" == k) ≡ false
    → ("upperBound" == k) ≡ false
    → ("lowerBound" == k) ≡ false
    → get k (put "numPartitions" count (put "upperBound" upper (put "lowerBound" lower o)))
      ≡ get k o
past_bounds k count lower upper o hn hu hl =
    get-put_ne "numPartitions" k count (put "upperBound" upper (put "lowerBound" lower o)) hn
    ∙ get-put_ne "upperBound" k upper (put "lowerBound" lower o) hu
    ∙ get-put_ne "lowerBound" k lower o hl

split_read :
    (spec : RunSpec) (query : SourceQuery) (lower upper : Value) (o : Options)
    → Plain o
    → ReadsOnce spec query (partitioned spec query lower upper o)
split_read spec query lower upper o h =
    let count = number (show spec.source.read.num_partitions) in
    let table = put "dbtable" (text (as_subquery query "src")) o in
    let column = text_value spec.source.read.partition_column in
    inr (
      past_bounds "query" count lower upper (put "partitionColumn" column table) refl refl refl
          ∙ get-put_ne "partitionColumn" "query" column table refl
          ∙ get-put_ne "dbtable" "query" _ o refl
          ∙ h.0,
      past_bounds "dbtable" count lower upper (put "partitionColumn" column table) refl refl refl
          ∙ get-put_ne "partitionColumn" "dbtable" column table refl
          ∙ get-put_self "dbtable" _ o,
      past_bounds "partitionColumn" count lower upper (put "partitionColumn" column table) refl refl
            refl
          ∙ get-put_self "partitionColumn" column table,
    )

one_read :
    (spec : RunSpec) (query : SourceQuery) (bounds : Option (Value × Value)) (o : Options)
    → Plain o
    → ReadsOnce spec query (read_options spec query bounds o)
unfolding read_options
one_read spec query none o h = whole_read spec query o h
one_read spec query (some (null, upper)) o h = whole_read spec query o h
one_read spec query (some (lower, null)) o h = whole_read spec query o h
one_read spec query (some (lower, upper)) o h = elim (Bool-cases (is_parallel spec.source.read)) [
  | inl e ↦ rw e (split_read spec query _ _ o h)
  | inr e ↦ rw e (whole_read spec query o h)
]

base_options : RunSpec → Credentials → Options
base_options spec credentials =
    with_session spec.source (
      put "fetchsize" (number (show spec.source.fetch_size))
        (login_options spec.source credentials))

base-Plain : (spec : RunSpec) (credentials : Credentials) → Plain (base_options spec credentials)
unfolding base_options with_session login_options get put
base-Plain spec credentials = elim (Bool-cases (is_set spec.source.session_init_statement)) [
  | inl e ↦ rw e (refl, refl, refl)
  | inr e ↦ rw e (refl, refl, refl)
]

-- A read is of the query, or of the query as a table that is split on the partition column, and
-- never of both, where the source's own options name none of the three.
pub jdbc_options_lem :
    (spec : RunSpec) (query : SourceQuery) (credentials : Credentials)
    (bounds : Option (Value × Value))
    → lacks "query" spec.source.options ≡ true
    → lacks "dbtable" spec.source.options ≡ true
    → lacks "partitionColumn" spec.source.options ≡ true
    → ReadsOnce spec query (jdbc_options spec query credentials bounds)
unfolding jdbc_options base_options
jdbc_options_lem spec query credentials bounds hq hd hp =
    let own = spec.source.options in
    let o = read_options spec query bounds (base_options spec credentials) in
    elim (one_read spec query bounds (base_options spec credentials)
      (base-Plain spec credentials)) [
        | inl (a, b, c) ↦ inl (
          get-put_all "query" own o hq ∙ a,
          get-put_all "dbtable" own o hd ∙ b,
          get-put_all "partitionColumn" own o hp ∙ c,
        )
        | inr (a, b, c) ↦ inr (
          get-put_all "query" own o hq ∙ a,
          get-put_all "dbtable" own o hd ∙ b,
          get-put_all "partitionColumn" own o hp ∙ c,
        )
      ]
