-- ===== src/Engine/Cluster.antt =====
-- What the engine asks of Spark, of Delta, of the JDBC source and of the secret store. Each
-- operation may raise and may change the lake.
use oracle_repo.Base.{ℕ, String, Bool, Option, List}
use oracle_repo.RunSpec.{Value}
use oracle_repo.Platform.{Platform, Error, Result, ok, err}

-- An operation on a lake.
abbrev pub Step : Type 0 → Type 0 → Type 0
Step L A = L → Result A × L

-- The options of a JDBC read, and a row by the names of its columns.
abbrev pub Options : Type 0
Options = List (String × Value)

pub record Cluster (p : Platform) : Type 0 where
  -- `dataframe.columns`, and the fields of its schema with their types in upper case
  pub columns : p.Frame → List String
  pub fields : p.Frame → List (String × String)
  pub create_view : p.Frame → String → Step p.Lake (Unit {0})
  -- `spark.sql(statement)`
  pub sql : String → Step p.Lake p.Frame
  -- `int(spark.sql(query).collect()[0][0])`
  pub sql_count : String → Step p.Lake ℕ
  -- The first value of the first row of a query, 0 for no row.
  pub sql_value : String → Step p.Lake ℕ
  pub table_exists : String → Step p.Lake Bool
  pub set_conf : String → String → Step p.Lake (Unit {0})
  -- `dataframe.write.format("delta").mode(…).option(…).partitionBy(…).saveAsTable(…)`
  pub save :
      p.Frame → String → Option (String × String) → List String → String → Step p.Lake (Unit {0})
  -- The metrics in the first row of the history, `none` for no row.
  pub history : String → Step p.Lake (Option (List (String × Value)))
  -- The reader of a JDBC source, and the first row of a frame that is collected.
  pub read : Options → Step p.Lake p.Frame
  pub first_row : p.Frame → Step p.Lake (Option (List (String × Value)))
  -- `secrets.get(scope, key)`, and whether there is a secret provider
  pub secret : String → String → Step p.Lake String
  pub has_secrets : Bool
  -- The contents of the query file, `none` where there is no such file.
  pub query_text : String → Option String

module _ {L : Type 0} {A : Type 0} where
  unfoldable pub give : A → Step L A
  give a lake = (ok a, lake)

  unfoldable pub refuse : Error → Step L A
  refuse e lake = (err e, lake)

  unfoldable pub lifted : Result A → Step L A
  lifted r lake = (r, lake)

  -- `try: body` / `except Exception: return a`
  unfoldable pub or_else : A → Step L A → Step L A
  or_else a body lake =
      let (r, lake') = body lake in elim r [ ok b ↦ (ok b, lake') | err e ↦ (ok a, lake') ]

module _ {L : Type 0} {A B : Type 0} where
  abbrev pub bind_step : Result A → (A → Step L B) → Step L B
  bind_step (ok a) f lake = f a lake
  bind_step (err e) f lake = (err e, lake)

  infixl 5 ◌>>=◌ ◌>>◌
  unfoldable pub ◌>>=◌ : Step L A → (A → Step L B) → Step L B
  unfolding give refuse lifted
  ◌>>=◌ m f lake = let (r, lake') = m lake in bind_step r f lake'

  abbrev pub ◌>>◌ : Step L A → Step L B → Step L B
  m >> n = m >>= λ _. n
