-- ===== src/Control/World.antt =====
-- The state that the framework's objects share, and the effects of its methods: each takes the
-- state to a result or an exception, and a new state that outlives the exception.
use oracle_repo.Base.{
  ℕ, ◌+◌, String, Bool, Option, none, some, List, [], ◌∷◌, ◌++◌, map, any, if◌then◌else◌,
}
use oracle_repo.Platform.{Platform, Error, Result, ok, err}
use oracle_repo.Control.Tables.{Tables, AuditEvent, Field}

-- `AuditLog`, without the client
pub record AuditLog : Type 0 where
  pub run_id : Option String
  pub env : Option String
  pub actor : Option String
  pub buffer : List AuditEvent
  pub buffer_limit : ℕ
  pub sequence : ℕ

-- An alert with the channels that it was dispatched to.
pub record Alert : Type 0 where
  pub event : String
  pub table_fqn : String
  pub env : String
  pub run_id : String
  pub details : List (String × Field)
  pub channels : List String

-- `calls`, `ticks` and `ids` count the calls of the client, the readings of the clock and the
-- identifiers drawn.
pub record World (p : Platform) : Type 0 where
  pub tables : Tables
  pub log : AuditLog
  pub lake : p.Lake
  pub calls : ℕ
  pub ticks : ℕ
  pub ids : ℕ
  pub alerts : List Alert
  pub slept : List ℕ

abbrev pub Action : Platform → Type 0 → Type 0
Action p A = World p → Result A × World p

module _ {p : Platform} {A : Type 0} where
  unfoldable pub pure : A → Action p A
  pure a w = (ok a, w)

  unfoldable pub throw : Error → Action p A
  throw e w = (err e, w)

  unfoldable pub lift : Result A → Action p A
  lift r w = (r, w)

  -- `try: body` / `except Exception as exc: handler`
  unfoldable pub try_except : Action p A → (Error → Action p A) → Action p A
  try_except body handler w =
      let (r, w') = body w in elim r [ ok a ↦ (ok a, w') | err e ↦ handler e w' ]

  -- One call of the SQL client: it may raise, and then the tables are as they were.
  unfoldable pub client : (Tables → A × Tables) → Action p A
  client f w = elim (p.fault w.calls) [
    | some e ↦ (err e, record w { calls = w.calls + 1 })
    | none ↦ (ok (f w.tables).0, record w { calls = w.calls + 1; tables = (f w.tables).1 })
  ]

module _ {p : Platform} {A B : Type 0} where
  abbrev pub bind_result : Result A → (A → Action p B) → Action p B
  bind_result (ok a) f w = f a w
  bind_result (err e) f w = (err e, w)

  infixl 5 ◌>>=◌ ◌>>◌
  -- Whoever opens a block opens what its first and last lines are made of.
  unfoldable pub ◌>>=◌ : Action p A → (A → Action p B) → Action p B
  unfolding pure throw lift
  ◌>>=◌ m f w = let (r, w') = m w in bind_result r f w'

  abbrev pub ◌>>◌ : Action p A → Action p B → Action p B
  m >> n = m >>= λ _. n

-- The audit log object, read and written.
unfoldable pub get_log : {p : Platform} → Action p AuditLog
get_log w = (ok w.log, w)

unfoldable pub put_log : {p : Platform} → AuditLog → Action p (Unit {0})
put_log log w = (ok tt, record w { log = log })

-- An operation of Spark or JDBC on the lake.
unfoldable pub on_lake : {p : Platform} {A : Type 0} → (p.Lake → Result A × p.Lake) → Action p A
on_lake f w = ((f w.lake).0, record w { lake = (f w.lake).1 })

-- `alerts.dispatch`: it never raises.
unfoldable pub dispatch : {p : Platform} → Alert → Action p (Unit {0})
dispatch alert w = (ok tt, record w { alerts = w.alerts ++ alert ∷ [] })

unfoldable pub sleep : {p : Platform} → ℕ → Action p (Unit {0})
sleep seconds w = (ok tt, record w { slept = w.slept ++ seconds ∷ [] })

-- The engine's clock.
unfoldable pub read_clock : {p : Platform} → Action p ℕ
read_clock {p} w = (ok (p.now w.ticks), record w { ticks = w.ticks + 1 })

unfoldable pub fresh_id : {p : Platform} → Action p String
fresh_id {p} w = (ok (p.new_id w.ids), record w { ids = w.ids + 1 })

module _ {ℓ} {Row : Type ℓ} where
  -- `UPDATE … SET … WHERE …`
  abbrev pub update_where : (Row → Bool) → (Row → Row) → List Row → List Row
  update_where on set rows = map (λ r. if on r then set r else r) rows

  -- `MERGE INTO … USING (one row) ON … WHEN MATCHED THEN UPDATE … WHEN NOT MATCHED THEN INSERT …`
  unfoldable pub merge_into : (Row → Bool) → (Row → Row) → Row → List Row → List Row
  merge_into on set new rows = if any on rows then update_where on set rows else rows ++ new ∷ []
