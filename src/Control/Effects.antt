-- ===== src/Control/Effects.antt =====
-- What an action may do to the tables, whether it returns or raises: rules for each way to build
-- an action, over a preorder on the tables.
use oracle_repo.Base.{
  ℕ, ◌≡◌, refl, subst, ◌+◌, Bool, true, false, Option, none, some, if◌then◌else◌,
}
use oracle_repo.Platform.{Platform, Error, Result, ok, err}
use oracle_repo.Control.Tables.{Tables}
use oracle_repo.Control.World.{
  AuditLog, Alert, World, Action, pure, throw, lift, try_except, client, bind_result, ◌>>=◌,
  get_log, put_log, on_lake, dispatch, sleep, read_clock, fresh_id,
}

pub record Preorder (T : Tables → Tables → Type 0) : Type 0 where
  pub stay : (t : Tables) → T t t
  pub trans : (t u v : Tables) → T t u → T u v → T t v

-- `m` takes the tables only along `T`.
pub record Steps {p : Platform} {A : Type 0} (T : Tables → Tables → Type 0) (m : Action p A)
    : Type 0 where
  pub along : (w : World p) → T w.tables (m w).1.tables

module _ {p : Platform} {A : Type 0} {T : Tables → Tables → Type 0} (o : Preorder T) where
  pub Steps-pure : (a : A) → Steps {p = p} T (pure a)
  unfolding pure
  Steps-pure a = record { along = λ w. o.stay w.tables }

  pub Steps-throw : (e : Error) → Steps {p = p} T (throw {A = A} e)
  unfolding throw
  Steps-throw e = record { along = λ w. o.stay w.tables }

  pub Steps-lift : (r : Result A) → Steps {p = p} T (lift r)
  unfolding lift
  Steps-lift r = record { along = λ w. o.stay w.tables }

  pub Steps-on_lake : (f : p.Lake → Result A × p.Lake) → Steps {p = p} T (on_lake f)
  unfolding on_lake
  Steps-on_lake f = record { along = λ w. o.stay w.tables }

  pub Steps-client :
      (f : Tables → A × Tables) → ((t : Tables) → T t (f t).1) → Steps {p = p} T (client f)
  unfolding client
  Steps-client f h = record { along = λ w. go w (p.fault w.calls) }
    where
      go :
          (w : World p) (x : Option Error)
          → T w.tables
              (elim x as (λ _. Result A × World p) [
                | some e ↦ (err e, record w { calls = w.calls + 1 })
                | none ↦
                    (ok (f w.tables).0, record w { calls = w.calls + 1; tables = (f w.tables).1 })
              ]).1.tables
      go w none = h w.tables
      go w (some e) = o.stay w.tables

  pub Steps-if :
      (b : Bool) (m n : Action p A) → Steps T m → Steps T n → Steps T (if b then m else n)
  Steps-if true m n hm hn = hm
  Steps-if false m n hm hn = hn

  pub Steps-try :
      (m : Action p A) (h : Error → Action p A)
      → Steps T m
      → ((e : Error) → Steps T (h e))
      → Steps T (try_except m h)
  unfolding try_except
  Steps-try m h hm hh = record { along = λ w. go w (m w) (hm.along w) }
    where
      go :
          (w : World p) (x : Result A × World p)
          → T w.tables x.1.tables
          → T w.tables
              (elim x.0 as (λ _. Result A × World p) [
                | ok a ↦ (ok a, x.1)
                | err e ↦ h e x.1
              ]).1.tables
      go w (ok a, w') k = k
      go w (err e, w') k = o.trans w.tables w'.tables _ k ((hh e).along w')

module _ {p : Platform} {A B : Type 0} {T : Tables → Tables → Type 0} (o : Preorder T) where
  pub Steps-bind :
      (m : Action p A) (f : A → Action p B)
      → Steps T m
      → ((a : A) → Steps T (f a))
      → Steps T (m >>= f)
  unfolding ◌>>=◌
  Steps-bind m f hm hf = record { along = λ w. go w (m w) (hm.along w) }
    where
      go :
          (w : World p) (x : Result A × World p)
          → T w.tables x.1.tables
          → T w.tables (bind_result x.0 f x.1).1.tables
      go w (ok a, w') k = o.trans w.tables w'.tables _ k ((hf a).along w')
      go w (err e, w') k = k

  -- The rest of the block may use that `r` did not raise.
  pub Steps-bind_lift :
      (r : Result A) (f : A → Action p B)
      → ((a : A) → r ≡ ok a → Steps T (f a))
      → Steps T (lift r >>= f)
  unfolding ◌>>=◌
  Steps-bind_lift (ok a) f h = record { along = λ w. (h a refl).along w }
  Steps-bind_lift (err e) f h = record { along = λ w. o.stay w.tables }

  -- The rest of the block may use that `m` returned.
  pub Steps-bind_ok :
      (m : Action p A) (f : A → Action p B)
      → Steps T m
      → ((w : World p) (a : A) → (m w).0 ≡ ok a → Steps T (f a))
      → Steps T (m >>= f)
  unfolding ◌>>=◌
  Steps-bind_ok m f hm hf = record { along = λ w. go w (m w) (hm.along w) (hf w) }
    where
      go :
          (w : World p) (x : Result A × World p)
          → T w.tables x.1.tables
          → ((a : A) → x.0 ≡ ok a → Steps T (f a))
          → T w.tables (bind_result x.0 f x.1).1.tables
      go w (ok a, w') k h = o.trans w.tables w'.tables _ k ((h a refl).along w')
      go w (err e, w') k h = k

module _ {p : Platform} {T : Tables → Tables → Type 0} (o : Preorder T) where
  pub Steps-get_log : Steps {p = p} T get_log
  unfolding get_log
  Steps-get_log = record { along = λ w. o.stay w.tables }

  pub Steps-put_log : (log : AuditLog) → Steps {p = p} T (put_log log)
  unfolding put_log
  Steps-put_log log = record { along = λ w. o.stay w.tables }

  pub Steps-read_clock : Steps {p = p} T read_clock
  unfolding read_clock
  Steps-read_clock = record { along = λ w. o.stay w.tables }

  pub Steps-fresh_id : Steps {p = p} T fresh_id
  unfolding fresh_id
  Steps-fresh_id = record { along = λ w. o.stay w.tables }

  pub Steps-dispatch : (a : Alert) → Steps {p = p} T (dispatch a)
  unfolding dispatch
  Steps-dispatch a = record { along = λ w. o.stay w.tables }

  pub Steps-sleep : (n : ℕ) → Steps {p = p} T (sleep n)
  unfolding sleep
  Steps-sleep n = record { along = λ w. o.stay w.tables }

pub ruleset steps_rules = (
  Steps-pure, Steps-throw, Steps-lift, Steps-on_lake, Steps-if, Steps-bind, Steps-try,
  Steps-get_log, Steps-put_log, Steps-read_clock, Steps-fresh_id, Steps-dispatch, Steps-sleep,
)

-- What holds of the value of `m` whenever it returns one.
pub record Returns {p : Platform} {A : Type 0} (Q : A → Type 0) (m : Action p A) : Type 0 where
  pub holds : (w : World p) (a : A) → (m w).0 ≡ ok a → Q a

module _ {p : Platform} {A : Type 0} (Q : A → Type 0) where
  pub Returns-pure : (a : A) → Q a → Returns {p = p} Q (pure a)
  unfolding pure
  Returns-pure a q = record { holds = λ w b e. subst Q (ok-injective e) q }
    where
      ok-injective : {a b : A} → ok a ≡ ok b → a ≡ b
      ok-injective e = cc

  pub Returns-throw : (e : Error) → Returns {p = p} Q (throw e)
  unfolding throw
  Returns-throw e = record { holds = λ w b h. cc }

  pub Returns-if :
      (b : Bool) (m n : Action p A)
      → (b ≡ true → Returns Q m)
      → (b ≡ false → Returns Q n)
      → Returns Q (if b then m else n)
  Returns-if true m n hm hn = hm refl
  Returns-if false m n hm hn = hn refl

  pub Returns-on_lake :
      (f : p.Lake → Result A × p.Lake)
      → ((lake : p.Lake) (a : A) → (f lake).0 ≡ ok a → Q a)
      → Returns {p = p} Q (on_lake f)
  unfolding on_lake
  Returns-on_lake f h = record { holds = λ w a e. h w.lake a e }

  pub Returns-try :
      (m : Action p A) (h : Error → Action p A)
      → Returns Q m
      → ((e : Error) → Returns Q (h e))
      → Returns Q (try_except m h)
  unfolding try_except
  Returns-try m h hm hh = record { holds = λ w b e. go (m w) (hm.holds w) b e }
    where
      go :
          (x : Result A × World p)
          → ((a : A) → x.0 ≡ ok a → Q a)
          → (b : A)
          → (elim x.0 as (λ _. Result A × World p) [ ok a ↦ (ok a, x.1) | err e ↦ h e x.1 ]).0
            ≡ ok b
          → Q b
      go (ok a, w') k b e = k b e
      go (err x, w') k b e = (hh x).holds w' b e

module _ {p : Platform} {A B : Type 0} {Q : B → Type 0} where
  -- With what is known of the first value.
  pub Returns-bind :
      {P : A → Type 0} (m : Action p A) (f : A → Action p B)
      → Returns P m
      → ((a : A) → P a → Returns Q (f a))
      → Returns Q (m >>= f)
  unfolding ◌>>=◌
  Returns-bind {P} m f hm hf = record { holds = λ w b e. go (m w) (hm.holds w) b e }
    where
      go :
          (x : Result A × World p)
          → ((a : A) → x.0 ≡ ok a → P a)
          → (b : B) → (bind_result x.0 f x.1).0 ≡ ok b
          → Q b
      go (ok a, w') h b e = (hf a (h a refl)).holds w' b e
      go (err x, w') h b e = cc

  -- With nothing known of it.
  pub Returns-then :
      (m : Action p A) (f : A → Action p B) → ((a : A) → Returns Q (f a)) → Returns Q (m >>= f)
  Returns-then m f hf =
      Returns-bind {P = λ _. Unit {0}} m f (record { holds = λ w a e. tt }) (λ a _. hf a)
