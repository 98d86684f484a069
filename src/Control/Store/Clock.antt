-- ===== src/Control/Store/Clock.antt =====
-- `ControlStore` of src/ingestion_framework/control/control_store.py: its clock.
use oracle_repo.Base.{ℕ, Option, none, some}
use oracle_repo.Base.Int.{ℤ}
use oracle_repo.Platform.{Platform}
use oracle_repo.Control.World.{Action, pure, read_clock}

module _ (p : Platform) where
  -- `given or self._now()`
  abbrev pub or_now : Option ℕ → Action p ℕ
  or_now none = read_clock
  or_now (some t) = pure t

  abbrev pub duration_since : Option ℕ → ℕ → Option ℤ
  duration_since none ended = none
  duration_since (some started) ended = some (p.duration_ms started ended)
