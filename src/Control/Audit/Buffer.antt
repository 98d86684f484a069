-- ===== src/Control/Audit/Buffer.antt =====
-- What the audit log holds and writes.
use oracle_repo.Base.{
  ℕ, ◌+◌, ◌≡◌, ◌≤◌, ◌<◌, refl, ◌∙◌, sym, ap, subst, String, Bool, true, false, ◌||◌, Option, List,
  [], ◌∷◌, ◌++◌, length, leb, arith, if◌then◌else◌,
}
use mathlib.Core.List.{append-nil, append_assoc}
use oracle_repo.Platform.{Platform, ok}
use oracle_repo.Control.Tables.{EventType, AuditEvent, Field}
use oracle_repo.Control.World.{
  World, Action, pure, client, get_log, put_log, read_clock, fresh_id, ◌>>=◌, ◌>>◌,
}
use oracle_repo.Control.Total.{NoFault}
use oracle_repo.Control.Audit.{or_bound, write_out, flush, emit}

-- The events written, and those that wait, in their order.
abbrev pub recorded : {p : Platform} → World p → List AuditEvent
recorded w = w.tables.audit_log ++ w.log.buffer

emptied : (b c : Bool) (es : List AuditEvent) → b ≡ true → (if b || c then [] else es) ≡ []
emptied b c es h = ground (arith, h)

below_limit :
    (b : Bool) (limit : ℕ) (es : List AuditEvent)
    → 1 ≤ limit
    → length (if b || leb limit (length es) then [] else es) < limit
below_limit b limit es h = ground (arith, h)

module _ {p : Platform} (sound : NoFault p) where
  -- A flush writes what waits: nothing is lost, and nothing waits any more.
  pub flush_lem :
      (w : World p)
      → ((flush p w).0 ≡ ok (length w.log.buffer))
        × (recorded (flush p w).1 ≡ recorded w)
        × ((flush p w).1.log ≡ record w.log { buffer = [] })
  unfolding flush ◌>>=◌ get_log write_out put_log client pure
  flush_lem w = go w w.log.buffer refl
    where
      go :
          (w : World p) (es : List AuditEvent)
          → w.log.buffer ≡ es
          → ((write_out p es w).0 ≡ ok (length es))
            × (recorded (write_out p es w).1 ≡ recorded w)
            × ((write_out p es w).1.log ≡ record w.log { buffer = [] })
      go w [] h = (refl, refl, ap (λ xs. record w.log { buffer = xs }) h)
      go w (e ∷ es) h =
          rw (client, sound w.calls)
            (refl, append-nil _ ∙ ap (λ xs. w.tables.audit_log ++ xs) (sym h), refl)

  flush-pure : (w : World p) (e : AuditEvent) → (flush p >> pure e) w ≡ (ok e, (flush p w).1)
  unfolding ◌>>=◌ pure
  flush-pure w e = rw (flush_lem w).0 refl

  -- How `emit` ends.
  abbrev ending : Bool → AuditEvent → Action p AuditEvent
  ending b e = if b then flush p >> pure e else pure e

  ending_lem :
      (b : Bool) (e : AuditEvent) (w : World p)
      → ((ending b e w).0 ≡ ok e)
        × (recorded (ending b e w).1 ≡ recorded w)
        × ((ending b e w).1.log ≡ record w.log { buffer = if b then [] else w.log.buffer })
  unfolding pure
  ending_lem true e w = rw (flush-pure w e) (refl, (flush_lem w).1, (flush_lem w).2)
  ending_lem false e w = (refl, refl, refl)

  -- When the client raises nothing, `emit` returns an event with the next sequence number and adds
  -- it to the end of what is recorded, written or waiting: no event is lost or moved. After a flush
  -- nothing waits, and fewer events than the limit wait in any case.
  pub emit_lem :
      (event_type : EventType) (table_fqn : Option String) (payload : List (String × Field))
      (run_id : Option String) (flushes : Bool) (w : World p)
      → (e : AuditEvent) × ((emit p event_type table_fqn payload run_id flushes w).0 ≡ ok e)
        × (e.sequence ≡ w.log.sequence + 1)
        × ((emit p event_type table_fqn payload run_id flushes w).1.log.sequence
            ≡ w.log.sequence + 1)
        × (recorded (emit p event_type table_fqn payload run_id flushes w).1 ≡ recorded w ++ e ∷ [])
        × (flushes ≡ true
            → (emit p event_type table_fqn payload run_id flushes w).1.log.buffer ≡ [])
        × (1 ≤ w.log.buffer_limit
            → length (emit p event_type table_fqn payload run_id flushes w).1.log.buffer
              < w.log.buffer_limit)
  unfolding emit ◌>>=◌ get_log put_log read_clock fresh_id
  emit_lem event_type table_fqn payload run_id flushes w = (
    event,
    h.0,
    refl,
    ap (λ log. log.sequence) h.2,
    h.1 ∙ sym (append_assoc w.tables.audit_log w.log.buffer (event ∷ [])),
    λ yes. ap (λ log. log.buffer) h.2 ∙ emptied flushes _ (w.log.buffer ++ event ∷ []) yes,
    λ some_limit.
        subst (λ xs. length xs < w.log.buffer_limit) (sym (ap (λ log. log.buffer) h.2))
          (below_limit flushes w.log.buffer_limit (w.log.buffer ++ event ∷ []) some_limit),
  )
    where
      event : AuditEvent
      event = record {
        event_id = p.new_id w.ids;
        event_type = event_type;
        event_ts = p.now w.ticks;
        run_id = or_bound run_id w.log.run_id;
        table_fqn = table_fqn;
        env = w.log.env;
        sequence = w.log.sequence + 1;
        actor = w.log.actor;
        payload = payload;
      }

      test : Bool
      test = flushes || leb w.log.buffer_limit (length (w.log.buffer ++ event ∷ []))

      filled : World p
      filled = record w {
        ids = w.ids + 1;
        ticks = w.ticks + 1;
        log = record w.log { sequence = w.log.sequence + 1; buffer = w.log.buffer ++ event ∷ [] };
      }

      h :
          ((ending test event filled).0 ≡ ok event)
          × (recorded (ending test event filled).1 ≡ recorded filled)
          × ((ending test event filled).1.log
              ≡ record filled.log { buffer = if test then [] else filled.log.buffer })
      h = ending_lem test event filled
