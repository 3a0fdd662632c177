-- ===== src/Audit/Handle/Traffic.antt =====
-- The calls on an `AuditWriter` of src/audit.rs and the turns of its thread as a sequence of events.
use orihsus.Prelude.{ℕ, ◌+◌, String, List, [], ◌∷◌, ◌++◌, Result, ok, err}
use orihsus.Audit.Writer.{FileOps, Command, record_line, reopen_at, AuditError}
use orihsus.Audit.Handle.{
  Outcome, accepted, dropped, AuditWriter, try_record, ask_reopen, take_turn,
}

-- What may happen to a handle that is open: a client offers a record or asks for a reopening, or the
-- thread takes a turn.
pub data Event (R : Type 0) : Type 0 where
  offer : R → Event R
  ask : String → ℕ → Event R
  turn : Event R

abbrev pub record_if_accepted : {R : Type 0} → R → Outcome → List (Command R)
record_if_accepted r accepted = record_line r ∷ []
record_if_accepted r dropped = []

abbrev pub reopen_if_sent :
    {Io R : Type 0} → String → ℕ → Result (Unit {0}) (AuditError Io) → List (Command R)
reopen_if_sent path ticket (ok done) = reopen_at path ticket ∷ []
reopen_if_sent path ticket (err e) = []

abbrev pub one_if_dropped : Outcome → ℕ
one_if_dropped accepted = 0
one_if_dropped dropped = 1

module _ {W H Io R : Type 0} (ops : FileOps W H Io R) where
  unfoldable pub step : AuditWriter W H Io R → Event R → AuditWriter W H Io R
  step a (offer r) = (try_record a r).0
  step a (ask path ticket) = (ask_reopen a path ticket).0
  step a turn = take_turn ops a

  unfoldable pub run : AuditWriter W H Io R → List (Event R) → AuditWriter W H Io R
  unfolding step
  run a [] = a
  run a (e ∷ es) = run (step a e) es

  -- The commands that the clients were told are accepted, in the order of the calls.
  abbrev pub taken : AuditWriter W H Io R → Event R → List (Command R)
  taken a (offer r) = record_if_accepted r (try_record a r).1
  taken a (ask path ticket) = reopen_if_sent path ticket (ask_reopen a path ticket).1
  taken a turn = []

  unfoldable pub log : AuditWriter W H Io R → List (Event R) → List (Command R)
  unfolding step
  log a [] = []
  log a (e ∷ es) = taken a e ++ log (step a e) es

  abbrev pub lost : AuditWriter W H Io R → Event R → ℕ
  lost a (offer r) = one_if_dropped (try_record a r).1
  lost a (ask path ticket) = 0
  lost a turn = 0

  -- The records that the clients were told are dropped.
  unfoldable pub drops : AuditWriter W H Io R → List (Event R) → ℕ
  unfolding step
  drops a [] = 0
  drops a (e ∷ es) = lost a e + drops (step a e) es
