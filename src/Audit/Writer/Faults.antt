-- ===== src/Audit/Writer/Faults.antt =====
-- The faults that the commands of `write_loop` of src/audit.rs meet, read off the files alone.
use orihsus.Prelude.{ℕ, ◌+◌, Option, none, some, List, [], ◌∷◌, ◌++◌, Result, ok, err}
use orihsus.Audit.Writer.{FileOps, Command, record_line, reopen_at}

-- A record that could not be encoded, or a write or flush that failed.
pub data Fault (Io : Type 0) : Type 0 where
  unencoded unwritten : Io → Fault Io

abbrev pub error_of : {Io : Type 0} → Option (Fault Io) → Option Io
error_of none = none
error_of (some (unencoded e)) = some e
error_of (some (unwritten e)) = some e

abbrev pub one_if_unwritten : {Io : Type 0} → Option (Fault Io) → ℕ
one_if_unwritten (some (unwritten e)) = 1
one_if_unwritten _ = 0

abbrev pub unwritten_if : {Io : Type 0} → Option Io → Option (Fault Io)
unwritten_if none = none
unwritten_if (some e) = some (unwritten e)

abbrev pub opened_or : {H Io : Type 0} → H → Result H Io → H
opened_or sink (ok file) = file
opened_or sink (err e) = sink

abbrev pub or_else : {Io : Type 0} → Option Io → Option Io → Option Io
or_else (some e) later = some e
or_else none later = later

unfoldable pub first_error_of : {Io : Type 0} → List (Option (Fault Io)) → Option Io
first_error_of [] = none
first_error_of (f ∷ fs) = or_else (error_of f) (first_error_of fs)

unfoldable pub failed_calls : {Io : Type 0} → List (Option (Fault Io)) → ℕ
failed_calls [] = 0
failed_calls (f ∷ fs) = one_if_unwritten f + failed_calls fs

module _ {W H Io R : Type 0} (ops : FileOps W H Io R) where
  abbrev pub write_encoded : W → H → Result (List ℕ) Io → W × H × Option (Fault Io)
  write_encoded world sink (err e) = (world, sink, some (unencoded e))
  write_encoded world sink (ok line) =
      let (after, failed) = ops.write_all world sink (line ++ 10 ∷ []) in
      (after, sink, unwritten_if failed)

  -- What one command does to the files, with no counter and no error kept.
  abbrev pub attempt : W → H → Command R → W × H × Option (Fault Io)
  attempt world sink (record_line r) = write_encoded world sink (ops.to_vec r)
  attempt world sink (reopen_at path ticket) =
      let (after, opened) = ops.open_append world path in (after, opened_or sink opened, none)

  -- The faults in order, with that of the last flush.
  unfoldable pub faults : W → H → List (Command R) → List (Option (Fault Io))
  faults world sink [] = unwritten_if (ops.flush world sink).1 ∷ []
  faults world sink (c ∷ cs) =
      let (after, file, fault) = attempt world sink c in fault ∷ faults after file cs
