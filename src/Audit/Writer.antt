-- ===== src/Audit/Writer.antt =====
-- `write_loop` of src/audit.rs: the thread that writes the accepted records, one command at a time.
-- Files and the encoder of a record are parameters: `W` is the file system and `H` an open file.
pub mod Failures
pub mod Faults
pub mod Journal
use orihsus.Prelude.{
  ℕ, ◌+◌, ◌%◌, ◌^◌, String, Bool, true, false, Option, none, some, List, [], ◌∷◌, ◌++◌, Result, ok,
  err,
}

-- `Io` stands for `std::io::Error`.
pub data AuditError (Io : Type 0) : Type 0 where
  io : Io → AuditError Io
  invalid_capacity : ℕ → AuditError Io
  writer_panicked reopen_queue_full reopen_timeout shutdown_timeout : AuditError Io

-- What the thread uses of the file system, and `serde_json::to_vec` with its error as an I/O error.
pub record FileOps (W H Io R : Type 0) : Type 0 where
  pub open_append : W → String → W × Result H Io
  pub write_all : W → H → List ℕ → W × Option Io
  pub flush : W → H → W × Option Io
  pub to_vec : R → Result (List ℕ) Io

-- The ticket of a `reopen` names the channel that its reply goes to.
pub data Command (R : Type 0) : Type 0 where
  record_line : R → Command R
  reopen_at : String → ℕ → Command R

abbrev pub write_warning : String
write_warning =
    "orihsus: audit write failed; the audit log may be incomplete (further failures are only counted)"

-- The new flag, and what is on standard error.
unfoldable pub warn_once : Bool → String → List String → Bool × List String
warn_once true message stderr = (true, stderr)
warn_once false message stderr = (true, stderr ++ message ∷ [])

pub record Writer (W H Io : Type 0) : Type 0 where
  pub world : W
  pub sink : H
  pub write_failures : ℕ
  pub write_warned : Bool
  pub first_error : Option Io
  pub replies : List (ℕ × Result (Unit {0}) (AuditError Io))
  pub stderr : List String

abbrev pub start_writer : {W H Io : Type 0} → W → H → Writer W H Io
start_writer world sink = record {
  world = world;
  sink = sink;
  write_failures = 0;
  write_warned = false;
  first_error = none;
  replies = [];
  stderr = [];
}

-- `if first_error.is_none() { first_error = Some(e) }`.
abbrev pub keep_first : {Io : Type 0} → Option Io → Io → Option Io
keep_first none e = some e
keep_first (some first) e = some first

abbrev pub exit_result : {Io : Type 0} → Option Io → Result (Unit {0}) (AuditError Io)
exit_result none = ok tt
exit_result (some e) = err (io e)

module _ {W H Io : Type 0} where
  abbrev pub note_error : Writer W H Io → Io → Writer W H Io
  note_error w e = record w { first_error = keep_first w.first_error e }

  -- `fetch_add` on 64 bits, the warning and the first error.
  unfoldable pub count_failure : Writer W H Io → Option Io → Writer W H Io
  unfolding warn_once
  count_failure w none = w
  count_failure w (some e) =
      let (warned, printed) = warn_once w.write_warned write_warning w.stderr in
      record w {
        write_failures = (w.write_failures + 1) % 2 ^ 64;
        write_warned = warned;
        stderr = printed;
        first_error = keep_first w.first_error e;
      }

  abbrev reply : Writer W H Io → ℕ → Result (Unit {0}) (AuditError Io) → Writer W H Io
  reply w ticket r = record w { replies = w.replies ++ (ticket, r) ∷ [] }

  unfoldable pub after_open : Writer W H Io → ℕ → W → Result H Io → Writer W H Io
  after_open w ticket world (ok file) =
      reply (record w { world = world; sink = file }) ticket (ok tt)
  after_open w ticket world (err e) = reply (record w { world = world }) ticket (err (io e))

module _ {W H Io R : Type 0} (ops : FileOps W H Io R) where
  unfoldable pub write_line : Writer W H Io → Result (List ℕ) Io → Writer W H Io
  unfolding count_failure
  write_line w (err e) = note_error w e
  write_line w (ok line) =
      let (world, failed) = ops.write_all w.world w.sink (line ++ 10 ∷ []) in
      count_failure (record w { world = world }) failed

  -- One turn of the loop.
  unfoldable pub handle : Writer W H Io → Command R → Writer W H Io
  unfolding write_line after_open
  handle w (record_line r) = write_line w (ops.to_vec r)
  handle w (reopen_at path ticket) =
      let (world, opened) = ops.open_append w.world path in after_open w ticket world opened

  -- The loop on a channel that gives these commands and is then closed.
  unfoldable pub replay : Writer W H Io → List (Command R) → Writer W H Io
  unfolding handle
  replay w [] = w
  replay w (c ∷ cs) = replay (handle w c) cs

  -- What stands behind the loop: the flush, and the result of the thread.
  unfoldable pub finish : Writer W H Io → Writer W H Io × Result (Unit {0}) (AuditError Io)
  unfolding count_failure
  finish w =
      let (world, failed) = ops.flush w.world w.sink in
      let done = count_failure (record w { world = world }) failed in
      (done, exit_result done.first_error)

  unfoldable pub write_loop :
      W → H → List (Command R) → Writer W H Io × Result (Unit {0}) (AuditError Io)
  unfolding replay finish
  write_loop world sink commands = finish (replay (start_writer world sink) commands)
