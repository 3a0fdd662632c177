-- ===== src/Audit/Handle.antt =====
-- `AuditWriter` of src/audit.rs: the handle that clients hold, the bounded channel behind it and the
-- thread at its other end. A state is what all of them see; the thread takes one command at a time.
pub mod Service
pub mod Traffic
use orihsus.Prelude.{
  ℕ, ◌+◌, ◌%◌, ◌^◌, String, Bool, true, false, Option, none, some, List, [], ◌∷◌, ◌++◌, Result, ok,
  err, length, leb, ◌==◌, if◌then◌else◌,
}
use orihsus.Audit.Writer.{
  AuditError, io, invalid_capacity, writer_panicked, reopen_queue_full, reopen_timeout,
  shutdown_timeout, FileOps, Command, record_line, reopen_at, Writer, start_writer, warn_once,
  handle, replay, finish,
}

pub data Outcome : Type 0 where
  accepted dropped : Outcome

-- The writer thread: at its loop, or gone with what `join` gives.
pub data Thread (W H Io : Type 0) : Type 0 where
  running : Writer W H Io → Thread W H Io
  panicked : Thread W H Io

-- `channel` holds what was sent and not yet received, oldest first.
pub record AuditWriter (W H Io R : Type 0) : Type 0 where
  pub tx : Bool
  pub channel : List (Command R)
  pub capacity : ℕ
  pub dropped_count : ℕ
  pub drop_warned : Bool
  pub detach_warned : Bool
  pub stderr : List String
  pub has_handle : Bool
  pub thread : Thread W H Io

-- `SyncSender::try_send`.
pub data TrySend (A : Type 0) : Type 0 where
  sent : A → TrySend A
  full disconnected : TrySend A

abbrev pub drop_warning : String
drop_warning =
    "orihsus: audit record dropped; the queue is full or the writer is gone (further drops are only counted)"

abbrev pub detach_warning : String
detach_warning =
    "orihsus: audit writer detached without a final flush; unflushed records may be lost"

module _ {W H Io R : Type 0} where
  abbrev push_to : AuditWriter W H Io R → Command R → AuditWriter W H Io R
  push_to a c = record a { channel = a.channel ++ c ∷ [] }

  abbrev pub send_to :
      AuditWriter W H Io R → Command R → Thread W H Io → TrySend (AuditWriter W H Io R)
  send_to a c panicked = disconnected
  send_to a c (running w) = if leb a.capacity (length a.channel) then full else sent (push_to a c)

  unfoldable pub try_send : AuditWriter W H Io R → Command R → TrySend (AuditWriter W H Io R)
  try_send a c = send_to a c a.thread

  unfoldable pub count_drop : AuditWriter W H Io R → AuditWriter W H Io R
  unfolding warn_once
  count_drop a =
      let (warned, printed) = warn_once a.drop_warned drop_warning a.stderr in
      record a {
        dropped_count = (a.dropped_count + 1) % 2 ^ 64;
        drop_warned = warned;
        stderr = printed;
      }

  abbrev pub after_send :
      AuditWriter W H Io R → TrySend (AuditWriter W H Io R) → AuditWriter W H Io R × Outcome
  after_send a (sent a') = (a', accepted)
  after_send a full = (count_drop a, dropped)
  after_send a disconnected = (count_drop a, dropped)

  unfoldable pub try_record : AuditWriter W H Io R → R → AuditWriter W H Io R × Outcome
  try_record a r =
      if a.tx then after_send a (try_send a (record_line r)) else (count_drop a, dropped)

  abbrev pub after_reopen_send :
      AuditWriter W H Io R
      → TrySend (AuditWriter W H Io R)
      → AuditWriter W H Io R × Result (Unit {0}) (AuditError Io)
  after_reopen_send a (sent a') = (a', ok tt)
  after_reopen_send a full = (a, err reopen_queue_full)
  after_reopen_send a disconnected = (a, err writer_panicked)

  -- `reopen` up to its wait for the reply.
  unfoldable pub ask_reopen :
      AuditWriter W H Io R → String → ℕ → AuditWriter W H Io R × Result (Unit {0}) (AuditError Io)
  ask_reopen a path ticket =
      if a.tx
      then after_reopen_send a (try_send a (reopen_at path ticket))
      else (a, err writer_panicked)

-- How the wait for the reply of a reopening, or for the end of the thread, ends: with an answer, with
-- the other end gone, or at the deadline.
pub data Awaited (A : Type 0) : Type 0 where
  answered : A → Awaited A
  sender_gone elapsed : Awaited A

abbrev pub reopen_result :
    {Io : Type 0} → Awaited (Result (Unit {0}) (AuditError Io)) → Result (Unit {0}) (AuditError Io)
reopen_result (answered r) = r
reopen_result sender_gone = err writer_panicked
reopen_result elapsed = err reopen_timeout

module _ {W H Io R : Type 0} (ops : FileOps W H Io R) where
  abbrev pub fresh : W → H → ℕ → AuditWriter W H Io R
  fresh world sink capacity = record {
    tx = true;
    channel = [];
    capacity = capacity;
    dropped_count = 0;
    drop_warned = false;
    detach_warned = false;
    stderr = [];
    has_handle = true;
    thread = running (start_writer world sink);
  }

  unfoldable pub spawn : W → H → ℕ → Result (AuditWriter W H Io R) (AuditError Io)
  spawn world sink capacity =
      if capacity == 0 then err (invalid_capacity capacity) else ok (fresh world sink capacity)

  abbrev spawn_opened : W → Result H Io → ℕ → Result (AuditWriter W H Io R) (AuditError Io)
  spawn_opened world (ok file) capacity = spawn world file capacity
  spawn_opened world (err e) capacity = err (io e)

  unfoldable pub start : W → String → ℕ → Result (AuditWriter W H Io R) (AuditError Io)
  unfolding spawn
  start world path capacity =
      let (after, opened) = ops.open_append world path in spawn_opened after opened capacity

  abbrev pub receive :
      AuditWriter W H Io R → Thread W H Io → List (Command R) → AuditWriter W H Io R
  receive a panicked cs = a
  receive a (running w) [] = a
  receive a (running w) (c ∷ cs) = record a { channel = cs; thread = running (handle ops w c) }

  -- The thread receives a command and handles it; with none to receive it waits.
  unfoldable pub take_turn : AuditWriter W H Io R → AuditWriter W H Io R
  take_turn a = receive a a.thread a.channel

  -- `handle.join()` once the sender is dropped: the thread handles what is left, and ends.
  abbrev pub join : Thread W H Io → List (Command R) → Result (Unit {0}) (AuditError Io)
  join panicked cs = err writer_panicked
  join (running w) cs = (finish ops (replay ops w cs)).1

  unfoldable pub shutdown : AuditWriter W H Io R → Result (Unit {0}) (AuditError Io)
  shutdown a = if a.has_handle then join a.thread a.channel else ok tt

  abbrev shutdown_result :
      Awaited (Result (Unit {0}) (AuditError Io)) → Result (Unit {0}) (AuditError Io)
  shutdown_result (answered r) = r
  shutdown_result sender_gone = err writer_panicked
  shutdown_result elapsed = err shutdown_timeout

  -- The supervisor's report, if it comes in time.
  unfoldable pub shutdown_bounded :
      AuditWriter W H Io R → Awaited (Unit {0}) → Result (Unit {0}) (AuditError Io)
  unfolding shutdown
  shutdown_bounded a (answered done) = shutdown a
  shutdown_bounded a sender_gone = if a.has_handle then err writer_panicked else ok tt
  shutdown_bounded a elapsed = if a.has_handle then err shutdown_timeout else ok tt

  abbrev detach : AuditWriter W H Io R → AuditWriter W H Io R
  detach a =
      let (warned, printed) = warn_once a.detach_warned detach_warning a.stderr in
      record a { has_handle = false; detach_warned = warned; stderr = printed }

  -- `Drop`: no join.
  unfoldable pub drop : AuditWriter W H Io R → AuditWriter W H Io R
  drop a = let closed = record a { tx = false } in if a.has_handle then detach closed else closed
