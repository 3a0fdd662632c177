-- ===== src/Audit/Handle/Service.antt =====
-- `AuditWriter` of src/audit.rs under any interleaving of its clients and its thread: it is the log
-- of the records that it accepted.
use mathlib.Core.Path.{subst}
use mathlib.Core.List.{append-nil, append_assoc}
use orihsus.Prelude.{
  ℕ, ◌+◌, ◌%◌, ◌^◌, ◌≤◌, ◌<◌, ◌≡◌, refl, sym, ap, ◌∙◌, String, Bool, true, false, Option, none,
  some, List, [], ◌∷◌, ◌++◌, Result, ok, err, length, length-append, leb, ◌==◌, if◌then◌else◌,
  arith, Ensures, Ensures-ok,
}
use orihsus.Audit.Writer.{
  FileOps, Command, record_line, reopen_at, Writer, start_writer, AuditError, invalid_capacity,
  writer_panicked, handle, replay, finish, write_loop,
}
use orihsus.Audit.Handle.{
  dropped, Thread, running, panicked, AuditWriter, TrySend, sent, full, try_send, count_drop,
  try_record, ask_reopen, spawn, fresh, take_turn, receive, send_to, after_send, after_reopen_send,
  shutdown,
}
use orihsus.Audit.Handle.Traffic.{
  Event, offer, ask, turn, step, run, record_if_accepted, reopen_if_sent, taken, log,
  one_if_dropped, lost, drops,
}

module _ {W H Io R : Type 0} (ops : FileOps W H Io R) where
  -- What is left to happen once the sender is dropped: the thread's end state and its result.
  abbrev pub ended :
      Thread W H Io → List (Command R) → Option (Writer W H Io × Result (Unit {0}) (AuditError Io))
  ended panicked cs = none
  ended (running w) cs = some (finish ops (replay ops w cs))

  -- An open handle that has accepted `cs` since its thread started as `first`, and dropped `n`.
  pub record Serves (first : Writer W H Io) (capacity n : ℕ) (a : AuditWriter W H Io R)
      (cs : List (Command R)) : Type 0 where
    pub sender : a.tx ≡ true
    pub joinable : a.has_handle ≡ true
    pub room : a.capacity ≡ capacity
    pub bounded : length a.channel ≤ capacity
    pub counted : a.dropped_count ≡ n % 2 ^ 64
    pub writer : Writer W H Io
    pub runs : a.thread ≡ running writer
    pub drained : replay ops writer a.channel ≡ replay ops first cs

  replay-append :
      (w : Writer W H Io) (cs ds : List (Command R))
      → replay ops w (cs ++ ds) ≡ replay ops (replay ops w cs) ds
  unfolding replay
  replay-append w [] ds = refl
  replay-append w (c ∷ cs) ds = replay-append (handle ops w c) cs ds

  -- What a send gives on an open handle.
  abbrev is_full : AuditWriter W H Io R → Bool
  is_full a = leb a.capacity (length a.channel)

  abbrev pushed : AuditWriter W H Io R → Command R → AuditWriter W H Io R
  pushed a c = record a { channel = a.channel ++ c ∷ [] }

  try_send-open :
      (a : AuditWriter W H Io R) (c : Command R) (w : Writer W H Io)
      → a.thread ≡ running w
      → try_send a c ≡ (if is_full a then full else sent (pushed a c))
  unfolding try_send
  try_send-open a c w runs = ap (λ t. send_to a c t) runs

  -- Both ways to send on an open handle, with what the caller makes of the two answers.
  send-open {κ} :
      {B : Type κ} (a : AuditWriter W H Io R) (c : Command R) (w : Writer W H Io)
      (answer : TrySend (AuditWriter W H Io R) → B) (no_sender : B)
      → a.tx ≡ true
      → a.thread ≡ running w
      → (if a.tx then answer (try_send a c) else no_sender)
        ≡ answer (if is_full a then full else sent (pushed a c))
  send-open a c w answer no_sender sender runs =
      ap (λ b. if b then answer (try_send a c) else no_sender) sender
      ∙ ap answer (try_send-open a c w runs)

  try_record-open :
      (a : AuditWriter W H Io R) (r : R) (w : Writer W H Io)
      → a.tx ≡ true
      → a.thread ≡ running w
      → try_record a r ≡ after_send a (if is_full a then full else sent (pushed a (record_line r)))
  unfolding try_record
  try_record-open a r w = send-open a (record_line r) w (after_send a) (count_drop a, dropped)

  ask_reopen-open :
      (a : AuditWriter W H Io R) (path : String) (ticket : ℕ) (w : Writer W H Io)
      → a.tx ≡ true
      → a.thread ≡ running w
      → ask_reopen a path ticket
        ≡ after_reopen_send a (if is_full a then full else sent (pushed a (reopen_at path ticket)))
  unfolding ask_reopen
  ask_reopen-open a path ticket w =
      send-open a (reopen_at path ticket) w (after_reopen_send a) (a, err writer_panicked)

  Serves-sent :
      {first : Writer W H Io} {capacity n : ℕ} {a : AuditWriter W H Io R} {cs : List (Command R)}
      (c : Command R)
      → Serves first capacity n a cs
      → is_full a ≡ false
      → Serves first capacity (n + 0) (record a { channel = a.channel ++ c ∷ [] }) (cs ++ c ∷ [])
  Serves-sent {first} {capacity} {n} {a} {cs} c s room = record {
    sender = s.sender;
    joinable = s.joinable;
    room = s.room;
    bounded = fits (ground arith);
    counted = s.counted ∙ ap (λ k. k % 2 ^ 64) (omega arith);
    writer = s.writer;
    runs = s.runs;
    drained =
        replay-append s.writer a.channel (c ∷ [])
        ∙ ap (λ w. replay ops w (c ∷ [])) s.drained
        ∙ sym (replay-append first cs (c ∷ []));
  }
    where
      fits : length a.channel < a.capacity → length (a.channel ++ c ∷ []) ≤ capacity
      fits h = omega (arith, length-append a.channel (c ∷ []), s.room)

  Serves-dropped :
      {first : Writer W H Io} {capacity n : ℕ} {a : AuditWriter W H Io R} {cs : List (Command R)}
      → Serves first capacity n a cs
      → Serves first capacity (n + 1) (count_drop a) (cs ++ [])
  unfolding count_drop
  Serves-dropped {cs = cs} s = record {
    sender = s.sender;
    joinable = s.joinable;
    room = s.room;
    bounded = s.bounded;
    counted = ap (λ k. (k + 1) % 2 ^ 64) s.counted ∙ omega arith;
    writer = s.writer;
    runs = s.runs;
    drained = s.drained ∙ ap (replay ops _) (sym (append-nil cs));
  }

  Serves-same :
      {first : Writer W H Io} {capacity n : ℕ} {a : AuditWriter W H Io R} {cs : List (Command R)}
      → Serves first capacity n a cs
      → Serves first capacity (n + 0) a (cs ++ [])
  Serves-same {first} {capacity} {n} {a} {cs} s =
      subst (λ k. Serves first capacity k a (cs ++ [])) (omega arith)
        (subst (λ ds. Serves first capacity n a ds) (sym (append-nil cs)) s)

  offer-Serves :
      {first : Writer W H Io} {capacity n : ℕ} {a : AuditWriter W H Io R} {cs : List (Command R)}
      (r : R)
      → Serves first capacity n a cs
      → Serves first capacity
          (n + lost ops a (offer r))
          (step ops a (offer r))
          (cs ++ taken ops a (offer r))
  unfolding step
  offer-Serves {first} {capacity} {n} {a} {cs} r s =
      subst
        (λ p. Serves first capacity (n + one_if_dropped p.1) p.0 (cs ++ record_if_accepted r p.1))
        (sym (try_record-open a r s.writer s.sender s.runs)) (by_room (is_full a) refl)
    where
      by_room :
          (b : Bool)
          → is_full a ≡ b
          → let p = after_send a (if b then full else sent (pushed a (record_line r))) in
            Serves first capacity (n + one_if_dropped p.1) p.0 (cs ++ record_if_accepted r p.1)
      by_room true none_left = Serves-dropped s
      by_room false room = Serves-sent (record_line r) s room

  ask-Serves :
      {first : Writer W H Io} {capacity n : ℕ} {a : AuditWriter W H Io R} {cs : List (Command R)}
      (path : String) (ticket : ℕ)
      → Serves first capacity n a cs
      → Serves first capacity
          (n + 0)
          (step ops a (ask path ticket))
          (cs ++ taken ops a (ask path ticket))
  unfolding step
  ask-Serves {first} {capacity} {n} {a} {cs} path ticket s =
      subst (λ p. Serves first capacity (n + 0) p.0 (cs ++ reopen_if_sent path ticket p.1))
        (sym (ask_reopen-open a path ticket s.writer s.sender s.runs)) (by_room (is_full a) refl)
    where
      by_room :
          (b : Bool)
          → is_full a ≡ b
          → let p =
              after_reopen_send a (if b then full else sent (pushed a (reopen_at path ticket))) in
            Serves first capacity (n + 0) p.0 (cs ++ reopen_if_sent path ticket p.1)
      by_room true none_left = Serves-same s
      by_room false room = Serves-sent (reopen_at path ticket) s room

  receive-Serves :
      {first : Writer W H Io} {capacity n : ℕ} {a : AuditWriter W H Io R} {cs : List (Command R)}
      (s : Serves first capacity n a cs) (pending : List (Command R))
      → a.channel ≡ pending
      → Serves first capacity (n + 0) (receive ops a (running s.writer) pending) (cs ++ [])
  unfolding replay
  receive-Serves s [] h = Serves-same s
  receive-Serves {cs = cs} s (c ∷ pending) h = record {
    sender = s.sender;
    joinable = s.joinable;
    room = s.room;
    bounded = omega (arith, s.bounded, ap length h);
    counted = s.counted ∙ ap (λ k. k % 2 ^ 64) (omega arith);
    writer = handle ops s.writer c;
    runs = refl;
    drained =
        ap (replay ops s.writer) (sym h) ∙ s.drained ∙ ap (replay ops _) (sym (append-nil cs));
  }

  step-Serves :
      {first : Writer W H Io} {capacity n : ℕ} {a : AuditWriter W H Io R} {cs : List (Command R)}
      (e : Event R)
      → Serves first capacity n a cs
      → Serves first capacity (n + lost ops a e) (step ops a e) (cs ++ taken ops a e)
  unfolding step take_turn
  step-Serves (offer r) s = offer-Serves r s
  step-Serves (ask path ticket) s = ask-Serves path ticket s
  step-Serves {first} {capacity} {n} {a} {cs} turn s =
      subst (λ t. Serves first capacity (n + 0) (receive ops a t a.channel) (cs ++ [])) (sym s.runs)
        (receive-Serves s a.channel refl)

  run-Serves :
      (es : List (Event R)) {first : Writer W H Io} {capacity n : ℕ} {a : AuditWriter W H Io R}
      {cs : List (Command R)}
      → Serves first capacity n a cs
      → Serves first capacity (n + drops ops a es) (run ops a es) (cs ++ log ops a es)
  unfolding run drops log
  run-Serves [] s = Serves-same s
  run-Serves (e ∷ es) {first} {capacity} {n} {a} {cs} s =
      let later = run-Serves es (step-Serves e s) in
      subst
        (λ k.
          Serves first capacity k (run ops (step ops a e) es)
            (cs ++ (taken ops a e ++ log ops (step ops a e) es)))
        (omega arith)
        (subst
          (Serves first capacity (n + lost ops a e + drops ops (step ops a e) es)
            (run ops (step ops a e) es))
          (append_assoc cs (taken ops a e) (log ops (step ops a e) es)) later)

  fresh-Serves :
      (world : W) (sink : H) (capacity : ℕ)
      → Serves (start_writer world sink) capacity 0 (fresh ops world sink capacity) []
  fresh-Serves world sink capacity = record {
    sender = refl;
    joinable = refl;
    room = refl;
    bounded = omega arith;
    counted = refl;
    writer = start_writer world sink;
    runs = refl;
    drained = refl;
  }

  spawn-Serves :
      (world : W) (sink : H) (capacity : ℕ) (a : AuditWriter W H Io R)
      → spawn ops world sink capacity ≡ ok a
      → Serves (start_writer world sink) capacity 0 a []
  unfolding spawn
  spawn-Serves world sink capacity a h = Ensures-ok P _ a h (spawned (capacity == 0))
    where
      P : AuditWriter W H Io R → Type 0
      P a = Serves (start_writer world sink) capacity 0 a []

      spawned :
          (b : Bool)
          → Ensures {E = AuditError Io} P
              (if b then err (invalid_capacity capacity) else ok (fresh ops world sink capacity))
      spawned true = tt
      spawned false = fresh-Serves world sink capacity

  -- However the clients' calls and the thread's turns are ordered, a handle that was spawned and then
  -- shut down ends as the plain loop does on the commands that it accepted, in the order of the calls:
  -- the same files, counters and replies, and the same result of `shutdown`.
  pub shutdown-run :
      (world : W) (sink : H) (capacity : ℕ) (a : AuditWriter W H Io R) (es : List (Event R))
      → spawn ops world sink capacity ≡ ok a
      → (ended (run ops a es).thread (run ops a es).channel
          ≡ some (write_loop ops world sink (log ops a es)))
        × (shutdown ops (run ops a es) ≡ (write_loop ops world sink (log ops a es)).1)
  unfolding shutdown write_loop
  shutdown-run world sink capacity a es spawned =
      let s = run-Serves es (spawn-Serves world sink capacity a spawned) in
      (rw (s.runs, s.drained) refl, rw (s.joinable, s.runs, s.drained) refl)

  -- The channel never holds more commands than its capacity, and the counter of dropped records is
  -- the number of calls that were answered `Dropped`, modulo 2^64.
  pub run-bounded :
      (world : W) (sink : H) (capacity : ℕ) (a : AuditWriter W H Io R) (es : List (Event R))
      → spawn ops world sink capacity ≡ ok a
      → (length (run ops a es).channel ≤ capacity)
        × ((run ops a es).dropped_count ≡ drops ops a es % 2 ^ 64)
  run-bounded world sink capacity a es spawned =
      let s = run-Serves es (spawn-Serves world sink capacity a spawned) in
      (s.bounded, s.counted ∙ ap (λ k. k % 2 ^ 64) (omega arith))
