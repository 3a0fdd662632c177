-- ===== src/Audit/Writer/Failures.antt =====
-- What `write_loop` of src/audit.rs reports of the failures it met.
use mathlib.Core.Path.{ap₂, subst}
use orihsus.Prelude.{
  ℕ, zero, suc, ◌+◌, ◌%◌, ◌^◌, ◌≡◌, refl, String, Bool, true, false, not, Option, none, some, List,
  [], ◌∷◌, ◌++◌, Result, ok, err, ◌==◌, if◌then◌else◌, arith, ap, ◌∙◌,
}
use orihsus.Audit.Writer.{
  FileOps, Command, record_line, reopen_at, Writer, start_writer, write_warning, warn_once,
  keep_first, count_failure, after_open, write_line, handle, replay, exit_result, finish,
  write_loop, note_error,
}
use orihsus.Audit.Writer.Faults.{
  Fault, unencoded, error_of, one_if_unwritten, unwritten_if, opened_or, or_else, first_error_of,
  failed_calls, write_encoded, attempt, faults,
}

keep_first-or_else :
    {Io : Type 0} (first : Option Io) (e : Io) → keep_first first e ≡ or_else first (some e)
keep_first-or_else none e = refl
keep_first-or_else (some first) e = refl

or_else-none : {Io : Type 0} (first : Option Io) → first ≡ or_else first none
or_else-none none = refl
or_else-none (some first) = refl

suc-eq-zero : (n : ℕ) → (suc n == 0) ≡ false
suc-eq-zero n = ground arith

warn_once-warned :
    (b : Bool) (message : String) (s : List String) → (warn_once b message s).0 ≡ true
unfolding warn_once
warn_once-warned true message s = refl
warn_once-warned false message s = refl

warn_once-printed :
    (n : ℕ) (b : Bool) (message : String) (s : List String)
    → b ≡ not (n == 0)
    → s ≡ (if n == 0 then [] else message ∷ [])
    → (warn_once b message s).1 ≡ message ∷ []
unfolding warn_once
warn_once-printed zero b message s h k = rw (h, k) refl
warn_once-printed (suc n) b message s h k = rw (h, k, suc-eq-zero n) refl

or_else_assoc :
    {Io : Type 0} (a b c : Option Io) → or_else (or_else a b) c ≡ or_else a (or_else b c)
or_else_assoc none b c = refl
or_else_assoc (some e) b c = refl

module _ {W H Io : Type 0} where
  -- The counter wraps; the warning stands on standard error once, if anything failed.
  pub record Counted (w : Writer W H Io) (n : ℕ) : Type 0 where
    pub counter : w.write_failures ≡ n % 2 ^ 64
    pub warned : w.write_warned ≡ not (n == 0)
    pub printed : w.stderr ≡ (if n == 0 then [] else write_warning ∷ [])

  -- A step of the thread as it shows outside the files.
  pub record Noted (w w' : Writer W H Io) (fault : Option (Fault Io)) : Type 0 where
    error : w'.first_error ≡ or_else w.first_error (error_of fault)
    count : (n : ℕ) → Counted w n → Counted w' (n + one_if_unwritten fault)

  Counted-eq :
      (w w' : Writer W H Io) (n m : ℕ)
      → w'.write_failures ≡ w.write_failures
      → w'.write_warned ≡ w.write_warned
      → w'.stderr ≡ w.stderr
      → n ≡ m
      → Counted w n
      → Counted w' m
  Counted-eq w w' n m failures warned stderr e c = record {
    counter = failures ∙ c.counter ∙ ap (λ k. k % 2 ^ 64) e;
    warned = warned ∙ c.warned ∙ ap (λ k. not (k == 0)) e;
    printed = stderr ∙ c.printed ∙ ap (λ k. if k == 0 then [] else write_warning ∷ []) e;
  }

  pub count_failure-files :
      (w : Writer W H Io) (failed : Option Io)
      → ((count_failure w failed).world ≡ w.world) × ((count_failure w failed).sink ≡ w.sink)
  unfolding count_failure
  count_failure-files w none = (refl, refl)
  count_failure-files w (some e) = (refl, refl)

  count_failure-Noted :
      (w : Writer W H Io) (world : W) (failed : Option Io)
      → Noted w (count_failure (record w { world = world }) failed) (unwritten_if failed)
  unfolding count_failure warn_once
  count_failure-Noted w world none = record {
    error = or_else-none w.first_error;
    count =
        λ n c. Counted-eq w (record w { world = world }) n (n + 0) refl refl refl (omega arith) c;
  }
  count_failure-Noted w world (some e) = record {
    error = keep_first-or_else w.first_error e;
    count = λ n c. record {
      counter = ap (λ k. (k + 1) % 2 ^ 64) c.counter ∙ omega arith;
      warned = warn_once-warned w.write_warned write_warning w.stderr ∙ ground arith;
      printed =
          warn_once-printed n w.write_warned write_warning w.stderr c.warned c.printed
          ∙ ground arith;
    };
  }

  Noted-unencoded : (w : Writer W H Io) (e : Io) → Noted w (note_error w e) (some (unencoded e))
  Noted-unencoded w e = record {
    error = keep_first-or_else w.first_error e;
    count = λ n c. Counted-eq w (note_error w e) n (n + 0) refl refl refl (omega arith) c;
  }

  after_open-Noted :
      (w : Writer W H Io) (ticket : ℕ) (world : W) (opened : Result H Io)
      → Noted w (after_open w ticket world opened) none
  unfolding after_open
  after_open-Noted w ticket world (ok file) = record {
    error = or_else-none w.first_error;
    count = λ n c.
        Counted-eq w (after_open w ticket world (ok file)) n (n + 0) refl refl refl (omega arith) c;
  }
  after_open-Noted w ticket world (err e) = record {
    error = or_else-none w.first_error;
    count = λ n c.
        Counted-eq w (after_open w ticket world (err e)) n (n + 0) refl refl refl (omega arith) c;
  }

module _ {W H Io R : Type 0} (ops : FileOps W H Io R) where
  -- A turn of the loop leaves the files as `attempt` says, and notes the fault.
  pub record Agrees (w w' : Writer W H Io) (after : W × H × Option (Fault Io)) : Type 0 where
    pub world : w'.world ≡ after.0
    pub sink : w'.sink ≡ after.1
    noted : Noted w w' after.2

  write_line-Agrees :
      (w : Writer W H Io) (encoded : Result (List ℕ) Io)
      → Agrees w (write_line ops w encoded) (write_encoded ops w.world w.sink encoded)
  unfolding write_line
  write_line-Agrees w (err e) = record { world = refl; sink = refl; noted = Noted-unencoded w e }
  write_line-Agrees w (ok line) =
      let (world, failed) = ops.write_all w.world w.sink (line ++ 10 ∷ []) in
      let (same_world, same_sink) = count_failure-files (record w { world = world }) failed in
      record { world = same_world; sink = same_sink; noted = count_failure-Noted w world failed }

  after_open-Agrees :
      (w : Writer W H Io) (ticket : ℕ) (world : W) (opened : Result H Io)
      → Agrees w (after_open w ticket world opened) (world, opened_or w.sink opened, none)
  unfolding after_open
  after_open-Agrees w ticket world (ok file) = record {
    world = refl;
    sink = refl;
    noted = after_open-Noted w ticket world (ok file);
  }
  after_open-Agrees w ticket world (err e) = record {
    world = refl;
    sink = refl;
    noted = after_open-Noted w ticket world (err e);
  }

  pub handle-Agrees :
      (w : Writer W H Io) (c : Command R) → Agrees w (handle ops w c) (attempt ops w.world w.sink c)
  unfolding handle
  handle-Agrees w (record_line r) = write_line-Agrees w (ops.to_vec r)
  handle-Agrees w (reopen_at path ticket) =
      let (world, opened) = ops.open_append w.world path in after_open-Agrees w ticket world opened

  finish-Agrees :
      (w : Writer W H Io) → Noted w (finish ops w).0 (unwritten_if (ops.flush w.world w.sink).1)
  unfolding finish
  finish-Agrees w =
      let (world, failed) = ops.flush w.world w.sink in count_failure-Noted w world failed

  finish-exit : (w : Writer W H Io) → (finish ops w).1 ≡ exit_result (finish ops w).0.first_error
  unfolding finish
  finish-exit w = refl

  -- The whole of a run, from any state of the thread.
  record Reports (w w' : Writer W H Io) (seen : List (Option (Fault Io))) : Type 0 where
    error : w'.first_error ≡ or_else w.first_error (first_error_of seen)
    count : (n : ℕ) → Counted w n → Counted w' (n + failed_calls seen)

  run-Reports :
      (w : Writer W H Io) (cs : List (Command R))
      → Reports w (finish ops (replay ops w cs)).0 (faults ops w.world w.sink cs)
  unfolding replay faults first_error_of failed_calls
  run-Reports w [] =
      let noted = finish-Agrees w in
      record {
        error = noted.error ∙ ap (or_else w.first_error) (or_else-none _);
        count = λ n c. subst (Counted _) (omega arith) (noted.count n c);
      }
  run-Reports w (c ∷ cs) =
      let agrees = handle-Agrees w c in
      let after = attempt ops w.world w.sink c in
      let same = ap₂ (λ world sink. faults ops world sink cs) agrees.world agrees.sink in
      let later =
        subst (Reports (handle ops w c) (finish ops (replay ops (handle ops w c) cs)).0) same
          (run-Reports (handle ops w c) cs) in
      record {
        error =
            later.error
            ∙ ap (λ e. or_else e (first_error_of (faults ops after.0 after.1 cs)))
                agrees.noted.error
            ∙ or_else_assoc w.first_error _ _;
        count = λ n k. subst (Counted _) (omega arith) (later.count _ (agrees.noted.count n k));
      }

  -- The thread ends with the first error of its run, in the order of the commands and with the last
  -- flush behind them: of the records that could not be encoded, the writes and the flush that
  -- failed. Without one it ends well. A file that could not be opened is no error of the run.
  pub write_loop-first_error :
      (world : W) (sink : H) (commands : List (Command R))
      → (write_loop ops world sink commands).1
        ≡ exit_result (first_error_of (faults ops world sink commands))
  unfolding write_loop
  write_loop-first_error world sink commands =
      finish-exit _ ∙ ap exit_result (run-Reports (start_writer world sink) commands).error

  -- At the end of a run the counter of write failures is the number of calls of `write_all` and
  -- `flush` that failed, modulo 2^64, and the warning was printed once if there was one, never else.
  pub write_loop-failures :
      (world : W) (sink : H) (commands : List (Command R))
      → let w = (write_loop ops world sink commands).0 in
        let n = failed_calls (faults ops world sink commands) in
        (w.write_failures ≡ n % 2 ^ 64) × (w.stderr ≡ (if n == 0 then [] else write_warning ∷ []))
  unfolding write_loop
  write_loop-failures world sink commands =
      let start : Counted (start_writer world sink) 0 = record {
        counter = refl;
        warned = refl;
        printed = refl;
      } in
      let c = (run-Reports (start_writer world sink) commands).count 0 start in
      (
        c.counter ∙ ap (λ k. k % 2 ^ 64) (omega arith),
        c.printed ∙ ap (λ k. if k == 0 then [] else write_warning ∷ []) (omega arith),
      )
