-- ===== src/Audit/Tests.antt =====
-- The theorems on src/audit.rs, at a file system that is a map from paths to their bytes.
use mathlib.Core.List.{append-nil}
use orihsus.Prelude.{
  ℕ, ◌%◌, ◌^◌, ◌≤◌, ◌≡◌, refl, sym, String, Bool, not, Option, none, some, List, [], ◌∷◌, ◌++◌,
  Result, ok, err, str_eq, if◌then◌else◌, arith, length, ◌==◌, Bool-cases, inl, inr,
}
use orihsus.Audit.Writer.{
  io, FileOps, Command, record_line, reopen_at, exit_result, write_loop, write_warning, replay,
  handle, write_line, after_open, count_failure, finish,
}
use orihsus.Audit.Writer.Faults.{faults, first_error_of, failed_calls}
use orihsus.Audit.Writer.Failures.{write_loop-first_error, write_loop-failures}
use orihsus.Audit.Writer.Journal.{FileLaws, journal, write_loop-content}
use orihsus.Audit.Handle.{
  AuditWriter, spawn, fresh, shutdown, try_record, try_send, ask_reopen, take_turn, count_drop,
}
use orihsus.Audit.Handle.Traffic.{Event, offer, ask, turn, run, step, log, drops}
use orihsus.Audit.Handle.Service.{ended, shutdown-run, run-bounded}

abbrev Disk : Type 0
Disk = String → List ℕ

abbrev empty_disk : Disk
empty_disk path = []

abbrev can_open : String → Bool
can_open path = not (str_eq path "/denied")

abbrev open_path : Disk → String → Disk × Result String ℕ
open_path disk path = (disk, if can_open path then ok path else err 13)

-- A record is a number: 0 has no encoding, and 9 cannot be written.
abbrev encode : ℕ → Result (List ℕ) ℕ
encode n = if n == 0 then err 1 else ok (n ∷ [])

abbrev write_to : Disk → String → List ℕ → Disk × Option ℕ
write_to disk path [] = (disk, none)
write_to disk path (b ∷ bs) =
    if b == 9
    then (disk, some 28)
    else (λ q. disk q ++ (if str_eq q path then b ∷ bs else []), none)

abbrev disk_ops : FileOps Disk String ℕ ℕ
disk_ops = record {
  open_append = open_path;
  write_all = write_to;
  flush = λ disk path. (disk, none);
  to_vec = encode;
}

write_to-appends :
    (disk : Disk) (path : String) (line : List ℕ) (q : String)
    → (write_to disk path line).1 ≡ none
    → (write_to disk path line).0 q ≡ disk q ++ (if str_eq q path then line else [])
write_to-appends disk path [] q h = elim (Bool-cases (str_eq q path)) [
  | inl same ↦ rw same (sym (append-nil (disk q)))
  | inr other ↦ rw other (sym (append-nil (disk q)))
]
write_to-appends disk path (b ∷ bs) q h = elim (Bool-cases (b == 9)) [
  | inl bad ↦ absurd (ground (arith, bad, h))
  | inr good ↦ rw good refl
]

abbrev disk_laws : FileLaws disk_ops
disk_laws = record {
  content = λ disk q. disk q;
  path_of = λ path. path;
  can_open = can_open;
  open_ok = λ disk path h. (path, rw h refl, refl);
  open_err = λ disk path h. (13, rw h refl);
  open_keeps = λ disk path q. refl;
  write_appends = write_to-appends;
  flush_keeps = λ disk path q. refl;
}

abbrev bad_day : List (Command ℕ)
bad_day = record_line 7 ∷ record_line 9 ∷ record_line 0 ∷ reopen_at "/denied" 1 ∷ record_line 9 ∷ []

write_loop-first_error_example :
    (write_loop disk_ops empty_disk "/log" bad_day).1
    ≡ exit_result (first_error_of (faults disk_ops empty_disk "/log" bad_day))
write_loop-first_error_example = write_loop-first_error disk_ops empty_disk "/log" bad_day

bad_day_error : (write_loop disk_ops empty_disk "/log" bad_day).1 ≡ err (io 28)
unfolding write_loop replay handle write_line after_open count_failure finish
bad_day_error = refl

write_loop-failures_example :
    let w = (write_loop disk_ops empty_disk "/log" bad_day).0 in
    let n = failed_calls (faults disk_ops empty_disk "/log" bad_day) in
    (w.write_failures ≡ n % 2 ^ 64) × (w.stderr ≡ (if n == 0 then [] else write_warning ∷ []))
write_loop-failures_example = write_loop-failures disk_ops empty_disk "/log" bad_day

abbrev rotation : List (Command ℕ)
rotation =
    record_line 1 ∷ reopen_at "/denied" 1 ∷ record_line 2 ∷ reopen_at "/new" 2 ∷ record_line 3 ∷ []

write_loop-content_example :
    (write_loop disk_ops empty_disk "/log" rotation).0.world "/new"
    ≡ [] ++ journal disk_ops disk_laws "/new" "/log" rotation
write_loop-content_example =
    write_loop-content disk_ops disk_laws empty_disk "/log" "/new" rotation
      (unfold faults failed_calls in refl)

rotation-journal :
    (journal disk_ops disk_laws "/log" "/log" rotation ≡ 1 ∷ 10 ∷ 2 ∷ 10 ∷ [])
    × (journal disk_ops disk_laws "/new" "/log" rotation ≡ 3 ∷ 10 ∷ [])
unfolding journal
rotation-journal = (refl, refl)

abbrev service : AuditWriter Disk String ℕ ℕ
service = fresh disk_ops empty_disk "/log" 2

abbrev calls : List (Event ℕ)
calls = offer 1 ∷ offer 2 ∷ offer 3 ∷ turn ∷ ask "/new" 5 ∷ turn ∷ turn ∷ offer 4 ∷ []

shutdown-run_example :
    (ended disk_ops (run disk_ops service calls).thread (run disk_ops service calls).channel
      ≡ some (write_loop disk_ops empty_disk "/log" (log disk_ops service calls)))
    × (shutdown disk_ops (run disk_ops service calls)
        ≡ (write_loop disk_ops empty_disk "/log" (log disk_ops service calls)).1)
shutdown-run_example =
    shutdown-run disk_ops empty_disk "/log" 2 service calls (unfold spawn in refl)

run-bounded_example :
    (length (run disk_ops service calls).channel ≤ 2)
    × ((run disk_ops service calls).dropped_count ≡ drops disk_ops service calls % 2 ^ 64)
run-bounded_example = run-bounded disk_ops empty_disk "/log" 2 service calls (unfold spawn in refl)

calls-log :
    log disk_ops service calls
    ≡ record_line 1 ∷ record_line 2 ∷ reopen_at "/new" 5 ∷ record_line 4 ∷ []
unfolding log step try_record try_send ask_reopen take_turn handle write_line after_open count_drop
calls-log = refl
