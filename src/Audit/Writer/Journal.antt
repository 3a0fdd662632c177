-- ===== src/Audit/Writer/Journal.antt =====
-- Where `write_loop` of src/audit.rs writes the records: the files as an append-only log each.
use mathlib.Core.Path.{ap₂}
use mathlib.Core.List.{append-nil, append_assoc}
use orihsus.Prelude.{
  ℕ, ◌≡◌, refl, sym, ap, ◌∙◌, String, Bool, true, false, Option, none, some, List, [], ◌∷◌, ◌++◌,
  Result, ok, err, str_eq, if◌then◌else◌, Bool-cases, inl, inr, arith,
}
use orihsus.Audit.Writer.{
  FileOps, Command, record_line, reopen_at, Writer, start_writer, handle, replay, finish,
  write_loop,
}
use orihsus.Audit.Writer.Faults.{
  unwritten_if, opened_or, one_if_unwritten, write_encoded, attempt, faults, failed_calls,
}
use orihsus.Audit.Writer.Failures.{handle-Agrees, count_failure-files}

-- What an append-only file system does: `content` is what a file holds, `path_of` the file that a
-- handle writes to and `can_open` the paths that open. Opening changes no file, and a write that
-- succeeds appends its bytes to its own file.
pub record FileLaws {W H Io R : Type 0} (ops : FileOps W H Io R) : Type 0 where
  pub content : W → String → List ℕ
  pub path_of : H → String
  pub can_open : String → Bool
  pub open_ok :
      (w : W) (p : String)
      → can_open p ≡ true
      → (h : H) × (ops.open_append w p).1 ≡ ok h × (path_of h ≡ p)
  pub open_err :
      (w : W) (p : String) → can_open p ≡ false → (e : Io) × ((ops.open_append w p).1 ≡ err e)
  pub open_keeps : (w : W) (p q : String) → content (ops.open_append w p).0 q ≡ content w q
  pub write_appends :
      (w : W) (h : H) (line : List ℕ) (q : String)
      → (ops.write_all w h line).1 ≡ none
      → content (ops.write_all w h line).0 q
        ≡ content w q ++ (if str_eq q (path_of h) then line else [])
  pub flush_keeps : (w : W) (h : H) (q : String) → content (ops.flush w h).0 q ≡ content w q

module _ {W H Io R : Type 0} (ops : FileOps W H Io R) (laws : FileLaws ops) where
  open laws use {content, path_of, can_open}

  -- What a command adds to the file `q` while `current` is the open one, and which one is open then.
  abbrev bytes_of : Result (List ℕ) Io → List ℕ
  bytes_of (ok line) = line ++ 10 ∷ []
  bytes_of (err e) = []

  abbrev added : String → String → Command R → List ℕ
  added q current (record_line r) = if str_eq q current then bytes_of (ops.to_vec r) else []
  added q current (reopen_at path ticket) = []

  abbrev path_after : String → Command R → String
  path_after current (record_line r) = current
  path_after current (reopen_at path ticket) = if can_open path then path else current

  -- The log that the commands ask for in the file `q`.
  unfoldable pub journal : String → String → List (Command R) → List ℕ
  journal q current [] = []
  journal q current (c ∷ cs) = added q current c ++ journal q (path_after current c) cs

  no_fault : (failed : Option Io) → one_if_unwritten (unwritten_if failed) ≡ 0 → failed ≡ none
  no_fault none h = refl
  no_fault (some e) h = absurd (omega arith)

  -- A command that writes without a fault.
  record Logged (world : W) (sink : H) (q : String) (c : Command R) (after : W × H) : Type 0 where
    bytes : content after.0 q ≡ content world q ++ added q (path_of sink) c
    path : path_of after.1 ≡ path_after (path_of sink) c

  write_encoded-content :
      (world : W) (sink : H) (q : String) (encoded : Result (List ℕ) Io)
      → one_if_unwritten (write_encoded ops world sink encoded).2 ≡ 0
      → content (write_encoded ops world sink encoded).0 q
        ≡ content world q ++ (if str_eq q (path_of sink) then bytes_of encoded else [])
  write_encoded-content world sink q (err e) h = elim (Bool-cases (str_eq q (path_of sink))) [
    | inl same ↦ rw same (sym (append-nil (content world q)))
    | inr other ↦ rw other (sym (append-nil (content world q)))
  ]
  write_encoded-content world sink q (ok line) h =
      laws.write_appends world sink (line ++ 10 ∷ []) q (no_fault _ h)

  write_encoded-sink :
      (world : W) (sink : H) (encoded : Result (List ℕ) Io)
      → (write_encoded ops world sink encoded).1 ≡ sink
  write_encoded-sink world sink (err e) = refl
  write_encoded-sink world sink (ok line) = refl

  opened_or-path :
      (world : W) (sink : H) (p : String)
      → path_of (opened_or sink (ops.open_append world p).1)
        ≡ (if can_open p then p else path_of sink)
  opened_or-path world sink p = elim (Bool-cases (can_open p)) [
    | inl yes_it ↦
        let (file, opened, same) = laws.open_ok world p yes_it in rw (opened, yes_it) same
    | inr no_it ↦ let (e, failed) = laws.open_err world p no_it in rw (failed, no_it) refl
  ]

  attempt-Logged :
      (world : W) (sink : H) (q : String) (c : Command R)
      → one_if_unwritten (attempt ops world sink c).2 ≡ 0
      → Logged world sink q c ((attempt ops world sink c).0, (attempt ops world sink c).1)
  attempt-Logged world sink q (record_line r) h = record {
    bytes = write_encoded-content world sink q (ops.to_vec r) h;
    path = ap path_of (write_encoded-sink world sink (ops.to_vec r));
  }
  attempt-Logged world sink q (reopen_at p ticket) h = record {
    bytes = laws.open_keeps world p q ∙ sym (append-nil _);
    path = opened_or-path world sink p;
  }

  replay-content :
      (w : Writer W H Io) (q : String) (cs : List (Command R))
      → failed_calls (faults ops w.world w.sink cs) ≡ 0
      → content (finish ops (replay ops w cs)).0.world q
        ≡ content w.world q ++ journal q (path_of w.sink) cs
  unfolding replay faults failed_calls journal finish
  replay-content w q [] h =
      let (world, failed) = ops.flush w.world w.sink in
      let (same, kept) = count_failure-files (record w { world = world }) failed in
      ap (λ world. content world q) same
      ∙ laws.flush_keeps w.world w.sink q
      ∙ sym (append-nil (content w.world q))
  replay-content w q (c ∷ cs) h =
      let agrees = handle-Agrees ops w c in
      let logged = attempt-Logged w.world w.sink q c (omega arith) in
      let same = ap₂ (λ world sink. faults ops world sink cs) agrees.world agrees.sink in
      let later = replay-content (handle ops w c) q cs (ap failed_calls same ∙ omega arith) in
      later
      ∙ ap₂ ◌++◌ (ap (λ world. content world q) agrees.world ∙ logged.bytes)
          (ap (λ p. journal q p cs) (ap path_of agrees.sink ∙ logged.path))
      ∙ append_assoc (content w.world q) _ _

  -- On an append-only file system, a run with no fault leaves each file with what it held before and
  -- behind it, in the order of the commands, a line for each record that came while the file was the
  -- open one: the sink of the start, or the file of the last reopening that succeeded.
  pub write_loop-content :
      (world : W) (sink : H) (q : String) (commands : List (Command R))
      → failed_calls (faults ops world sink commands) ≡ 0
      → content (write_loop ops world sink commands).0.world q
        ≡ content world q ++ journal q (path_of sink) commands
  unfolding write_loop
  write_loop-content world sink q commands clean =
      replay-content (start_writer world sink) q commands clean
