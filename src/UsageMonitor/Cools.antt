-- ===== src/UsageMonitor/Cools.antt =====
-- What a round of the usage monitor of src/usage.rs does to the pool.
use orihsus.Prelude.{
  ◌≡◌, refl, ◌∙◌, ℕ, String, Option, none, some, List, [], ◌∷◌, Result, ok, err, All,
}
use orihsus.Float.{F64}
use orihsus.Audit.Fingerprint.{fingerprint}
use orihsus.Config.Secret.{Secret}
use orihsus.Pool.Entry.Search.{Pointwise}
use orihsus.Pool.State.{KeyPool}
use orihsus.Pool.History.{Event, overuses, step, run}
use orihsus.Pool.History.Keeps.{Keeps, IsQuiet, run-Keeps}
use orihsus.UsageMonitor.{UsageOps, evaluate}
use orihsus.UsageMonitor.Poll.{
  Round, Fetched, UsageKeySnapshot, observe, cooled, parse_history_record, poll_answer, poll_once,
}

module _ {J : Type 0} (ops : UsageOps J) (sha256 : String → List ℕ) (rfc3339 : ℕ → String) where
  -- The report to the pool that the answer for a key calls for, before those of the others.
  abbrev report_before : ℕ → Secret → Option ℕ → List Event → List Event
  report_before reported_at key none evs = evs
  report_before reported_at key (some cooldown) evs =
      overuses reported_at (fingerprint sha256 key.as_str) cooldown ∷ evs

  abbrev report_of :
      {E : Type 0} → ℕ → F64 → Secret → ℕ → Result (List ℕ) E → List Event → List Event
  report_of now threshold key reported_at (err e) evs = evs
  report_of now threshold key reported_at (ok body) evs =
      report_before reported_at key (evaluate ops body now threshold) evs

  unfoldable pub reports : {E : Type 0} → ℕ → F64 → List (Fetched E) → List Event
  unfolding evaluate
  reports now threshold [] = []
  reports now threshold (f ∷ fs) =
      report_of now threshold f.key f.reported_at f.result (reports now threshold fs)

  cooled-run :
      (p : KeyPool) (reported_at : ℕ) (key : Secret) (cooldown : Option ℕ) (evs : List Event)
      → run sha256 (cooled ops sha256 rfc3339 p reported_at key cooldown) evs
        ≡ run sha256 p (report_before reported_at key cooldown evs)
  unfolding run step
  cooled-run p reported_at key none evs = refl
  cooled-run p reported_at key (some cooldown) evs = refl

  observe-pool : (r : Round) (o : Option UsageKeySnapshot) → (observe r o).pool ≡ r.pool
  observe-pool r none = refl
  observe-pool r (some snapshot) = refl

  answer-run :
      {E : Type 0} (now : ℕ) (threshold : F64) (r : Round) (key : Secret) (reported_at : ℕ)
      (result : Result (List ℕ) E) (evs : List Event)
      → run sha256 (poll_answer ops sha256 rfc3339 now threshold r key reported_at result).pool evs
        ≡ run sha256 r.pool (report_of now threshold key reported_at result evs)
  unfolding poll_answer
  answer-run now threshold r key reported_at (err e) evs = refl
  answer-run now threshold r key reported_at (ok body) evs =
      rw (observe-pool r (parse_history_record ops sha256 rfc3339 body now key))
        (cooled-run r.pool reported_at key (evaluate ops body now threshold) evs)

  before-IsQuiet :
      (reported_at : ℕ) (key : Secret) (cooldown : Option ℕ) (evs : List Event)
      → All IsQuiet evs
      → All IsQuiet (report_before reported_at key cooldown evs)
  before-IsQuiet reported_at key none evs quiet = quiet
  before-IsQuiet reported_at key (some cooldown) evs quiet = (tt, quiet)

  report_of-IsQuiet :
      {E : Type 0} (now : ℕ) (threshold : F64) (key : Secret) (reported_at : ℕ)
      (result : Result (List ℕ) E) (evs : List Event)
      → All IsQuiet evs
      → All IsQuiet (report_of now threshold key reported_at result evs)
  report_of-IsQuiet now threshold key reported_at (err e) evs quiet = quiet
  report_of-IsQuiet now threshold key reported_at (ok body) evs quiet =
      before-IsQuiet reported_at key (evaluate ops body now threshold) evs quiet

  reports-IsQuiet :
      {E : Type 0} (now : ℕ) (threshold : F64) (fs : List (Fetched E))
      → All IsQuiet (reports now threshold fs)
  unfolding reports
  reports-IsQuiet now threshold [] = tt
  reports-IsQuiet now threshold (f ∷ fs) =
      report_of-IsQuiet now threshold f.key f.reported_at f.result (reports now threshold fs)
        (reports-IsQuiet now threshold fs)

  poll_once-run :
      {E : Type 0} (now : ℕ) (threshold : F64) (r : Round) (fs : List (Fetched E))
      → (poll_once ops sha256 rfc3339 now threshold r fs).pool
        ≡ run sha256 r.pool (reports now threshold fs)
  unfolding poll_once reports run
  poll_once-run now threshold r [] = refl
  poll_once-run now threshold r (f ∷ fs) =
      poll_once-run now threshold
        (poll_answer ops sha256 rfc3339 now threshold r f.key f.reported_at f.result) fs
      ∙ answer-run now threshold r f.key f.reported_at f.result (reports now threshold fs)

  -- A round of polling does to the pool what one report for each key with an answer that calls for
  -- a cooldown does, in the order of the keys; whatever the answers, every key stays in its place and
  -- no cooldown ends earlier.
  pub poll_once-Keeps :
      {E : Type 0} (now : ℕ) (threshold : F64) (r : Round) (fs : List (Fetched E))
      → ((poll_once ops sha256 rfc3339 now threshold r fs).pool
          ≡ run sha256 r.pool (reports now threshold fs))
        × Pointwise Keeps r.pool.entries
            (poll_once ops sha256 rfc3339 now threshold r fs).pool.entries
  poll_once-Keeps now threshold r fs =
      let same = poll_once-run now threshold r fs in
      (
        same,
        rw same
            (run-Keeps sha256 r.pool (reports now threshold fs) (reports-IsQuiet now threshold fs)),
      )
