-- ===== src/UsageMonitor/Poll.antt =====
-- A round of the usage monitor of src/usage.rs: `poll_once_with_observers`, with the snapshots that
-- it keeps and the channel of its history. What the fetcher brings is the environment.
use orihsus.Prelude.{
  ℕ, ◌+◌, ◌%◌, ◌^◌, String, Bool, true, ◌&&◌, Option, none, some, List, [], ◌∷◌, ◌++◌, length, ltb,
  if◌then◌else◌, Result, ok, err, insert,
}
use orihsus.Float.{F64}
use orihsus.Audit.Fingerprint.{fingerprint}
use orihsus.Config.Secret.{Secret}
use orihsus.Pool.State.{KeyPool}
use orihsus.Pool.Report.{report_proactive_cooldown}
use orihsus.UsageMonitor.{UsageOps, text_in, percent_of, usage_in, evaluate}

pub record UsageWindowSnapshot : Type 0 where
  pub status : Option String
  pub percent : Option F64
  pub resets_at : Option String

pub record UsageKeySnapshot : Type 0 where
  pub timestamp : String
  pub key_fingerprint : String
  pub rolling : UsageWindowSnapshot
  pub weekly : UsageWindowSnapshot
  pub monthly : UsageWindowSnapshot

-- The channel of the history with its counters, and whether its receiver is there.
pub record UsageHistorySink : Type 0 where
  pub queue : List UsageKeySnapshot
  pub capacity : ℕ
  pub is_open : Bool
  pub dropped : ℕ
  pub warned : Bool

unfoldable pub try_record : UsageHistorySink → UsageKeySnapshot → UsageHistorySink
try_record sink snapshot =
    if sink.is_open && ltb (length sink.queue) sink.capacity
    then record sink { queue = sink.queue ++ snapshot ∷ [] }
    else record sink { dropped = (sink.dropped + 1) % 2 ^ 64; warned = true }

-- What a round changes: the pool, and the observers that it was given.
pub record Round : Type 0 where
  pub pool : KeyPool
  pub history : Option UsageHistorySink
  pub snapshots : Option (List (String × UsageKeySnapshot))

-- The answer for a key, with the pool's reading of the clock if the key is reported.
pub record Fetched (E : Type 0) : Type 0 where
  pub key : Secret
  pub result : Result (List ℕ) E
  pub reported_at : ℕ

abbrev recorded : Option UsageHistorySink → UsageKeySnapshot → Option UsageHistorySink
recorded none snapshot = none
recorded (some sink) snapshot = some (try_record sink snapshot)

-- `UsageSnapshotStore::update`.
abbrev pub update :
    Option (List (String × UsageKeySnapshot))
    → UsageKeySnapshot
    → Option (List (String × UsageKeySnapshot))
update none snapshot = none
update (some store) snapshot = some (insert snapshot.key_fingerprint snapshot store)

abbrev pub observe : Round → Option UsageKeySnapshot → Round
observe r none = r
observe r (some snapshot) = record r {
  history = recorded r.history snapshot;
  snapshots = update r.snapshots snapshot;
}

module _ {J : Type 0} (ops : UsageOps J) (sha256 : String → List ℕ) (rfc3339 : ℕ → String) where
  abbrev window_of : Option J → UsageWindowSnapshot
  window_of none = record { status = none; percent = none; resets_at = none }
  window_of (some v) = record {
    status = text_in ops (ops.get v "status");
    percent = percent_of ops v;
    resets_at = text_in ops (ops.get v "resetsAt");
  }

  abbrev snapshot_of : Option J → ℕ → Secret → Option UsageKeySnapshot
  snapshot_of none timestamp key = none
  snapshot_of (some root) timestamp key =
      let usage = usage_in ops root in
      some (record {
        timestamp = rfc3339 timestamp;
        key_fingerprint = fingerprint sha256 key.as_str;
        rolling = window_of (ops.get usage "rolling");
        weekly = window_of (ops.get usage "weekly");
        monthly = window_of (ops.get usage "monthly");
      })

  unfoldable pub parse_history_record : List ℕ → ℕ → Secret → Option UsageKeySnapshot
  parse_history_record body timestamp key = snapshot_of (ops.read body) timestamp key

  abbrev pub cooled : KeyPool → ℕ → Secret → Option ℕ → KeyPool
  cooled p reported_at key none = p
  cooled p reported_at key (some cooldown) =
      report_proactive_cooldown p reported_at (fingerprint sha256 key.as_str) cooldown

  -- What the answer for one key does; an error does nothing.
  unfoldable pub poll_answer :
      {E : Type 0} → ℕ → F64 → Round → Secret → ℕ → Result (List ℕ) E → Round
  unfolding parse_history_record evaluate try_record
  poll_answer now threshold r key reported_at (err e) = r
  poll_answer now threshold r key reported_at (ok body) =
      let seen = observe r (parse_history_record body now key) in
      record seen { pool = cooled seen.pool reported_at key (evaluate ops body now threshold) }

  unfoldable pub poll_once : {E : Type 0} → ℕ → F64 → Round → List (Fetched E) → Round
  unfolding poll_answer
  poll_once now threshold r [] = r
  poll_once now threshold r (f ∷ fs) =
      poll_once now threshold (poll_answer now threshold r f.key f.reported_at f.result) fs
