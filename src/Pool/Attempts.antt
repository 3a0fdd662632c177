-- ===== src/Pool/Attempts.antt =====
-- `Selection`, `RequestAttempts` and the selection of a key in src/pool.rs. A request holds no state
-- of the pool but the candidates; the pool is passed to each operation.
pub mod Select
pub mod Snapshot
pub mod Available
pub mod Budget
use mathlib.Core.List.{filter_map}
use orihsus.Prelude.{
  lookup, ℕ, zero, suc, ◌+◌, ◌-◌, ◌%◌, max, min, String, Bool, true, false, not, ◌&&◌, Option, none,
  some, List, [], ◌∷◌, ◌++◌, length, get_elem?, any, find, ltb, leb, str_eq, is_some_and,
  if◌then◌else◌,
}
use orihsus.Config.Secret.{Secret}
use orihsus.Pool.Policy.{deadline_after}
use orihsus.Pool.Jitter.{u64_mod}
use orihsus.Pool.Entry.{
  KeyEntry, CoolingReason, circuit_breaker, is_cooling, find_entry, update_entry,
}
use orihsus.Pool.State.{KeyPool}

pub record Selection : Type 0 where
  pub fingerprint : String
  pub key : Secret
  pub id : ℕ

pub record RequestCandidate : Type 0 where
  pub fingerprint : String
  pub key : Secret

pub record RequestAttempts : Type 0 where
  pub candidates : List RequestCandidate
  pub used : List String
  pub max_keys : ℕ
  pub deadline : ℕ
  pub model : Option String

pub data AttemptResult : Type 0 where
  selected : Selection → AttemptResult
  unavailable : ℕ → AttemptResult
  exhausted : AttemptResult

unfoldable pub candidate_of : KeyEntry → RequestCandidate
candidate_of e = record { fingerprint = e.fingerprint; key = e.key }

-- The loop over the offsets from the cursor. The index is below the length: `none` is no case.
unfoldable pub candidates_from : List KeyEntry → ℕ → ℕ → ℕ → List RequestCandidate
unfolding candidate_of
candidates_from entries cursor zero off = []
candidates_from entries cursor (suc rounds) off =
    let rest = candidates_from entries cursor rounds (off + 1) in
    elim (get_elem? entries ((cursor + off) % length entries)) [
      | none ↦ rest
      | some e ↦ candidate_of e ∷ rest
    ]

unfoldable pub request_with_model : KeyPool → ℕ → Option String → RequestAttempts
unfolding candidates_from
request_with_model p now model = record {
  candidates = candidates_from p.entries p.cursor (length p.entries) 0;
  used = [];
  max_keys = p.policy.max_attempts;
  deadline = deadline_after now p.policy.wait_timeout;
  model = model;
}

abbrev pub request : KeyPool → ℕ → RequestAttempts
request p now = request_with_model p now none

abbrev pub request_for_model : KeyPool → ℕ → String → RequestAttempts
request_for_model p now model = request_with_model p now (some model)

unfoldable pub set_model : RequestAttempts → String → RequestAttempts
set_model r model = record r { model = some model }

-- `self.used.contains(&c.fingerprint)`.
abbrev pub is_used : RequestAttempts → String → Bool
is_used r fp = any (str_eq fp) r.used

-- Whether the model of the request is cooling on this key.
abbrev pub model_cooling : RequestAttempts → ℕ → KeyEntry → Bool
model_cooling r now e =
    is_some_and r.model λ m. is_some_and (lookup m e.liveness_cooling) λ d. ltb now d

-- The test of `position` in `try_select_unused`.
unfoldable pub selectable : KeyPool → RequestAttempts → ℕ → RequestCandidate → Bool
selectable p r now c =
    if is_used r c.fingerprint then false else elim (find_entry c.fingerprint p.entries) [
      | none ↦ false
      | some e ↦ not (is_cooling now e) && not (model_cooling r now e)
    ]

-- The claim of a recovering key by the selection `id`.
unfoldable pub claim : KeyPool → ℕ → ℕ → KeyEntry → KeyEntry
claim p now id e =
    if e.half_open
    then record e {
      cooling_until = some (deadline_after now p.policy.breaker_cooldown);
      cooling_reason = some circuit_breaker;
      cooling_by = some id;
      last_failure_by = some id;
    }
    else e

-- What the selection of `c` makes of the pool: an id is taken, and a recovering key is claimed.
unfoldable pub after_select : KeyPool → ℕ → RequestCandidate → KeyPool
unfolding claim
after_select p now c = record p {
  entries = update_entry c.fingerprint (claim p now p.next_id) p.entries;
  next_id = (p.next_id + 1) % u64_mod;
}

unfoldable pub selection_of : KeyPool → RequestCandidate → Selection
selection_of p c = record { fingerprint = c.fingerprint; key = c.key; id = p.next_id }

unfoldable pub try_select_unused : KeyPool → RequestAttempts → ℕ → Option (Selection × KeyPool)
unfolding selectable after_select selection_of
try_select_unused p r now = elim (find (selectable p r now) r.candidates) [
  | none ↦ none
  | some c ↦ some (selection_of p c, after_select p now c)
]

-- `self.used.push(sel.fingerprint.clone())`.
abbrev pub push_used : RequestAttempts → String → RequestAttempts
push_used r fp = record r { used = r.used ++ fp ∷ [] }

pub record Attempt : Type 0 where
  pub result : AttemptResult
  pub pool : KeyPool
  pub attempts : RequestAttempts

unfoldable pub next_immediate : KeyPool → RequestAttempts → ℕ → Attempt
unfolding try_select_unused
next_immediate p r now =
    if leb r.max_keys (length r.used)
    then record { result = exhausted; pool = p; attempts = r }
    else elim (try_select_unused p r now) [
      | none ↦ record { result = exhausted; pool = p; attempts = r }
      | some (sel, p') ↦ record {
        result = selected sel;
        pool = p';
        attempts = push_used r sel.fingerprint;
      }
    ]

unfoldable pub has_unused : RequestAttempts → Bool
has_unused r = any (λ c. not (is_used r c.fingerprint)) r.candidates
