-- ===== src/Gateway/Retry/Runs.antt =====
-- The loop of `proxy_request` in src/gateway.rs as a whole: that it ends, and how.
use orihsus.Prelude.{
  NoRepeat, ℕ, suc, sym, ◌∙◌, ◌++◌, none, false, ◌+◌, ◌≤◌, ◌<◌, ◌≡◌, refl, String, Option, List, [],
  ◌∷◌, map, length, length-map, ap, ok, arith,
}
use orihsus.Pool.Policy.{validate}
use orihsus.Pool.State.{KeyPool}
use orihsus.Pool.Attempts.{request_with_model}
use orihsus.Pool.Wait.Calls.{max_attempts-le}
use orihsus.Gateway.RateLimit.{JsonOps}
use orihsus.Gateway.Usage.{NumberOps}
use orihsus.Gateway.Sse.{Utf8}
use orihsus.Gateway.Retry.{
  Turn, Loop, FinalOutcome, unavailable_final, last_response_final, forward, TurnResult, continues,
  breaks_with, waits, panics, RequestContext, take_turn, run_loop, start_loop,
}
use orihsus.Gateway.Retry.Chain.{fingerprint_of, IsClosed}
use orihsus.Gateway.Retry.Steps.{Valid, IsCommittedTo, IsRight, Ended, Goes}
use orihsus.Gateway.Retry.Errors.{is_error_status, last_error}
use orihsus.Gateway.Retry.Reads.{HeldBy, RunReads, run_loop-RunReads}
use orihsus.Gateway.Retry.Turns.{take_turn-Goes}

-- The loop has come to an outcome, or still waits for a key.
abbrev pub IsOver : TurnResult → Type 0
IsOver (continues s) = ⊥
IsOver (breaks_with outcome s) = Unit
IsOver waits = Unit
IsOver panics = ⊥

-- The attempts on record are those of the keys used, at most two and all different; each but the
-- last names the next as its target and is not committed.
abbrev pub IsChained : TurnResult → Type 0
IsChained (breaks_with outcome s) =
    (map fingerprint_of s.summaries ≡ s.attempts.used)
    × NoRepeat s.attempts.used
    × (length s.summaries ≤ 2)
    × IsClosed s.summaries
IsChained _ = Unit

-- The outcome fits what the upstream answered to the keys that were used, one in each turn: no error
-- was read, or the last that was read is kept, or a response of another status is forwarded.
abbrev pub Fits : RequestContext → List Turn → FinalOutcome → Loop → Type 0
Fits ctx ts (unavailable_final d) s = last_error ctx none ts s.attempts.used ≡ none
Fits ctx ts (last_response_final kept) s = kept ≡ last_error ctx none ts s.attempts.used
Fits ctx ts (forward p sel start) s =
    (is_error_status p.status ≡ false) × IsCommittedTo sel.fingerprint s.summaries

abbrev pub IsRightly : RequestContext → List Turn → TurnResult → Type 0
IsRightly ctx ts (breaks_with outcome s) = Fits ctx ts outcome s
IsRightly ctx ts _ = Unit

abbrev RunEnds : ℕ → TurnResult → Type 0
RunEnds limit (continues s) = ⊥
RunEnds limit (breaks_with outcome s) = Ended limit outcome s
RunEnds limit waits = Unit
RunEnds limit panics = ⊥

RunEnds-IsOver : (limit : ℕ) (x : TurnResult) → RunEnds limit x → IsOver x
RunEnds-IsOver limit (continues s) h = h
RunEnds-IsOver limit (breaks_with outcome s) h = tt
RunEnds-IsOver limit waits h = tt
RunEnds-IsOver limit panics h = h

RunEnds-IsChained : (limit : ℕ) (x : TurnResult) → limit ≤ 2 → RunEnds limit x → IsChained x
RunEnds-IsChained limit (continues s) small h = tt
RunEnds-IsChained limit (breaks_with outcome s) small h = (
  h.keys,
  h.budget.distinct,
  omega (arith, ap length h.keys, length-map fingerprint_of s.summaries, h.budget.within, small),
  h.chain,
)
RunEnds-IsChained limit waits small h = tt
RunEnds-IsChained limit panics small h = tt

held_last :
    (ctx : RequestContext) (s : Loop) (ts : List Turn) (s' : Loop)
    → s.attempts.used ≡ []
    → HeldBy ctx s ts s'
    → s'.last_response ≡ last_error ctx s.last_response ts s'.attempts.used
held_last ctx s ts s' fresh (fingerprints, used, held) =
    held ∙ ap (last_error ctx s.last_response ts) (sym (used ∙ ap (λ us. us ++ fingerprints) fresh))

Fits-of_right :
    (ctx : RequestContext) (s : Loop) (ts : List Turn) (outcome : FinalOutcome) (s' : Loop)
    → s.attempts.used ≡ []
    → s.last_response ≡ none
    → IsRight outcome s'
    → RunReads ctx s ts (breaks_with outcome s')
    → Fits ctx ts outcome s'
Fits-of_right ctx s ts (unavailable_final d) s' fresh nothing right reads =
    ap (λ before. last_error ctx before ts s'.attempts.used) (sym nothing)
    ∙ sym (held_last ctx s ts s' fresh reads)
    ∙ right
Fits-of_right ctx s ts (last_response_final kept) s' fresh nothing right reads =
    right
    ∙ held_last ctx s ts s' fresh reads
    ∙ ap (λ before. last_error ctx before ts s'.attempts.used) nothing
Fits-of_right ctx s ts (forward p sel start) s' fresh nothing (limited, auth, broken, committed)
      reads =
    (rw (limited, auth, broken) refl, committed)

RunEnds-IsRightly :
    (limit : ℕ) (ctx : RequestContext) (s : Loop) (ts : List Turn) (x : TurnResult)
    → s.attempts.used ≡ []
    → s.last_response ≡ none
    → RunEnds limit x
    → RunReads ctx s ts x
    → IsRightly ctx ts x
RunEnds-IsRightly limit ctx s ts (continues s') fresh nothing h reads = tt
RunEnds-IsRightly limit ctx s ts (breaks_with outcome s') fresh nothing h reads =
    Fits-of_right ctx s ts outcome s' fresh nothing h.right reads
RunEnds-IsRightly limit ctx s ts waits fresh nothing h reads = tt
RunEnds-IsRightly limit ctx s ts panics fresh nothing h reads = tt

module _ {J V : Type 0} (ops : NumberOps J) (json : JsonOps V) (utf8 : Utf8)
    (ctx : RequestContext) where
  after_turn :
      {limit n : ℕ} (x : TurnResult) (rest : Loop → TurnResult)
      → Goes limit n x
      → ((s : Loop)
          → Valid limit s.attempts s.summaries
          → length s.attempts.used ≡ suc n
          → RunEnds limit (rest s))
      → RunEnds limit (elim x [
        | continues s ↦ rest s
        | breaks_with outcome s ↦ breaks_with outcome s
        | waits ↦ waits
        | panics ↦ panics
      ])
  after_turn (continues s) rest h k = k s h.0 h.1
  after_turn (breaks_with outcome s) rest h k = h
  after_turn waits rest h k = tt
  after_turn panics rest h k = h

  -- One turn more than there are keys left is enough.
  run_loop-RunEnds :
      (ts : List Turn) {limit : ℕ} (s : Loop)
      → Valid limit s.attempts s.summaries
      → limit < length ts + length s.attempts.used
      → RunEnds limit (run_loop ops json utf8 ctx s ts)
  unfolding run_loop
  run_loop-RunEnds [] s v enough = absurd (omega (arith, v.budget.within))
  run_loop-RunEnds (t ∷ ts) {limit} s v enough =
      after_turn (take_turn ops json utf8 ctx s t) (λ s'. run_loop ops json utf8 ctx s' ts)
        (take_turn-Goes ops json utf8 ctx s t v)
        (λ s' v' more. run_loop-RunEnds ts s' v' (omega (arith, more, enough)))

  request-RunEnds :
      (q p : KeyPool) (now : ℕ) (model : Option String) (ts : List Turn)
      → validate p.policy ≡ ok tt
      → 3 ≤ length ts
      → RunEnds p.policy.max_attempts
          (run_loop ops json utf8 ctx (start_loop q (request_with_model p now model)) ts)
  unfolding request_with_model
  request-RunEnds q p now model ts valid enough =
      let small = max_attempts-le p.policy valid in
      run_loop-RunEnds ts (start_loop q (request_with_model p now model))
        (record {
          budget = record { same_limit = refl; within = omega arith; distinct = tt };
          small = small;
          keys = refl;
          chain = tt;
        })
        (omega (arith, small, enough))

  -- A request under a valid policy takes at most three turns of the loop, whatever the upstream and
  -- the other tasks do: within them it comes to an outcome or is still waiting for a key, and the
  -- number of an attempt always fits its 8 bits.
  pub run_loop-IsOver :
      (q p : KeyPool) (now : ℕ) (model : Option String) (ts : List Turn)
      → validate p.policy ≡ ok tt
      → 3 ≤ length ts
      → IsOver (run_loop ops json utf8 ctx (start_loop q (request_with_model p now model)) ts)
  run_loop-IsOver q p now model ts valid enough =
      RunEnds-IsOver p.policy.max_attempts _ (request-RunEnds q p now model ts valid enough)

  -- When a request comes to its outcome, the attempts on record for the audit are those of the keys
  -- it was given, in their order, at most two and all different; each attempt but the last is
  -- uncommitted and names the key of the next as its failover target, and the last names none.
  pub run_loop-IsChained :
      (q p : KeyPool) (now : ℕ) (model : Option String) (ts : List Turn)
      → validate p.policy ≡ ok tt
      → 3 ≤ length ts
      → IsChained (run_loop ops json utf8 ctx (start_loop q (request_with_model p now model)) ts)
  run_loop-IsChained q p now model ts valid enough =
      RunEnds-IsChained p.policy.max_attempts _ (max_attempts-le p.policy valid)
        (request-RunEnds q p now model ts valid enough)

  -- The client is told that no key is available only if no upstream error was read; a request that
  -- runs out of keys ends with the last error that was read, with its key, if any was; and a response
  -- is forwarded only if its status is none of 429, 401, 403 and 5xx, and then the last attempt on
  -- record is committed and is that of the key that is reported to the pool later. An error is read
  -- in a turn if the response to its key has one of these statuses and its body can be read.
  pub run_loop-IsRightly :
      (q p : KeyPool) (now : ℕ) (model : Option String) (ts : List Turn)
      → validate p.policy ≡ ok tt
      → 3 ≤ length ts
      → IsRightly ctx ts
          (run_loop ops json utf8 ctx (start_loop q (request_with_model p now model)) ts)
  unfolding request_with_model
  run_loop-IsRightly q p now model ts valid enough =
      let s = start_loop q (request_with_model p now model) in
      RunEnds-IsRightly p.policy.max_attempts ctx s ts _ refl refl
        (request-RunEnds q p now model ts valid enough) (run_loop-RunReads ops json utf8 ctx s ts)
