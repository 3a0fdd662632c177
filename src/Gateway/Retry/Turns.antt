-- ===== src/Gateway/Retry/Turns.antt =====
-- One turn of the loop of `proxy_request` in src/gateway.rs, from its key to its outcome.
use mathlib.Core.Path.{subst}
use orihsus.Prelude.{
  ℕ, suc, ◌+◌, ◌≤◌, ◌<◌, ◌≡◌, refl, sym, ap, ◌∙◌, ◌⊎◌, ◌-◌, inl, inr, String, Option, none, some,
  [], ◌∷◌, ◌++◌, map, length, length-append, length-map, arith,
}
use orihsus.Pool.State.{KeyPool}
use orihsus.Pool.Attempts.{
  Selection, AttemptResult, selected, unavailable, exhausted, Attempt, next_immediate,
}
use orihsus.Pool.Attempts.Budget.{InBudget, next_immediate-InBudget}
use orihsus.Pool.Wait.{Progress, done, pending, next}
use orihsus.Pool.Wait.Calls.{attempts_of, next-InBudget}
use orihsus.Pool.Wait.Grows.{
  grown, Grows, ProgressGrows, IsPrompt, next-Grows, next_immediate-Grows,
}
use orihsus.Audit.Summary.{response_header_timeout, network_error, retryable_response, update_last}
use orihsus.Gateway.RateLimit.{JsonOps}
use orihsus.Gateway.Usage.{NumberOps}
use orihsus.Gateway.Sse.{Utf8}
use orihsus.Gateway.Upstream.{ConsumedResponse}
use orihsus.Gateway.Retry.{
  Sent, header_timeout, send_failed, replied, Turn, Loop, FinalOutcome, unavailable_final,
  last_response_final, breaks_with, RequestContext, to_u8, link_previous, commit, add_attempt,
  observe, new_attempt_summary, after_send, numbered, use_key, with_attempt, with_progress,
  next_attempt, take_turn,
}
use orihsus.Gateway.Retry.Chain.{fingerprint_of, IsOpen, IsOpen-IsClosed}
use orihsus.Gateway.Retry.Steps.{
  Valid, Valid-add, added-eq, IsCommittedTo, commit-IsCommittedTo, IsRight, Ended, Goes,
  after_response-Goes,
}

-- A loop that has just been given the key `fingerprint`, before its attempt is recorded.
pub record Given (limit n : ℕ) (fingerprint : String) (s : Loop) : Type 0 where
  pub budget : InBudget limit s.attempts
  pub small : limit ≤ 2
  pub keys : map fingerprint_of s.summaries ++ fingerprint ∷ [] ≡ s.attempts.used
  pub chain : IsOpen s.summaries
  pub more : length s.attempts.used ≡ suc n

module _ {J V : Type 0} (ops : NumberOps J) (json : JsonOps V) (utf8 : Utf8)
    (ctx : RequestContext) where
  -- The loop with the previous attempt linked to the new key, at the pool `q`.
  abbrev sending : Loop → KeyPool → String → Loop
  sending s q fingerprint = record (observe s (link_previous fingerprint)) { pool = q }

  after_send-Goes :
      {limit n : ℕ} (s : Loop) (q : KeyPool) (t : Turn) (sel : Selection) (number : ℕ) (sent : Sent)
      → Given limit n sel.fingerprint s
      → Goes limit n (after_send ops json utf8 ctx (sending s q sel.fingerprint) t sel number sent)
  unfolding new_attempt_summary
  after_send-Goes {limit} s q t sel number header_timeout g = (
    Valid-add limit s.attempts s.summaries
        (new_attempt_summary number sel.fingerprint none response_header_timeout) g.budget g.small
        g.keys g.chain (refl, refl) refl,
    g.more,
  )
  after_send-Goes {limit} s q t sel number send_failed g = (
    Valid-add limit s.attempts s.summaries
        (new_attempt_summary number sel.fingerprint (some (t.replied_now - t.attempt_start))
          network_error)
        g.budget g.small g.keys g.chain (refl, refl) refl,
    g.more,
  )
  after_send-Goes {limit} s q t sel number (replied resp) g =
      let new =
        new_attempt_summary number sel.fingerprint (some (t.replied_now - t.attempt_start))
          retryable_response in
      let linked = update_last (link_previous sel.fingerprint) s.summaries in
      after_response-Goes ops json utf8 ctx (add_attempt (sending s q sel.fingerprint) new) t sel
        resp
        (Valid-add limit s.attempts s.summaries new g.budget g.small g.keys g.chain (refl, refl)
          refl)
        g.more
        (λ p.
          subst (λ ss. IsCommittedTo sel.fingerprint (update_last (commit p) ss))
            (sym (added-eq limit s.attempts s.summaries new g.budget g.small g.keys))
            (commit-IsCommittedTo p linked new))

  use_key-Goes :
      {limit n : ℕ} (s : Loop) (t : Turn) (sel : Selection)
      → Given limit n sel.fingerprint s
      → Goes limit n (use_key ops json utf8 ctx s t sel)
  use_key-Goes {limit} {n} s t sel g =
      subst
        (λ m.
          Goes limit n
            (numbered ops json utf8 ctx (observe s (link_previous sel.fingerprint)) t sel m))
        (sym fits) (after_send-Goes s (t.during s.pool) t sel (length s.summaries + 1) t.sent g)
    where
      number : length s.summaries + 1 < 256
      number =
          let used = ap length g.keys in
          let more = length-append (map fingerprint_of s.summaries) (sel.fingerprint ∷ []) in
          omega (arith, used, more, length-map fingerprint_of s.summaries, g.budget.within, g.small)

      fits : to_u8 (length s.summaries + 1) ≡ some (length s.summaries + 1)
      fits = ground (arith, number)

  -- What a call for a key is to give: an answer within the budget, and none to wait for if an error
  -- was read.
  with_attempt-Goes :
      {limit : ℕ} (s : Loop) (t : Turn) (a : Attempt)
      → Valid limit s.attempts s.summaries
      → InBudget limit a.attempts
      → Grows s.attempts a
      → (s.last_response ≡ none) ⊎ IsPrompt a.result
      → Goes limit (length s.attempts.used) (with_attempt ops json utf8 ctx s t a)
  with_attempt-Goes {limit} s t a v b grows answer = go a.result grows answer
    where
      ended :
          {outcome : FinalOutcome}
          → a.attempts ≡ s.attempts
          → IsRight outcome (record s { pool = a.pool; attempts = a.attempts })
          → Ended limit outcome (record s { pool = a.pool; attempts = a.attempts })
      ended e right = record {
        budget = b;
        keys = v.keys ∙ sym (ap (λ r. r.used) e);
        chain = IsOpen-IsClosed s.summaries v.chain;
        right = right;
      }

      go :
          (x : AttemptResult)
          → a.attempts ≡ grown s.attempts x
          → (s.last_response ≡ none) ⊎ IsPrompt x
          → Goes limit (length s.attempts.used) (elim x [
            | selected sel ↦
                use_key ops json utf8 ctx (record s { pool = a.pool; attempts = a.attempts }) t sel
            | unavailable d ↦
                breaks_with
                  (unavailable_final d)
                  (record s { pool = a.pool; attempts = a.attempts })
            | exhausted ↦
                breaks_with
                  (last_response_final s.last_response)
                  (record s { pool = a.pool; attempts = a.attempts })
          ])
      go (selected sel) e h =
          use_key-Goes (record s { pool = a.pool; attempts = a.attempts }) t sel
            (record {
              budget = b;
              small = v.small;
              keys = ap (λ us. us ++ sel.fingerprint ∷ []) v.keys ∙ sym (ap (λ r. r.used) e);
              chain = v.chain;
              more =
                  ap (λ r. length r.used) e
                  ∙ length-append s.attempts.used (sel.fingerprint ∷ [])
                  ∙ omega arith;
            })
      go (unavailable d) e (inl nothing) = ended e nothing
      go (unavailable d) e (inr never) = elim never [ ]
      go exhausted e h = ended e refl

  with_progress-Goes :
      {limit : ℕ} (s : Loop) (t : Turn) (x : Progress)
      → Valid limit s.attempts s.summaries
      → InBudget limit (attempts_of s.attempts x)
      → ProgressGrows s.attempts x
      → s.last_response ≡ none
      → Goes limit (length s.attempts.used) (with_progress ops json utf8 ctx s t x)
  with_progress-Goes s t (pending pool) v b grows nothing = tt
  with_progress-Goes s t (done a) v b grows nothing =
      with_attempt-Goes s t a v b grows (inl nothing)

  pub take_turn-Goes :
      {limit : ℕ} (s : Loop) (t : Turn)
      → Valid limit s.attempts s.summaries
      → Goes limit (length s.attempts.used) (take_turn ops json utf8 ctx s t)
  unfolding take_turn
  take_turn-Goes {limit} s t v = go s.last_response refl
    where
      pool : KeyPool
      pool = t.before s.pool

      go :
          (kept : Option (ConsumedResponse × String))
          → s.last_response ≡ kept
          → Goes limit
              (length s.attempts.used)
              (with_progress ops json utf8 ctx s t (next_attempt pool s.attempts t kept))
      go none nothing =
          with_progress-Goes s t (next t.rounds pool s.attempts) v
            (next-InBudget limit t.rounds pool s.attempts v.budget)
            (next-Grows t.rounds pool s.attempts) nothing
      go (some error) e =
          let (grows, prompt) = next_immediate-Grows pool s.attempts t.select_now in
          with_attempt-Goes s t (next_immediate pool s.attempts t.select_now) v
            (next_immediate-InBudget limit pool s.attempts t.select_now v.budget) grows (inr prompt)
