-- ===== src/Gateway/Pump/Delivers.antt =====
-- What `pump_upstream` of src/gateway.rs delivers to the client, and what it has read of it.
use mathlib.Core.Path.{subst}
use mathlib.Core.List.{append-nil, append_assoc}
use orihsus.Prelude.{
  ℕ, ◌+◌, ◌≡◌, refl, sym, ap, ◌∙◌, inl, inr, Bool, true, false, Option, none, some, List, [], ◌∷◌,
  ◌++◌, length, ltb, if◌then◌else◌, Bool-cases,
}
use orihsus.Gateway.Usage.{NumberOps}
use orihsus.Gateway.Usage.Counts.{concat, concat-push}
use orihsus.Gateway.Sse.{Utf8}
use orihsus.Gateway.Upstream.{Stream, ends, breaks, silent, chunk, PreparedResponse}
use orihsus.Gateway.Upstream.Reads.{Ending, whole, broken, never, bytes_of, ending_of}
use orihsus.Gateway.Pump.{
  StreamUsageParser, PumpOutcome, done, cut, cancelled, idle_timeout, PumpPlan, Send, Pump, Client,
  deliver, feed, take_prefetched, send_prefetched, take_chunk, limit_of, expires, next_deadline,
  stops, stalls, pump_loop, pump_rest, start_pump, pump_upstream,
}

abbrev pub IsWhole : Ending → Type 0
IsWhole (whole at) = Unit
IsWhole (broken at) = ⊥
IsWhole never = ⊥

-- A timeout is never a clean end.
abbrev NotDone : Option PumpOutcome → Type 0
NotDone (some done) = ⊥
NotDone (some cut) = Unit
NotDone (some cancelled) = Unit
NotDone (some idle_timeout) = Unit
NotDone none = Unit

abbrev outcome_in : Option (ℕ × PumpOutcome) → Option PumpOutcome
outcome_in none = none
outcome_in (some (deadline, outcome)) = some outcome

limit_of-NotDone :
    (plan : PumpPlan) (p : Pump) (deadline : Option ℕ)
    → NotDone (outcome_in (limit_of plan p deadline))
limit_of-NotDone plan p (some deadline) = tt
limit_of-NotDone plan p none = go plan.idle
  where
    go :
        (idle : Option ℕ)
        → NotDone (outcome_in (elim idle [ none ↦ none | some idle ↦ some (p.clock + idle, cut) ]))
    go none = tt
    go (some idle) = tt

expires-NotDone :
    (limit : Option (ℕ × PumpOutcome)) (at : ℕ)
    → NotDone (outcome_in limit)
    → NotDone (expires limit at)
expires-NotDone none at h = tt
expires-NotDone (some (deadline, outcome)) at h = elim (Bool-cases (ltb deadline at)) [
  | inl late ↦ rw late h
  | inr early ↦ rw early tt
]

module _ {J : Type 0} (ops : NumberOps J) (utf8 : Utf8) where
  -- The parser fed with chunks.
  unfoldable pub feed_all : StreamUsageParser → List (List ℕ) → StreamUsageParser
  feed_all parser [] = parser
  feed_all parser (bytes ∷ rest) = feed_all (feed ops utf8 parser bytes).0 rest

  feed_all-push :
      (cs : List (List ℕ)) (bytes : List ℕ) (parser : StreamUsageParser)
      → feed_all parser (cs ++ bytes ∷ []) ≡ (feed ops utf8 (feed_all parser cs) bytes).0
  unfolding feed_all
  feed_all-push [] bytes parser = refl
  feed_all-push (c ∷ cs) bytes parser = feed_all-push cs bytes (feed ops utf8 parser c).0

  -- What was delivered and what is left make up the body, and the parser has read what was delivered.
  record Flows (first : StreamUsageParser) (body left : List ℕ) (p : Pump) : Type 0 where
    bytes : concat p.delivered ++ left ≡ body
    parsed : p.parser ≡ feed_all first p.delivered

  -- What has been delivered is the start of the body; all of it, and all of it read, if the outcome
  -- is that the response is complete, and then the body has arrived to its end.
  pub record Delivers (first : StreamUsageParser) (body : List ℕ) (ending : Ending) (p : Pump)
      (outcome : PumpOutcome) : Type 0 where
    pub rest : List ℕ
    pub start : concat p.delivered ++ rest ≡ body
    pub complete :
        outcome ≡ done
        → IsWhole ending × (concat p.delivered ≡ body) × (p.parser ≡ feed_all first p.delivered)

  abbrev pub AllDelivers :
      StreamUsageParser → List ℕ → Ending → Option (Pump × PumpOutcome) → Type 0
  AllDelivers first body ending none = Unit
  AllDelivers first body ending (some (p, outcome)) = Delivers first body ending p outcome

  -- Without a clean end nothing more is to show.
  unfinished :
      {first : StreamUsageParser} {body : List ℕ} (left : List ℕ) (p : Pump) (ending : Ending)
      (outcome : PumpOutcome)
      → NotDone (some outcome)
      → concat p.delivered ++ left ≡ body
      → Delivers first body ending p outcome
  unfinished left p ending outcome h bytes = record {
    rest = left;
    start = bytes;
    complete = λ e. absurd (not_done outcome h e);
  }
    where
      not_done : (o : PumpOutcome) → NotDone (some o) → o ≡ done → ⊥
      not_done done h e = h
      not_done cut h e = cc
      not_done cancelled h e = cc
      not_done idle_timeout h e = cc

  Flows-deliver :
      {first : StreamUsageParser} {body left : List ℕ} (p taken : Pump) (bytes : List ℕ)
      (send : Send)
      → taken.delivered ≡ p.delivered
      → taken.parser ≡ (feed ops utf8 p.parser bytes).0
      → Flows first body (bytes ++ left) p
      → Flows first body left (deliver taken bytes send)
  Flows-deliver {first} {body} {left} p taken bytes send same fed f = record {
    bytes =
        ap (λ cs. concat (cs ++ bytes ∷ []) ++ left) same
        ∙ ap (λ t. t ++ left) (concat-push p.delivered bytes)
        ∙ append_assoc (concat p.delivered) bytes left
        ∙ f.bytes;
    parsed =
        fed
        ∙ ap (λ q. (feed ops utf8 q bytes).0) f.parsed
        ∙ sym (feed_all-push p.delivered bytes first)
        ∙ ap (λ cs. feed_all first (cs ++ bytes ∷ [])) (sym same);
  }

  ends-Delivers :
      {first : StreamUsageParser} {body : List ℕ} (p : Pump) (at : ℕ) (x : Option PumpOutcome)
      → NotDone x
      → Flows first body [] p
      → AllDelivers first body (whole at) (stops p x done)
  ends-Delivers p at (some outcome) h f = unfinished [] p (whole at) outcome h f.bytes
  ends-Delivers p at none h f =
      let all = sym (append-nil (concat p.delivered)) ∙ f.bytes in
      record { rest = []; start = f.bytes; complete = λ e. (tt, all, f.parsed) }

  breaks-Delivers :
      {first : StreamUsageParser} {body : List ℕ} (p : Pump) (at : ℕ) (x : Option PumpOutcome)
      → NotDone x
      → Flows first body [] p
      → AllDelivers first body (broken at) (stops p x cut)
  breaks-Delivers p at (some outcome) h f = unfinished [] p (broken at) outcome h f.bytes
  breaks-Delivers p at none h f = unfinished [] p (broken at) cut tt f.bytes

  stalls-Delivers :
      {first : StreamUsageParser} {body : List ℕ} (p : Pump) (limit : Option (ℕ × PumpOutcome))
      → NotDone (outcome_in limit)
      → Flows first body [] p
      → AllDelivers first body never (stalls p limit)
  stalls-Delivers p none h f = tt
  stalls-Delivers p (some (deadline, outcome)) h f = unfinished [] p never outcome h f.bytes

  chunk-Delivers :
      (first : StreamUsageParser) (body left : List ℕ) (ending : Ending) (p taken : Pump)
      (is_taken : Bool) (later : Option (Pump × PumpOutcome)) (x : Option PumpOutcome)
      → NotDone x
      → concat p.delivered ++ left ≡ body
      → taken.delivered ≡ p.delivered
      → AllDelivers first body ending later
      → AllDelivers first body ending (elim x [
        | some outcome ↦ some (p, outcome)
        | none ↦ if is_taken then later else some (taken, cancelled)
      ])
  chunk-Delivers first body left ending p taken is_taken later (some outcome) h bytes same
        then_later =
      unfinished left p ending outcome h bytes
  chunk-Delivers first body left ending p taken true later none h bytes same then_later = then_later
  chunk-Delivers first body left ending p taken false later none h bytes same then_later =
      unfinished left taken ending cancelled tt (ap (λ cs. concat cs ++ left) same ∙ bytes)

  pump_loop-Delivers :
      (s : Stream) {first : StreamUsageParser} {body : List ℕ} (plan : PumpPlan) (client : Client)
      (p : Pump) (deadline : Option ℕ)
      → Flows first body (bytes_of s) p
      → AllDelivers first body (ending_of s) (pump_loop ops utf8 plan client p deadline s)
  unfolding pump_loop
  pump_loop-Delivers (ends at) plan client p deadline f =
      ends-Delivers p at _ (expires-NotDone _ at (limit_of-NotDone plan p deadline)) f
  pump_loop-Delivers (breaks at) plan client p deadline f =
      breaks-Delivers p at _ (expires-NotDone _ at (limit_of-NotDone plan p deadline)) f
  pump_loop-Delivers silent plan client p deadline f =
      stalls-Delivers p (limit_of plan p deadline) (limit_of-NotDone plan p deadline) f
  pump_loop-Delivers (chunk at bytes rest) {first} {body} plan client p deadline f =
      let (taken, events) = take_chunk ops utf8 plan p at bytes in
      let send = client (length p.delivered) in
      chunk-Delivers first body (bytes ++ bytes_of rest) (ending_of rest) p taken send.is_taken _ _
        (expires-NotDone _ at (limit_of-NotDone plan p deadline)) f.bytes refl
        (pump_loop-Delivers rest plan client (deliver taken bytes send)
          (next_deadline plan at events deadline) (Flows-deliver p taken bytes send refl refl f))

  -- The chunks that were read ahead.
  AfterPrefetch : StreamUsageParser → List ℕ → Stream → Pump × Option PumpOutcome → Type 0
  AfterPrefetch first body s (p, none) = Flows first body (bytes_of s) p
  AfterPrefetch first body s (p, some outcome) = Delivers first body (ending_of s) p outcome

  send_prefetched-AfterPrefetch :
      (chunks : List (List ℕ)) {first : StreamUsageParser} {body : List ℕ} (s : Stream)
      (plan : PumpPlan) (client : Client) (p : Pump)
      → Flows first body (concat chunks ++ bytes_of s) p
      → AfterPrefetch first body s (send_prefetched ops utf8 plan client p chunks)
  unfolding send_prefetched AfterPrefetch
  send_prefetched-AfterPrefetch [] s plan client p f = f
  send_prefetched-AfterPrefetch (bytes ∷ rest) {first} {body} s plan client p f =
      let send = client (length p.delivered) in
      let taken = take_prefetched ops utf8 plan p bytes send in
      let left = concat rest ++ bytes_of s in
      let split = append_assoc bytes (concat rest) (bytes_of s) in
      let f' = subst (λ l. Flows first body l p) split f in
      elim (Bool-cases send.is_taken) [
        | inl yes_it ↦ rw yes_it (
            send_prefetched-AfterPrefetch rest s plan client (deliver taken bytes send)
              (Flows-deliver p taken bytes send refl refl f'))
        | inr no_it ↦
            rw no_it (unfinished (bytes ++ left) taken (ending_of s) cancelled tt f'.bytes)
      ]

  pump_rest-Delivers :
      (first : StreamUsageParser) (body : List ℕ) (plan : PumpPlan) (client : Client) (s : Stream)
      (x : Pump × Option PumpOutcome)
      → AfterPrefetch first body s x
      → AllDelivers first body (ending_of s) (pump_rest ops utf8 plan client s x)
  unfolding AfterPrefetch
  pump_rest-Delivers first body plan client s (p, some outcome) h = h
  pump_rest-Delivers first body plan client s (p, none) h = pump_loop-Delivers s plan client p _ h

  -- Whatever the client and the clock do, the client is sent the start of the body that was prepared,
  -- unchanged and in its order. Only if the body has arrived to its clean end is the outcome that the
  -- response is complete, and then the client was sent all of it and the parser has read just that.
  pub pump_upstream-AllDelivers :
      (plan : PumpPlan) (client : Client) (prepared : PreparedResponse) (parser : StreamUsageParser)
      (now : ℕ)
      → AllDelivers parser
          (concat prepared.prefetched ++ bytes_of prepared.upstream)
          (ending_of prepared.upstream)
          (pump_upstream ops utf8 plan client prepared parser now)
  unfolding pump_upstream feed_all
  pump_upstream-AllDelivers plan client prepared parser now =
      pump_rest-Delivers parser (concat prepared.prefetched ++ bytes_of prepared.upstream) plan
        client prepared.upstream _
        (send_prefetched-AfterPrefetch prepared.prefetched prepared.upstream plan client
          (start_pump prepared parser now) (record { bytes = refl; parsed = refl }))
