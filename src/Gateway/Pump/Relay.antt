-- ===== src/Gateway/Pump/Relay.antt =====
-- An accepted response of src/gateway.rs from its head to its end: `prepare_response`, then
-- `pump_upstream`, then what `stream_response` makes of the outcome.
use mathlib.Core.Path.{subst}
use orihsus.Prelude.{
  ℕ, ◌≡◌, ◌≢◌, refl, sym, ap, ◌∙◌, String, Bool, true, false, Option, none, some, List, [], ◌∷◌,
  ◌++◌, ok, Ensures-ok, length, leb, if◌then◌else◌, arith,
}
use orihsus.Pool.State.{KeyPool}
use orihsus.Pool.Attempts.{Selection}
use orihsus.Audit.Summary.{AttemptSummary}
use orihsus.Gateway.Usage.{
  NumberOps, RequestUsage, JsonUsageParser, new_json, push_json, extract_usage,
}
use orihsus.Gateway.Usage.Counts.{concat, push_chunks, usage_json_lem}
use orihsus.Gateway.Sse.{Utf8, SseUsageParser, new_sse, push}
use orihsus.Gateway.Sse.Events.{events_after, consume_all}
use orihsus.Gateway.Sse.Chunks.{push_all, push_all-events}
use orihsus.Config.Types.{EventTimeouts}
use orihsus.Gateway.Upstream.{Response, PreparedResponse, sse_event_cap, prepare_response}
use orihsus.Gateway.Upstream.Reads.{Ending, bytes_of, ending_of, Holds, prepare_response-Holds}
use orihsus.Gateway.Pump.{
  StreamUsageParser, sse, json, PumpOutcome, done, cut, cancelled, idle_timeout, PumpPlan, Client,
  Pump, json_usage_cap, parser_for, feed, usage_of_parser, usage_if_done, pump_upstream, Finished,
  finish_stream,
}
use orihsus.Gateway.Pump.Delivers.{
  IsWhole, feed_all, Delivers, AllDelivers, pump_upstream-AllDelivers,
}

module _ {J : Type 0} (ops : NumberOps J) (utf8 : Utf8) where
  -- The usage that a whole body states: the last event with one, or the document itself if it is
  -- short enough.
  unfoldable pub body_usage : Bool → List ℕ → Option RequestUsage
  body_usage true body = (consume_all ops utf8 sse_event_cap (events_after [] body) (none, 0)).0
  body_usage false body = if leb (length body) json_usage_cap then extract_usage ops body else none

  feed_all-sse :
      (cs : List (List ℕ)) (p : SseUsageParser)
      → feed_all ops utf8 (sse p) cs ≡ sse (push_all ops utf8 p cs).0
  unfolding feed_all feed push_all
  feed_all-sse [] p = refl
  feed_all-sse (c ∷ cs) p = feed_all-sse cs (push ops utf8 p c).0

  feed_all-json :
      (cs : List (List ℕ)) (p : JsonUsageParser)
      → feed_all ops utf8 (json p) cs ≡ json (push_chunks p cs)
  unfolding feed_all feed push_chunks
  feed_all-json [] p = refl
  feed_all-json (c ∷ cs) p = feed_all-json cs (push_json p c)

  feed_all-usage :
      (streaming : Bool) (cs : List (List ℕ))
      → usage_of_parser ops utf8 (feed_all ops utf8 (parser_for streaming) cs)
        ≡ body_usage streaming (concat cs)
  unfolding usage_of_parser body_usage
  feed_all-usage true cs =
      ap (usage_of_parser ops utf8) (feed_all-sse cs (new_sse sse_event_cap))
      ∙ (push_all-events ops utf8 sse_event_cap cs).0
  feed_all-usage false cs =
      ap (usage_of_parser ops utf8) (feed_all-json cs (new_json json_usage_cap))
      ∙ usage_json_lem ops json_usage_cap cs

  -- What is promised of a finished stream with the body that the upstream sent.
  pub record Relayed (body : List ℕ) (ending : Ending) (streaming : Bool) (f : Finished)
      : Type 0 where
    pub rest : List ℕ
    pub start : concat f.delivered ++ rest ≡ body
    pub complete :
        f.outcome ≡ done
        → IsWhole ending × (concat f.delivered ≡ body) × (f.usage ≡ body_usage streaming body)
    pub partial : f.outcome ≢ done → f.usage ≡ none

  no_usage :
      (outcome : PumpOutcome) (parser : StreamUsageParser)
      → outcome ≢ done
      → usage_if_done ops utf8 outcome parser ≡ none
  no_usage done parser h = absurd (h refl)
  no_usage cut parser h = refl
  no_usage cancelled parser h = refl
  no_usage idle_timeout parser h = refl

  Delivers-Relayed :
      (body : List ℕ) (ending : Ending) (streaming : Bool) (p : Pump) (outcome : PumpOutcome)
      (pool : KeyPool) (now : ℕ) (sel : Selection) (model : String)
      (summaries : List AttemptSummary)
      → Delivers ops utf8 (parser_for streaming) body ending p outcome
      → Relayed body ending streaming
          (finish_stream ops utf8 pool now sel model summaries (p, outcome))
  unfolding finish_stream
  Delivers-Relayed body ending streaming p outcome pool now sel model summaries d = record {
    rest = d.rest;
    start = d.start;
    complete = λ e.
        let (whole_body, all, parsed) = d.complete e in
        (
          whole_body,
          all,
          ap (λ o. usage_if_done ops utf8 o p.parser) e
              ∙ ap (usage_of_parser ops utf8) parsed
              ∙ feed_all-usage streaming p.delivered
              ∙ ap (body_usage streaming) all,
        );
    partial = no_usage outcome p.parser;
  }

  -- A response that is accepted and streamed to its end: the client was sent the start of the body
  -- that the upstream sent, the bytes read ahead included, unchanged. If the outcome is that it is
  -- complete, the upstream's body came to its clean end, the client was sent the whole of it, and the
  -- usage in the audit is that of the whole body, however it was cut into chunks; after any other
  -- outcome the usage is none.
  pub relay-Relayed :
      (resp : Response) (timeouts : EventTimeouts) (read_now attempt_start : ℕ)
      (prepared : PreparedResponse) (plan : PumpPlan) (client : Client) (pump_now : ℕ)
      (end : Pump × PumpOutcome) (pool : KeyPool) (now : ℕ) (sel : Selection) (model : String)
      (summaries : List AttemptSummary)
      → prepare_response ops utf8 resp timeouts sse_event_cap read_now attempt_start ≡ ok prepared
      → pump_upstream ops utf8 plan client prepared (parser_for prepared.streaming) pump_now
        ≡ some end
      → Relayed
          (bytes_of resp.body)
          (ending_of resp.body)
          prepared.streaming
          (finish_stream ops utf8 pool now sel model summaries end)
  relay-Relayed resp timeouts read_now attempt_start prepared plan client pump_now (p, outcome) pool
        now sel model summaries accepted ended =
      let holds =
        Ensures-ok (λ q. Holds sse_event_cap resp.body q.prefetched q.upstream) _ prepared accepted
          (prepare_response-Holds ops utf8 resp timeouts sse_event_cap read_now attempt_start
            (omega arith)) in
      let parser = parser_for prepared.streaming in
      let sent =
        subst
          (AllDelivers ops utf8 parser (concat prepared.prefetched ++ bytes_of prepared.upstream)
            (ending_of prepared.upstream))
          ended (pump_upstream-AllDelivers ops utf8 plan client prepared parser pump_now) in
      Delivers-Relayed (bytes_of resp.body) (ending_of resp.body) prepared.streaming p outcome pool
        now sel model summaries
        (subst (λ b. Delivers ops utf8 parser b (ending_of resp.body) p outcome) (sym holds.bytes)
          (subst
            (λ e.
              Delivers ops utf8 parser (concat prepared.prefetched ++ bytes_of prepared.upstream) e
                p outcome)
            (sym holds.ending) sent))
