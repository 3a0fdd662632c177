-- ===== src/Gateway/Tests/Requests.antt =====
-- The theorems on the attempts of a request of src/gateway.rs, at a pool of two keys.
use mathlib.Core.Option
use orihsus.Prelude.{◌≡◌, none, refl, arith, some, List, [], ◌∷◌}
use orihsus.Pool.Policy.{validate}
use orihsus.Pool.Attempts.{request_with_model}
use orihsus.Pool.Wait.{Round}
use orihsus.Pool.Tests.{two_keys}
use orihsus.Gateway.Retry.{
  Turn, Sent, replied, header_timeout, RequestContext, run_loop, start_loop,
}
use orihsus.Gateway.Upstream.{consume_classify_body, consume_loop}
use orihsus.Gateway.Retry.Errors.{last_error}
use orihsus.Gateway.Retry.Runs.{
  IsOver, IsChained, IsRightly, run_loop-IsOver, run_loop-IsChained, run_loop-IsRightly,
}
use orihsus.Gateway.Tests.{small_json}
use orihsus.Gateway.Tests.Streams.{small_numbers, ascii, limited, event_stream, timeouts}

abbrev context : RequestContext
context = record {
  model = "m";
  request_start = 0;
  upstream_error_body = 100;
  event_timeouts = timeouts;
}

abbrev round : Round
round = record {
  before = λ p. p;
  select_now = 60;
  check_now = 60;
  between = λ p. p;
  recover_now = 60;
}

abbrev turn_with : Sent → Turn
turn_with sent = record {
  before = λ p. p;
  select_now = 60;
  rounds = round ∷ [];
  attempt_start = 10;
  sent = sent;
  replied_now = 15;
  during = λ p. p;
  report_now = 70;
}

-- The first key is rate limited, and the second answers.
abbrev failover : List Turn
failover =
    turn_with (replied limited) ∷ turn_with (replied event_stream) ∷ turn_with header_timeout ∷ []

run_loop-IsOver_example : IsOver (
    run_loop small_numbers small_json ascii context
      (start_loop two_keys (request_with_model two_keys 50 (some "m")))
      failover)
unfolding validate
run_loop-IsOver_example =
    run_loop-IsOver small_numbers small_json ascii context two_keys two_keys 50 (some "m") failover
      refl (omega arith)

run_loop-IsChained_example : IsChained (
    run_loop small_numbers small_json ascii context
      (start_loop two_keys (request_with_model two_keys 50 (some "m")))
      failover)
unfolding validate
run_loop-IsChained_example =
    run_loop-IsChained small_numbers small_json ascii context two_keys two_keys 50 (some "m")
      failover refl (omega arith)

run_loop-IsRightly_example : IsRightly context failover (
    run_loop small_numbers small_json ascii context
      (start_loop two_keys (request_with_model two_keys 50 (some "m")))
      failover)
unfolding validate
run_loop-IsRightly_example =
    run_loop-IsRightly small_numbers small_json ascii context two_keys two_keys 50 (some "m")
      failover refl (omega arith)

-- The first key answers 429, and the error is kept with it.
first_error : Option.map (λ e. e.1) (last_error context none failover ("aa" ∷ [])) ≡ some "aa"
unfolding last_error consume_classify_body consume_loop
first_error = refl
