-- ===== src/Pool/Tests/Requests.antt =====
-- The theorems on the requests of src/pool.rs, at concrete pools.
use orihsus.Prelude.{
  ℕ, ◌≤◌, ◌≡◌, ◌⊎◌, ◌++◌, refl, arith, none, some, List, [], ◌∷◌, length, All, NoRepeat,
}
use orihsus.Pool.Policy.{validate}
use orihsus.Pool.State.{KeyPool, has_available_key}
use orihsus.Pool.Attempts.{
  Selection, selectable, has_unused, RequestAttempts, RequestCandidate, Attempt, candidates_from,
  request, request_with_model, try_select_unused, after_select, selection_of,
}
use orihsus.Pool.Attempts.Select.{Free, Barred, try_select_unused_lem}
use orihsus.Pool.Attempts.Available.{available-selected}
use orihsus.Pool.Wait.{
  Round, next_round, wait_round, earliest_recovery, recovery_of, recovery_times, minimum, next,
  done,
}
use orihsus.Pool.Wait.Terminates.{next_terminates}
use orihsus.Pool.Wait.Calls.{immediately, waiting, after_calls, keys_given, Call, calls_budget}
use orihsus.Pool.Tests.{two_keys, recovering}

abbrev asked : RequestAttempts
asked = request two_keys 10

try_select_unused_lem_example :
    ((try_select_unused two_keys asked 20 ≡ none) × All (Barred two_keys asked 20) asked.candidates)
    ⊎ ((c : RequestCandidate) × (skipped rest : List RequestCandidate) × (try_select_unused two_keys
            asked 20
          ≡ some (selection_of two_keys c, after_select two_keys 20 c))
        × (asked.candidates ≡ skipped ++ c ∷ rest)
        × Free two_keys asked 20 c
        × All (Barred two_keys asked 20) skipped)
try_select_unused_lem_example = try_select_unused_lem two_keys asked 20

available-selected_example :
    (sel : Selection) × (p' : KeyPool) × (try_select_unused two_keys asked 20 ≡ some (sel, p'))
unfolding has_available_key
available-selected_example = available-selected two_keys 10 20 (omega arith) (refl, (refl, tt)) refl

abbrev three_calls : List Call
three_calls = immediately two_keys 20 ∷ waiting two_keys [] ∷ immediately two_keys 60 ∷ []

calls_budget_example :
    let r = request_with_model two_keys 10 none in
    (length (keys_given r three_calls) ≤ 2)
    × (length (keys_given r three_calls) ≤ 2)
    × NoRepeat (keys_given r three_calls)
    × ((after_calls r three_calls).used ≡ keys_given r three_calls)
unfolding validate
calls_budget_example = calls_budget two_keys 10 none three_calls refl

-- A pool whose one key cools until 50, and a request that has 50 as its deadline: it sleeps a round.
abbrev cooling_pool : KeyPool
cooling_pool = record two_keys { entries = recovering ∷ [] }

abbrev patient : RequestAttempts
patient = record (request cooling_pool 10) { deadline = 50 }

abbrev round_at : ℕ → Round
round_at t = record {
  before = λ p. p;
  select_now = t;
  check_now = t;
  between = λ p. p;
  recover_now = t;
}

next_terminates_example :
    (a : Attempt) × (next (round_at 49 ∷ round_at 50 ∷ []) cooling_pool patient ≡ done a)
unfolding next_round wait_round earliest_recovery recovery_times recovery_of minimum
    try_select_unused selectable request_with_model candidates_from has_unused
next_terminates_example =
    next_terminates (round_at 49 ∷ round_at 50 ∷ []) cooling_pool patient 49 (omega arith)
      (omega arith) (omega arith)
      (omega arith, omega arith, (omega arith, (omega arith, omega arith, tt)))
