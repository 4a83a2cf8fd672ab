-- ===== src/Circuit/Tests.antt =====
-- Runs of a breaker, and the theorems about it at concrete inputs.
use agentchains.Base.{ℕ, ◌≡◌, refl, List, [], ◌∷◌, arith, if◌then◌else◌, leb, length, map}
use agentchains.Circuit.Step.{
  CircuitState, closed, open_, CircuitBreaker, new_breaker, get_breaker, reset_all,
}
use agentchains.Circuit.Bounds.{
  IsValid, Call, success, failure, request, call, calls, calls_keep_bounds,
}
use agentchains.Circuit.Recovery.{IsRecovered, failures_trip, open_recovers}

abbrev breaker : CircuitState → ℕ → ℕ → CircuitBreaker
breaker state success_count half_open_calls = record {
  failure_threshold = 2;
  recovery_timeout = 60;
  half_open_max_calls = 2;
  state = state;
  failure_count = 1;
  success_count = success_count;
  half_open_calls = half_open_calls;
  last_failure_time = 100;
}

-- Two failures, an early request, two trial requests, a third, and two successes.
abbrev story : List Call
story =
    failure 100
    ∷ failure 110
    ∷ request 150
    ∷ request 170
    ∷ request 171
    ∷ request 172
    ∷ success 173
    ∷ success 174
    ∷ []

story_runs : (calls story (new_breaker 2 60 2)).1 ≡ 2
unfolding calls call new_breaker
story_runs = refl

story_closes : (calls story (new_breaker 2 60 2)).0.state ≡ closed
unfolding calls call new_breaker
story_closes = refl

registry_resets : reset_all (get_breaker 7 []).0 ≡ (7, new_breaker 5 60 3) ∷ []
unfolding reset_all get_breaker
registry_resets = refl

calls_keep_bounds_example : IsValid (calls story (new_breaker 2 60 2)).0
calls_keep_bounds_example = calls_keep_bounds 2 60 2 story (omega arith) (omega arith)

failures_trip_example :
    (calls (map failure (1 ∷ 2 ∷ 3 ∷ [])) (new_breaker 3 60 2)).0.state
    ≡ (if leb 3 (length {A = ℕ} (1 ∷ 2 ∷ 3 ∷ [])) then open_ else closed)
failures_trip_example = failures_trip 3 60 2 (1 ∷ 2 ∷ 3 ∷ []) (omega arith)

open_recovers_example : IsRecovered (calls (map success (160 ∷ 161 ∷ [])) (breaker open_ 0 0)).0
open_recovers_example =
    open_recovers 160 (161 ∷ []) (breaker open_ 0 0) (ground arith) refl (omega arith) refl
