-- ===== src/Circuit/Recovery.antt =====
-- How a breaker trips, blocks, tries and recovers.
use agentchains.Base.{
  ℕ, ◌+◌, ◌≤◌, ◌<◌, ◌≡◌, refl, ◌∙◌, ◌⊎◌, List, [], ◌∷◌, arith, if◌then◌else◌, leb, length, All, map,
}
use agentchains.Circuit.Step.{
  closed, open_, half_open, CircuitBreaker, record_success, record_failure, allow_request,
  new_breaker, refresh,
}
use agentchains.Circuit.Bounds.{
  IsValid, Call, success, failure, request, read_state, manual_reset, call, calls, calls-IsValid,
}

failures_from :
    (ts : List ℕ) (b : CircuitBreaker)
    → (b.state ≡ closed) × (b.failure_count < b.failure_threshold) ⊎ (b.state ≡ open_)
    → (calls (map failure ts) b).0.state
      ≡ (if leb b.failure_threshold (b.failure_count + length ts) then open_ else b.state)
unfolding calls call
failures_from [] b h = ground arith
failures_from (t ∷ ts) b h = ground (arith, failures_from ts (record_failure t b))

-- A new breaker opens on its `failure_threshold`-th failure in a row, not before, and stays open
-- under further failures.
pub failures_trip :
    (f r h : ℕ) (ts : List ℕ)
    → 0 < f
    → (calls (map failure ts) (new_breaker f r h)).0.state
      ≡ (if leb f (length ts) then open_ else closed)
unfolding new_breaker
failures_trip f r h ts pos = ground (arith, failures_from ts (new_breaker f r h))

-- A call before the time `end` that asks for a request, reports a success or reads the state.
abbrev pub IsEarly : ℕ → Call → Type 0
IsEarly end (success now) = now < end
IsEarly end (request now) = now < end
IsEarly end (read_state now) = now < end
IsEarly end _ = ⊥

call_open :
    (c : Call) (b : CircuitBreaker)
    → b.state ≡ open_
    → IsEarly (b.last_failure_time + b.recovery_timeout) c
    → call c b ≡ (b, 0)
unfolding call
call_open (success now) b o h = ground arith
call_open (request now) b o h = ground arith
call_open (read_state now) b o h = ground arith
call_open (failure now) b o h = absurd h
call_open manual_reset b o h = absurd h

-- Until the recovery timeout has passed an open breaker lets no request through, and neither requests
-- nor reports of success nor readings of its state change it.
open_blocks :
    (cs : List Call) (b : CircuitBreaker)
    → b.state ≡ open_
    → All (IsEarly (b.last_failure_time + b.recovery_timeout)) cs
    → calls cs b ≡ (b, 0)
unfolding calls
open_blocks [] b o h = refl
open_blocks (c ∷ cs) b o h = rw (call_open c b o h.0) (rw (open_blocks cs b o h.1) (ground arith))

abbrev pub IsRecovered : CircuitBreaker → Type 0
IsRecovered b =
    (b.state ≡ closed) × (b.failure_count ≡ 0) × (b.success_count ≡ 0) × (b.half_open_calls ≡ 0)

successes_from :
    (t : ℕ) (ts : List ℕ) (b : CircuitBreaker)
    → b.state ≡ half_open
    → b.success_count + length (t ∷ ts) ≡ b.half_open_max_calls
    → IsRecovered (calls (map success (t ∷ ts)) b).0
unfolding calls call
successes_from t [] b o h = ground arith
successes_from t (u ∷ ts) b o h = ground (arith, successes_from u ts (record_success t b))

-- Once the recovery timeout has passed, as many reports of success as the trial window has calls
-- close an open breaker and clear its counters, at whatever times the later ones come.
pub open_recovers :
    (t : ℕ) (ts : List ℕ) (b : CircuitBreaker)
    → IsValid b
    → b.state ≡ open_
    → b.last_failure_time + b.recovery_timeout ≤ t
    → length (t ∷ ts) ≡ b.half_open_max_calls
    → IsRecovered (calls (map success (t ∷ ts)) b).0
unfolding calls call
open_recovers t [] b v o late h = ground arith
open_recovers t (u ∷ ts) b v o late h = ground (arith, successes_from u ts (record_success t b))

-- A call that is a request, a report of success or a reading of the state.
abbrev pub IsFriendly : Call → Type 0
IsFriendly (success now) = Unit
IsFriendly (request now) = Unit
IsFriendly (read_state now) = Unit
IsFriendly _ = ⊥

friendly_closed :
    (cs : List Call) (b : CircuitBreaker)
    → b.state ≡ closed
    → All IsFriendly cs
    → (calls cs b).0.state ≡ closed
unfolding calls call
friendly_closed [] b c h = c
friendly_closed (success now ∷ cs) b c h =
    friendly_closed cs (record_success now b) (ground arith) h.1
friendly_closed (request now ∷ cs) b c h =
    friendly_closed cs (allow_request now b).0 (ground arith) h.1
friendly_closed (read_state now ∷ cs) b c h = friendly_closed cs (refresh now b) (ground arith) h.1
friendly_closed (failure now ∷ cs) b c h = absurd h.0
friendly_closed (manual_reset ∷ cs) b c h = absurd h.0

call-half_open_max_calls :
    (c : Call) (b : CircuitBreaker) → (call c b).0.half_open_max_calls ≡ b.half_open_max_calls
unfolding call
call-half_open_max_calls (success now) b = ground arith
call-half_open_max_calls (failure now) b = ground arith
call-half_open_max_calls (request now) b = ground arith
call-half_open_max_calls (read_state now) b = ground arith
call-half_open_max_calls manual_reset b = ground arith

calls-half_open_max_calls :
    (cs : List Call) (b : CircuitBreaker)
    → (calls cs b).0.half_open_max_calls ≡ b.half_open_max_calls
unfolding calls
calls-half_open_max_calls [] b = refl
calls-half_open_max_calls (c ∷ cs) b =
    calls-half_open_max_calls cs (call c b).0 ∙ call-half_open_max_calls c b

trial_counts :
    (cs : List Call) (b : CircuitBreaker)
    → b.state ≡ half_open
    → All IsFriendly cs
    → (calls cs b).0.state ≡ half_open
    → b.half_open_calls + (calls cs b).1 ≡ (calls cs b).0.half_open_calls
unfolding calls call
trial_counts [] b o h e = omega arith
trial_counts (success now ∷ cs) b o h e =
    ground
      (arith, trial_counts cs (record_success now b), friendly_closed cs (record_success now b))
trial_counts (request now ∷ cs) b o h e = ground (arith, trial_counts cs (allow_request now b).0)
trial_counts (read_state now ∷ cs) b o h e = ground (arith, trial_counts cs (refresh now b))
trial_counts (failure now ∷ cs) b o h e = absurd h.0
trial_counts (manual_reset ∷ cs) b o h e = absurd h.0

-- As long as the trial window lasts, through any requests, reports of success and readings at any times, it
-- lets through at most what is left of `half_open_max_calls`.
trial_admits :
    (cs : List Call) (b : CircuitBreaker)
    → IsValid b
    → b.state ≡ half_open
    → All IsFriendly cs
    → (calls cs b).0.state ≡ half_open
    → b.half_open_calls + (calls cs b).1 ≤ b.half_open_max_calls
trial_admits cs b v o h e = omega (
  arith,
  trial_counts cs b o h e,
  (calls-IsValid cs b v).trial_calls,
  calls-half_open_max_calls cs b,
)

-- A trial window whose calls are used up refuses every later request, however long it waits: only a
-- report or a reset moves it.
trial_stuck :
    (ts : List ℕ) (b : CircuitBreaker)
    → b.state ≡ half_open
    → b.half_open_calls ≡ b.half_open_max_calls
    → calls (map request ts) b ≡ (b, 0)
unfolding calls call
trial_stuck [] b o e = refl
trial_stuck (t ∷ ts) b o e = ground (arith, trial_stuck ts b o e)
