-- ===== src/RateLimit/Tests.antt =====
-- Runs of the limiter, and the theorems about it at concrete inputs.
use Prim.Native.Nat.{min}
use agentchains.Base.{ℕ, ◌+◌, ◌-◌, ◌≡◌, refl, true, false, some, List, [], ◌∷◌, arith, length}
use agentchains.Base.Dict.{lookup}
use agentchains.RateLimit.Window.{Bucket, Limiter, limit_of, check}
use agentchains.RateLimit.Quota.{Request, checks, quota_exact}

abbrev bucket : Bucket
bucket = record { count = 1; window_start = 1000 }

abbrev limiter : Limiter
limiter = record {
  authenticated_limit = 3;
  anonymous_limit = 2;
  buckets = (7, bucket) ∷ [];
  last_cleanup = 0;
}

abbrev at_time : ℕ → Request
at_time t = record { now = t; created = t }

abbrev burst : List Request
burst = at_time 2000 ∷ at_time 3000 ∷ at_time 60999 ∷ []

-- The third request is refused; one second later the window is over.
burst_runs : (checks 7 true burst limiter).1 ≡ 2
unfolding checks check
burst_runs = refl

refused_headers :
    (check 60999 60999 7 false (checks 7 true burst limiter).0).2
    ≡ record { limit = 2; remaining = 0; reset_after = 0; retry_after = some 1 }
unfolding checks check
refused_headers = refl

next_window : (check 61000 61000 7 true (checks 7 true burst limiter).0).1 ≡ true
unfolding checks check
next_window = refl

quota_exact_example :
    let (l', allowed) = checks 7 true burst limiter in
    (allowed ≡ min (length burst) (limit_of limiter true - bucket.count))
    × (lookup 7 l'.buckets ≡ some (record bucket { count = bucket.count + length burst }))
quota_exact_example = quota_exact burst 7 true limiter bucket refl (omega arith)
