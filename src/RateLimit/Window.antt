-- ===== src/RateLimit/Window.antt =====
-- `SlidingWindowRateLimiter`: its buckets, `check` and `_maybe_cleanup`.
use agentchains.Base.{ℕ, ◌+◌, ◌-◌, ◌/◌, Bool, not, Option, none, some, ltb, leb, if◌then◌else◌}
use agentchains.Base.Dict.{Dict, lookup, insert, keep}

-- `_Window`
pub record Bucket : Type 0 where
  pub count : ℕ
  pub window_start : ℕ

-- The limiter, with the two limits of the settings.
pub record Limiter : Type 0 where
  pub authenticated_limit : ℕ
  pub anonymous_limit : ℕ
  pub buckets : Dict Bucket
  pub last_cleanup : ℕ

pub record Headers : Type 0 where
  pub limit : ℕ
  pub remaining : ℕ
  pub reset_after : ℕ
  pub retry_after : Option ℕ

-- `now - v.window_start > 600`
abbrev pub is_stale : ℕ → Bucket → Bool
is_stale now v = ltb (v.window_start + 600000) now

unfoldable pub maybe_cleanup : ℕ → Limiter → Limiter
maybe_cleanup now l =
    if ltb now (l.last_cleanup + 300000)
    then l
    else record l { last_cleanup = now; buckets = keep (λ v. not (is_stale now v)) l.buckets }

abbrev pub limit_of : Limiter → Bool → ℕ
limit_of l authenticated = if authenticated then l.authenticated_limit else l.anonymous_limit

-- The `defaultdict` entry: a missing bucket takes its own reading of the clock.
abbrev pub bucket_of : ℕ → Option Bucket → Bucket
bucket_of created (some b) = b
bucket_of created none = record { count = 0; window_start = created }

abbrev pub count_in : ℕ → Bucket → Bucket
count_in now b =
    if leb (b.window_start + 60000) now
    then record { count = 1; window_start = now }
    else record { count = b.count + 1; window_start = b.window_start }

abbrev pub max : ℕ → ℕ → ℕ
max a b = if leb a b then b else a

-- `int(bucket.window_start + 60 - now)`
abbrev pub reset_at : ℕ → Bucket → ℕ
reset_at now b = (b.window_start + 60000 - now) / 1000

abbrev pub headers_of : ℕ → ℕ → Bucket → Headers
headers_of limit now b = record {
  limit = limit;
  remaining = limit - b.count;
  reset_after = reset_at now b;
  retry_after = if ltb limit b.count then some (max 1 (reset_at now b)) else none;
}

unfoldable pub check : ℕ → ℕ → ℕ → Bool → Limiter → Limiter × Bool × Headers
unfolding maybe_cleanup
check now created key authenticated l =
    let limit = limit_of l authenticated in
    let l' = maybe_cleanup now l in
    let b = count_in now (bucket_of created (lookup key l'.buckets)) in
    (
      record l' { buckets = insert key b l'.buckets },
      not (ltb limit b.count),
      headers_of limit now b,
    )
