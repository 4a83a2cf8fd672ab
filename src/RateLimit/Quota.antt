-- ===== src/RateLimit/Quota.antt =====
-- What the limiter promises a client within one window of sixty seconds.
use Prim.Native.Nat.{min}
use agentchains.Base.{
  ℕ, ◌+◌, ◌-◌, ◌<◌, ◌≡◌, refl, ap, ◌∙◌, ◌≢◌, Bool, false, not, some, List, [], ◌∷◌, arith, ltb,
  if◌then◌else◌, length, All,
}
use agentchains.Base.Dict.{lookup, lookup-insert_self, lookup-insert_ne, lookup-keep}
use agentchains.RateLimit.Window.{
  Bucket, Limiter, is_stale, maybe_cleanup, limit_of, count_in, check,
}

-- One request of the client: the two readings of the clock.
pub record Request : Type 0 where
  pub now : ℕ
  pub created : ℕ

-- The answers to a client's requests, in order.
unfoldable pub checks : ℕ → Bool → List Request → Limiter → Limiter × ℕ
checks key auth [] l = (l, 0)
checks key auth (r ∷ rs) l =
    let (l', allowed, headers) = check r.now r.created key auth l in
    let (l'', n) = checks key auth rs l' in (l'', (if allowed then 1 else 0) + n)

-- A request before the time `end`.
abbrev pub IsBefore : ℕ → Request → Type 0
IsBefore end r = r.now < end

cleanup_keeps :
    (now key : ℕ) (l : Limiter) (b : Bucket)
    → lookup key l.buckets ≡ some b
    → is_stale now b ≡ false
    → lookup key (maybe_cleanup now l).buckets ≡ some b
unfolding maybe_cleanup
cleanup_keeps now key l b h fresh =
    ground (arith, lookup-keep key (λ v. not (is_stale now v)) l.buckets b)

maybe_cleanup_limits :
    (now : ℕ) (auth : Bool) (l : Limiter) → limit_of (maybe_cleanup now l) auth ≡ limit_of l auth
unfolding maybe_cleanup
maybe_cleanup_limits now auth l = ground arith

check_in_window :
    (r : Request) (key : ℕ) (auth : Bool) (l : Limiter) (b : Bucket)
    → lookup key l.buckets ≡ some b
    → r.now < b.window_start + 60000
    → let (l', allowed, headers) = check r.now r.created key auth l in
      (lookup key l'.buckets ≡ some (record b { count = b.count + 1 }))
      × (allowed ≡ not (ltb (limit_of l auth) (b.count + 1)))
      × (limit_of l' auth ≡ limit_of l auth)
unfolding check
check_in_window r key auth l b h early = rw (cleanup_keeps r.now key l b h (ground arith)) (
    rw counted (
      lookup-insert_self key _ (maybe_cleanup r.now l).buckets,
      refl,
      maybe_cleanup_limits r.now auth l,
    ))
  where
    counted : count_in r.now b ≡ record b { count = b.count + 1 }
    counted = ground arith

-- Through any requests of a client before its window ends, exactly as many are allowed as the limit
-- leaves over what was counted, and the first ones; every request is counted, refused ones too.
pub quota_exact :
    (rs : List Request) (key : ℕ) (auth : Bool) (l : Limiter) (b : Bucket)
    → lookup key l.buckets ≡ some b
    → All (IsBefore (b.window_start + 60000)) rs
    → let (l', allowed) = checks key auth rs l in
      (allowed ≡ min (length rs) (limit_of l auth - b.count))
      × (lookup key l'.buckets ≡ some (record b { count = b.count + length rs }))
unfolding checks
quota_exact [] key auth l b h early = (omega arith, ground arith)
quota_exact (r ∷ rs) key auth l b h early =
    let step = check_in_window r key auth l b h early.0 in
    let rest =
      quota_exact rs key auth (check r.now r.created key auth l).0
        (record b { count = b.count + 1 }) step.0 early.1 in
    rw (step.1, rest.0, step.2)
      (ground arith, rest.1 ∙ ap (λ n. some (record b { count = n })) (omega arith))

-- A client's bucket is left alone by the requests of others while it is not stale.
others_keep_bucket :
    (r : Request) (key j : ℕ) (auth : Bool) (l : Limiter) (b : Bucket)
    → j ≢ key
    → lookup j l.buckets ≡ some b
    → is_stale r.now b ≡ false
    → lookup j (check r.now r.created key auth l).0.buckets ≡ some b
unfolding check
others_keep_bucket r key j auth l b ne h fresh =
    lookup-insert_ne j key _ (maybe_cleanup r.now l).buckets ne ∙ cleanup_keeps r.now j l b h fresh
