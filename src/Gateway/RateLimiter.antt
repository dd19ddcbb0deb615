-- ===== src/Gateway/RateLimiter.antt =====
-- The rate limiter of src/gateway/src/rate_limiter.cpp. Times are those of the steady clock, in
-- milliseconds; `Allow` reads it once, and `CleanupExpired` once more.
pub mod Window
use online_judge.Base.{
  ℕ, ◌+◌, ◌-◌, ◌*◌, ◌/◌, Text, List, [], ◌∷◌, Option, none, some, Bool, true, false, ltb, leb,
  if◌then◌else◌, ◌=t◌,
}

-- `RateLimiter::Bucket`.
pub record Bucket : Type 0 where
  pub count : ℕ
  pub window_start : ℕ

-- The map of the buckets is a function.
pub record RateLimiter : Type 0 where
  pub max_requests : ℕ
  pub window_s : ℕ
  pub last_cleanup : ℕ
  pub buckets : Text → Option Bucket

-- The constructor.
pub new_rate_limiter : (max_requests window_s now : ℕ) → RateLimiter
new_rate_limiter max_requests window_s now = record {
  max_requests = max_requests;
  window_s = window_s;
  last_cleanup = now;
  buckets = λ key. none;
}

-- The body of the loop of `CleanupExpired`.
abbrev pub keep_unless_expired : (window_s now : ℕ) → Option Bucket → Option Bucket
keep_unless_expired window_s now none = none
keep_unless_expired window_s now (some bucket) =
    if ltb (window_s * 2) ((now - bucket.window_start) / 1000) then none else some bucket

abbrev pub cleanup_expired : ℕ → RateLimiter → RateLimiter
cleanup_expired now limiter = record limiter {
  buckets = λ key. keep_unless_expired limiter.window_s now (limiter.buckets key);
}

abbrev pub cleanup_if_due : (now cleanup_now : ℕ) → RateLimiter → RateLimiter
cleanup_if_due now cleanup_now limiter =
    if ltb 300000 (now - limiter.last_cleanup)
    then record (cleanup_expired cleanup_now limiter) { last_cleanup = now }
    else limiter

-- `_buckets[key]`, with the defaults of a new bucket.
abbrev pub bucket_or_new : Option Bucket → Bucket
bucket_or_new none = record { count = 0; window_start = 0 }
bucket_or_new (some bucket) = bucket

abbrev pub renew : (window_s now : ℕ) → Bucket → Bucket
renew window_s now bucket =
    if leb window_s ((now - bucket.window_start) / 1000)
    then record { count = 0; window_start = now }
    else bucket

abbrev pub take_from : ℕ → Bucket → Bool × Bucket
take_from max_requests bucket =
    if leb max_requests bucket.count
    then (false, bucket)
    else (true, record bucket { count = bucket.count + 1 })

abbrev pub put_bucket : Text → Bucket → (Text → Option Bucket) → Text → Option Bucket
put_bucket key bucket buckets other = if key =t other then some bucket else buckets other

-- `Allow`, after the clean-up.
pub serve : ℕ → Text → RateLimiter → Bool × RateLimiter
serve now key limiter =
    let (allowed, bucket) =
      take_from limiter.max_requests
        (renew limiter.window_s now (bucket_or_new (limiter.buckets key))) in
    (allowed, record limiter { buckets = put_bucket key bucket limiter.buckets })

-- `Allow`.
pub allow : (now cleanup_now : ℕ) → Text → RateLimiter → Bool × RateLimiter
allow now cleanup_now key limiter = serve now key (cleanup_if_due now cleanup_now limiter)
