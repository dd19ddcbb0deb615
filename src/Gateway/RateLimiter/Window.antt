-- ===== src/Gateway/RateLimiter/Window.antt =====
-- RateLimiter: what one key gets while less than a window passes.
use online_judge.Base.{
  ℕ, ◌+◌, ◌-◌, ◌*◌, ◌≤◌, ◌<◌, ◌≡◌, ◌⊎◌, refl, Text, List, [], ◌∷◌, Option, none, some, Bool, true,
  false, leb, arith, if◌then◌else◌, ◌=t◌, Text-discrete, All, ap,
}
use online_judge.Gateway.RateLimiter.{
  Bucket, RateLimiter, allow, bucket_or_new, cleanup_if_due, renew, take_from, keep_unless_expired,
  serve,
}

-- One call of `Allow`.
pub record Arrival : Type 0 where
  pub now : ℕ
  pub cleanup_now : ℕ
  pub key : Text

abbrev pub granted : Text → Arrival → Bool → ℕ
granted key arrival true = if arrival.key =t key then 1 else 0
granted key arrival false = 0

-- The calls one after the other: how many of those with the key were let through.
pub allowed_for : Text → List Arrival → RateLimiter → ℕ
allowed_for key [] limiter = 0
allowed_for key (a ∷ arrivals) limiter =
    let (allowed, limiter') = allow a.now a.cleanup_now a.key limiter in
    granted key a allowed + allowed_for key arrivals limiter'

-- The call and its clean-up happen in the stretch of one window that starts at `from`.
pub record Within (from window_s : ℕ) (a : Arrival) : Type 0 where
  pub after : from ≤ a.now
  pub before : a.now < from + 1000 * window_s
  pub cleanup_before : a.cleanup_now < from + 1000 * window_s

-- How many requests a bucket can still let through in the stretch.
abbrev allowance : (max_requests window_s from : ℕ) → Bucket → ℕ
allowance max_requests window_s from b =
    if leb from b.window_start
    then max_requests - b.count
    else if leb (b.window_start + 1000 * window_s) from
    then max_requests
    else 2 * max_requests - b.count

spend :
    (m w from now : ℕ) (b : Bucket)
    → from ≤ now
    → now < from + 1000 * w
    → b.count ≤ m
    → ((take_from m (renew w now b)).1.count ≤ m)
      × ((if (take_from m (renew w now b)).0 then 1 else 0)
            + allowance m w from ((take_from m (renew w now b)).1)
          ≤ allowance m w from b)
spend m w from now b h k c = ground arith

cleanup_bucket :
    (m w from now : ℕ) (o : Option Bucket)
    → now < from + 1000 * w
    → (bucket_or_new o).count ≤ m
    → ((bucket_or_new (keep_unless_expired w now o)).count ≤ m)
      × (allowance m w from (bucket_or_new (keep_unless_expired w now o))
          ≤ allowance m w from (bucket_or_new o))
cleanup_bucket m w from now none h c = (c, omega arith)
cleanup_bucket m w from now (some b) h c = ground arith

-- What `Allow` keeps of a limiter: its settings, and a count within the limit for the key.
record Fits (key : Text) (m w : ℕ) (limiter : RateLimiter) : Type 0 where
  limit : limiter.max_requests ≡ m
  window : limiter.window_s ≡ w
  counted : (bucket_or_new (limiter.buckets key)).count ≤ m

abbrev room : Text → (m w from : ℕ) → RateLimiter → ℕ
room key m w from limiter = allowance m w from (bucket_or_new (limiter.buckets key))

cleanup-room :
    (key : Text) (m w from now cleanup_now : ℕ) (limiter : RateLimiter)
    → cleanup_now < from + 1000 * w
    → Fits key m w limiter
    → Fits key m w (cleanup_if_due now cleanup_now limiter)
      × (room key m w from (cleanup_if_due now cleanup_now limiter) ≤ room key m w from limiter)
cleanup-room key m w from now cleanup_now limiter h fits =
    ground (arith, cleanup_bucket m w from cleanup_now (limiter.buckets key) h)

serve-room :
    (key : Text) (m w from : ℕ) (a : Arrival) (limiter : RateLimiter)
    → Within from w a
    → Fits key m w limiter
    → Fits key m w (serve a.now a.key limiter).1
      × (granted key a (serve a.now a.key limiter).0
            + room key m w from (serve a.now a.key limiter).1
          ≤ room key m w from limiter)
unfolding serve Text-discrete
serve-room key m w from a limiter within fits = elim (Text-discrete a.key key) [
  | yes same ↦ ground (
    arith,
    same,
    ap limiter.buckets same,
    spend m w from a.now (bucket_or_new (limiter.buckets a.key)) within.after within.before,
  )
  | no other ↦ ground (arith, other)
]

allow-room :
    (key : Text) (m w from : ℕ) (a : Arrival) (limiter : RateLimiter)
    → Within from w a
    → Fits key m w limiter
    → Fits key m w (allow a.now a.cleanup_now a.key limiter).1
      × (granted key a (allow a.now a.cleanup_now a.key limiter).0
            + room key m w from (allow a.now a.cleanup_now a.key limiter).1
          ≤ room key m w from limiter)
unfolding allow
allow-room key m w from a limiter within fits =
    let (fits', less) =
      cleanup-room key m w from a.now a.cleanup_now limiter within.cleanup_before fits in
    let (fits'', less') =
      serve-room key m w from a (cleanup_if_due a.now a.cleanup_now limiter) within fits' in
    (fits'', omega arith)

allowed_for-room :
    (key : Text) (m w from : ℕ) (arrivals : List Arrival) (limiter : RateLimiter)
    → All (Within from w) arrivals
    → Fits key m w limiter
    → allowed_for key arrivals limiter ≤ room key m w from limiter
unfolding allowed_for
allowed_for-room key m w from [] limiter within fits = omega arith
allowed_for-room key m w from (a ∷ arrivals) limiter (here, within) fits =
    let (fits', less) = allow-room key m w from a limiter here fits in
    omega (
      arith,
      allowed_for-room key m w from arrivals (allow a.now a.cleanup_now a.key limiter).1 within
          fits',
    )

-- In a stretch of less than one window of `window_s` seconds from the time `from`, whatever calls for
-- whatever keys happen in it and whatever happened before, a key whose count is within the limit is
-- let through at most twice the limit; and at most the limit, if the window that its bucket shows is
-- over at `from` (a key without a bucket counts as one whose window started at 0).
pub allowed_for-bound :
    (key : Text) (from : ℕ) (arrivals : List Arrival) (limiter : RateLimiter)
    → (bucket_or_new (limiter.buckets key)).count ≤ limiter.max_requests
    → All (Within from limiter.window_s) arrivals
    → (allowed_for key arrivals limiter ≤ 2 * limiter.max_requests)
      × ((from < (bucket_or_new (limiter.buckets key)).window_start + 1000 * limiter.window_s)
          ⊎ (allowed_for key arrivals limiter ≤ limiter.max_requests))
allowed_for-bound key from arrivals limiter counted within =
    let bound =
      allowed_for-room key limiter.max_requests limiter.window_s from arrivals limiter within
        (record { limit = refl; window = refl; counted = counted }) in
    ground (arith, bound)
