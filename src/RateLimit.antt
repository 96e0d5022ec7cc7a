-- ===== src/RateLimit.antt =====
-- The fixed-window rate limiter of backend/internal/middleware/auth.go. The mutex makes each request
-- one step; `now` is what time.Now returned, which Go's monotonic clock never lets fall. A Go map
-- that is only read, written and ranged over to delete is a function here, with the zero value at a
-- missing key.
use cert_rollover_impact_ass.Prelude.{
  ℕ, ◌+◌, ◌-◌, Bool, true, false, ◌||◌, String, str_eq, concat, [], ◌∷◌, ltb, leb, if◌then◌else◌,
  List, not,
}
use cert_rollover_impact_ass.Simulator.Snapshot.{Instant, zero_time, is_zero}
use cert_rollover_impact_ass.Simulator.Window.{minute}
pub mod Quota

pub record RateBucket : Type 0 where
  pub start : Instant
  pub count : ℕ

abbrev pub Buckets : Type 0
Buckets = String → RateBucket

pub record RateLimiter : Type 0 where
  pub limit : ℕ
  pub buckets : Buckets
  pub sweep_at : Instant

abbrev pub no_bucket : RateBucket
no_bucket = record { start = zero_time; count = 0 }

unfoldable pub new_rate_limiter : ℕ → RateLimiter
new_rate_limiter limit = record {
  limit = if ltb limit 1 then 1 else limit;
  buckets = λ key. no_bucket;
  sweep_at = zero_time;
}

-- `now.Sub(t) >= time.Minute`; where the difference is negative there, it is 0 here.
abbrev pub minute_since : Instant → Instant → Bool
minute_since now t = leb minute (now - t)

abbrev pub put : String → RateBucket → Buckets → Buckets
put key b buckets k = if str_eq k key then b else buckets k

-- the loop that deletes the buckets whose minute is over
abbrev pub sweep : Instant → Buckets → Buckets
sweep now buckets k = if minute_since now (buckets k).start then no_bucket else buckets k

-- the garbage collection, once a minute
abbrev pub collect : RateLimiter → Instant → RateLimiter
collect l now =
    if minute_since now l.sweep_at
    then record l { buckets = sweep now l.buckets; sweep_at = now }
    else l

-- the bucket that a request counts in
abbrev pub open_bucket : Instant → RateBucket → RateBucket
open_bucket now bucket =
    if is_zero bucket.start || minute_since now bucket.start
    then record { start = now; count = 0 }
    else bucket

-- `scope + ":" + clientKey(c)`
abbrev pub client_key : String → String → String
client_key scope client = concat (scope ∷ ":" ∷ client ∷ [])

-- What a request does under the lock: the limiter that it leaves, and whether it is refused.
unfoldable pub request : RateLimiter → String → Instant → RateLimiter × Bool
request l key now =
    let l' = collect l now in
    let opened = open_bucket now (l'.buckets key) in
    let bucket = record opened { count = opened.count + 1 } in
    (record l' { buckets = put key bucket l'.buckets }, ltb l'.limit bucket.count)

-- a sequence of requests, and how many of those under `k` were admitted
unfoldable pub admitted : String → RateLimiter → List (String × Instant) → ℕ
admitted k l [] = 0
admitted k l ((key, now) ∷ requests) =
    let (l', exceeded) = request l key now in
    let rest = admitted k l' requests in
    if str_eq k key then (if exceeded then rest else rest + 1) else rest

-- how many of the requests are under `k`
abbrev pub demand : String → List (String × Instant) → ℕ
demand k [] = 0
demand k ((key, now) ∷ requests) =
    let rest = demand k requests in if str_eq k key then rest + 1 else rest
