-- ===== src/RateLimit/Quota.antt =====
-- The quota of a client in one window, whatever others do and whenever buckets are collected.
use cert_rollover_impact_ass.Prelude.{
  ℕ, ◌+◌, ◌-◌, ◌≤◌, ◌<◌, ◌≡◌, ◌≢◌, ◌⊎◌, refl, true, false, String, str_eq, eq_iff, List, [], ◌∷◌,
  arith, min, inl, inr, Bool-cases, ltb, ap, ◌∙◌, if◌then◌else◌,
}
use cert_rollover_impact_ass.Simulator.Snapshot.{Instant, zero_time}
use cert_rollover_impact_ass.Simulator.Window.{minute}
use cert_rollover_impact_ass.RateLimit.{
  RateBucket, RateLimiter, new_rate_limiter, request, admitted, demand, collect, open_bucket,
}

-- `c` requests have been counted, in a window that is open up to `end`.
record IsOpen (b : RateBucket) (c : ℕ) (end : Instant) : Type 0 where
  counted : b.count ≡ c
  started : b.start ≢ zero_time
  lasts : end ≤ b.start + minute

-- At `now` and later the bucket counts for nothing.
abbrev IsSpent : RateBucket → Instant → Type 0
IsSpent b now = (b.start ≡ zero_time) ⊎ (b.start + minute ≤ now)

-- the bucket of `k` at `now`, when `c` of its requests have been counted
abbrev Counts : RateLimiter → String → ℕ → Instant → Instant → Type 0
Counts l k c now end = (c ≡ 0) × IsSpent (l.buckets k) now ⊎ IsOpen (l.buckets k) c end

module _ (l : RateLimiter) (k : String) (now : Instant) where
  collect-IsSpent : IsSpent (l.buckets k) now → IsSpent ((collect l now).buckets k) now
  collect-IsSpent h = ground arith

  collect-IsOpen :
      (c : ℕ) (end : Instant)
      → now < end
      → IsOpen (l.buckets k) c end
      → IsOpen ((collect l now).buckets k) c end
  collect-IsOpen c end lt h = ground arith

  collect-limit : (collect l now).limit ≡ l.limit
  collect-limit = ground arith

open_bucket_spent :
    (b : RateBucket) (now : Instant)
    → IsSpent b now
    → open_bucket now b ≡ record { start = now; count = 0 }
open_bucket_spent b now h = ground arith

open_bucket_open :
    (b : RateBucket) (c : ℕ) (now end : Instant)
    → now < end
    → IsOpen b c end
    → open_bucket now b ≡ b
open_bucket_open b c now end lt h = ground arith

-- the bucket in which a request of `k` is counted
next_bucket : RateLimiter → String → Instant → RateBucket
next_bucket l k now =
    let opened = open_bucket now ((collect l now).buckets k) in
    record opened { count = opened.count + 1 }

next_bucket-IsOpen :
    (l : RateLimiter) (k : String) (c : ℕ) (now end : Instant)
    → zero_time < now
    → now < end
    → end ≤ now + minute
    → Counts l k c now end
    → IsOpen (next_bucket l k now) (c + 1) end
unfolding next_bucket
next_bucket-IsOpen l k c now end pos lt win (inl (none_yet, spent)) =
    rw (open_bucket_spent ((collect l now).buckets k) now (collect-IsSpent l k now spent))
      (record { counted = omega arith; started = omega arith; lasts = win })
next_bucket-IsOpen l k c now end pos lt win (inr is_open) =
    let collected = collect-IsOpen l k now c end lt is_open in
    rw (open_bucket_open ((collect l now).buckets k) c now end lt collected) (record {
      counted = omega (arith, collected.counted);
      started = collected.started;
      lasts = collected.lasts;
    })

str_eq_refl : (k : String) → str_eq k k ≡ true
str_eq_refl k = (eq_iff k k).1 refl

request_own :
    (l : RateLimiter) (k : String) (now : Instant)
    → ((request l k now).0.buckets k ≡ next_bucket l k now)
      × ((request l k now).1 ≡ ltb l.limit (next_bucket l k now).count)
unfolding request next_bucket
request_own l k now = (simp (str_eq_refl k), rw (collect-limit l k now) refl)

request_other :
    (l : RateLimiter) (k key : String) (now : Instant)
    → str_eq k key ≡ false
    → (request l key now).0.buckets k ≡ (collect l now).buckets k
unfolding request
request_other l k key now h = simp h

request-limit :
    (l : RateLimiter) (key : String) (now : Instant) → (request l key now).0.limit ≡ l.limit
unfolding request
request-limit l key now = collect-limit l key now

Counts-other :
    (l : RateLimiter) (k key : String) (c : ℕ) (now end : Instant)
    → now < end
    → str_eq k key ≡ false
    → Counts l k c now end
    → Counts (request l key now).0 k c now end
Counts-other l k key c now end lt h (inl (none_yet, spent)) =
    rw (request_other l k key now h) (inl (none_yet, collect-IsSpent l k now spent))
Counts-other l k key c now end lt h (inr is_open) =
    rw (request_other l k key now h) (inr (collect-IsOpen l k now c end lt is_open))

Counts-later :
    (l : RateLimiter) (k : String) (c : ℕ) (now later end : Instant)
    → now ≤ later
    → Counts l k c now end
    → Counts l k c later end
Counts-later l k c now later end le (inl (none_yet, inl z)) = inl (none_yet, inl z)
Counts-later l k c now later end le (inl (none_yet, inr s)) = inl (none_yet, inr (omega arith))
Counts-later l k c now later end le (inr is_open) = inr is_open

-- The requests come in order, from `now` on and before `end`.
abbrev pub IsWithin : Instant → Instant → List (String × Instant) → Type 0
IsWithin now end [] = Unit
IsWithin now end ((key, t) ∷ requests) = (now ≤ t) × (t < end) × IsWithin t end requests

admitted-cons :
    (k : String) (l : RateLimiter) (key : String) (t : Instant) (requests : List (String × Instant))
    → admitted k l ((key, t) ∷ requests) ≡ (
        let rest = admitted k (request l key t).0 requests in
        if str_eq k key then (if (request l key t).1 then rest else rest + 1) else rest)
unfolding admitted
admitted-cons k l key t requests = refl

-- One request under the key itself: it is admitted while the count is below the limit.
verdict_own :
    (l : RateLimiter) (k : String) (c : ℕ) (t end : Instant) (n : ℕ)
    → IsOpen (next_bucket l k t) (c + 1) end
    → (if (request l k t).1 then min (l.limit - (c + 1)) n else min (l.limit - (c + 1)) n + 1)
      ≡ min (l.limit - c) (n + 1)
verdict_own l k c t end n counted =
    rw ((request_own l k t).1, counted.counted)
      (elim (Bool-cases (ltb l.limit (c + 1))) [
        | inl e ↦ rw e (let over : l.limit < c + 1 = ground arith in omega arith)
        | inr e ↦ rw e (let under : c + 1 ≤ l.limit = ground arith in omega arith)
      ])

admitted-Counts :
    (k : String) (l : RateLimiter) (c : ℕ) (now end : Instant) (requests : List (String × Instant))
    → zero_time < now
    → end ≤ now + minute
    → IsWithin now end requests
    → Counts l k c now end
    → admitted k l requests ≡ min (l.limit - c) (demand k requests)
admitted-Counts k l c now end [] pos win order h = unfold admitted in omega arith
admitted-Counts k l c now end ((key, t) ∷ requests) pos win (le, lt, order) h =
    let still = Counts-later l k c now t end le h in
    elim (Bool-cases (str_eq k key)) [
      | inr other ↦
          let ih =
            admitted-Counts k (request l key t).0 c t end requests (omega arith) (omega arith) order
              (Counts-other l k key c t end lt other still) in
          admitted-cons k l key t requests
          ∙ simp other (ih ∙ ap (λ n. min (n - c) (demand k requests)) (request-limit l key t))
      | inl own ↦
          let same : k ≡ key = (eq_iff k key).0 own in
          let counted = next_bucket-IsOpen l k c t end (omega arith) lt (omega arith) still in
          let ih =
            admitted-Counts k (request l k t).0 (c + 1) t end requests (omega arith) (omega arith)
              order (inr (rw (request_own l k t).0 counted)) in
          admitted-cons k l key t requests
          ∙ rw (← same, str_eq_refl k, ih, request-limit l k t)
              (verdict_own l k c t end (demand k requests) counted)
    ]

-- From a fresh limiter, of the requests within one minute exactly as many under a key are admitted
-- as the limit allows: none of them is lost to other clients, to the collection of old buckets, or
-- to a limit below one.
pub quota :
    (k : String) (limit : ℕ) (now : Instant) (requests : List (String × Instant))
    → zero_time < now
    → IsWithin now (now + minute) requests
    → admitted k (new_rate_limiter limit) requests
      ≡ min (if ltb limit 1 then 1 else limit) (demand k requests)
unfolding new_rate_limiter
quota k limit now requests pos order =
    admitted-Counts k (new_rate_limiter limit) 0 now (now + minute) requests pos (omega arith) order
      (inl (refl, inl refl))
    ∙ ap (λ n. min n (demand k requests)) (omega arith)
