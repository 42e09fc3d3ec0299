-- ===== src/RateLimit/Laws.antt =====
-- What the limiter keeps and what its answers promise.
use romarr.Base.{
  ℕ, ◌≤◌, ◌≡◌, ◌≢◌, ap, refl, false, List, [], ◌∷◌, ◌++◌, inl, inr, Bool-cases, Option-cases,
  length, length-append, All, keep-All, leb, arith,
}
use romarr.Base.Text.{Text}
use romarr.Base.Dict.{lookup, insert, insert-All, lookup-All, lookup-insert}
use romarr.RateLimit.{
  RateLimiter, RateLimitKey, limit_key, window, new_rate_limiter, cleanup, limit_of, prune,
  bucket_of, wait_of, judge, check, rule_for_path,
}

pub prune-length : (w now : ℕ) (ts : List ℕ) → length (prune w now ts) ≤ length ts
unfolding prune
prune-length w now [] = omega arith
prune-length w now (t ∷ ts) = ground (arith, prune-length w now ts)

-- A bucket holds no more timestamps than its rule admits.
abbrev pub Fits : List (Text × ℕ) → RateLimitKey → List ℕ → Type 0
Fits rules k ts = length ts ≤ limit_of rules k.rule

abbrev pub IsBounded : RateLimiter → Type 0
IsBounded rl = All (λ e. Fits rl.rules e.0 e.1) rl.buckets

room :
    (limit : ℕ) (ts : List ℕ) (now : ℕ)
    → leb limit (length ts) ≡ false
    → length (ts ++ now ∷ []) ≤ limit
room limit ts now h = ground (arith, length-append ts (now ∷ []))

judge-length :
    (rl : RateLimiter) (now : ℕ) (rule : Text) (ts : List ℕ)
    → length ts ≤ limit_of rl.rules rule
    → length (judge rl now rule ts).1 ≤ limit_of rl.rules rule
unfolding judge
judge-length rl now rule ts h = elim (Bool-cases (leb (limit_of rl.rules rule) (length ts))) [
  | inl e ↦ rw e h
  | inr e ↦ rw e (room (limit_of rl.rules rule) ts now e)
]

pub bucket_of-Fits :
    (k : RateLimitKey) (rl : RateLimiter) → IsBounded rl → Fits rl.rules k (bucket_of k rl)
unfolding bucket_of
bucket_of-Fits k rl h = elim (Option-cases (lookup k rl.buckets)) [
  | inl e ↦ rw e (omega arith)
  | inr (ts, e) ↦ rw e (lookup-All (Fits rl.rules) k rl.buckets h e)
]

pub check-IsBounded :
    (now : ℕ) (identity path : Text) (rl : RateLimiter)
    → IsBounded rl
    → IsBounded (check now identity path rl).1
unfolding check
check-IsBounded now identity path rl h =
    let k : RateLimitKey = record { rule = rule_for_path path; identity = identity } in
    let ts = prune (window rl) now (bucket_of k rl) in
    insert-All (Fits rl.rules) k (judge rl now k.rule ts).1 rl.buckets
      (judge-length rl now k.rule ts
        (omega (arith, prune-length (window rl) now (bucket_of k rl), bucket_of-Fits k rl h)))
      h

cleanup-IsBounded : (now : ℕ) (rl : RateLimiter) → IsBounded rl → IsBounded (cleanup now rl)
unfolding cleanup
cleanup-IsBounded now rl h = keep-All _ _ rl.buckets h

-- What reaches the limiter: a request, or the cleaning goroutine's tick.
pub data Event : Type 0 where
  request : ℕ → Text → Text → Event
  tick : ℕ → Event

unfoldable pub step : Event → RateLimiter → RateLimiter
step (request now identity path) rl = (check now identity path rl).1
step (tick now) rl = cleanup now rl

unfoldable pub run : List Event → RateLimiter → RateLimiter
unfolding step
run [] rl = rl
run (e ∷ es) rl = run es (step e rl)

run_from-IsBounded : (es : List Event) (rl : RateLimiter) → IsBounded rl → IsBounded (run es rl)
unfolding run
run_from-IsBounded [] rl h = h
run_from-IsBounded (request now identity path ∷ es) rl h =
    run_from-IsBounded es (check now identity path rl).1 (check-IsBounded now identity path rl h)
run_from-IsBounded (tick now ∷ es) rl h =
    run_from-IsBounded es (cleanup now rl) (cleanup-IsBounded now rl h)

-- From a new limiter on, whatever requests and ticks come, every bucket holds at most as many
-- admitted requests as its rule allows in a window.
pub run-IsBounded :
    (window_sec : ℕ) (rules : List (Text × ℕ)) (es : List Event)
    → IsBounded (run es (new_rate_limiter window_sec rules))
unfolding new_rate_limiter
run-IsBounded window_sec rules es = run_from-IsBounded es (new_rate_limiter window_sec rules) tt

pub bucket_of-insert :
    (k : RateLimitKey) (ts : List ℕ) (rl : RateLimiter)
    → bucket_of k (record rl { buckets = insert k ts rl.buckets }) ≡ ts
unfolding bucket_of
bucket_of-insert k ts rl = rw (lookup-insert k k ts rl.buckets, (limit_key.beq_iff k k).1 refl) refl

-- What one client is told does not depend on the requests of another.
pub check-other :
    (now later : ℕ) (one other path path' : Text) (rl : RateLimiter)
    → one ≢ other
    → (check later other path' (check now one path rl).1).0 ≡ (check later other path' rl).0
unfolding check bucket_of judge wait_of
check-other now later one other path path' rl differ =
    let k : RateLimitKey = record { rule = rule_for_path path; identity = one } in
    let j : RateLimitKey = record { rule = rule_for_path path'; identity = other } in
    let ts = (judge rl now k.rule (prune (window rl) now (bucket_of k rl))).1 in
    let apart : limit_key.beq k j ≡ false = elim (Bool-cases (limit_key.beq k j)) [
      | inl e ↦ absurd (differ (ap (λ i. i.identity) ((limit_key.beq_iff k j).0 e)))
      | inr e ↦ e
    ] in
    rw (lookup-insert k j ts rl.buckets, apart) refl
