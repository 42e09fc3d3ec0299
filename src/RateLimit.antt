-- ===== src/RateLimit.antt =====
-- internal/api/ratelimit.go: a sliding-window limiter with a rule for each kind of route.
-- Times are nanoseconds since a fixed origin; `Before(cutoff)` is `time + window < now`.
pub mod Laws
pub mod Retry
pub mod Window
pub mod Tests
use romarr.Base.{
  ℕ, ◌+◌, ◌-◌, ◌*◌, ◌/◌, ◌≡◌, ◌↔◌, ◌∙◌, ap, Bool, true, false, Option, none, some, List, [], ◌∷◌,
  ◌==◌, ltb, leb, if◌then◌else◌, length, keep, not, max, ◌&&◌, ◌||◌, arith, ◌++◌,
}
use romarr.Base.Text.{
  Text, codes, text_eq, text_eq_iff, is_empty, trim_space, split_commas, has_prefix,
}
use romarr.Base.Dict.{Eq, lookup, insert, text_key}

pub record RateLimitKey : Type 0 where
  pub rule : Text
  pub identity : Text

abbrev pub key_eq : RateLimitKey → RateLimitKey → Bool
key_eq a b = text_eq a.rule b.rule && text_eq a.identity b.identity

pub both_eq : (r s i j : Text) → ((text_eq r s && text_eq i j) ≡ true) ↔ ((r ≡ s) × (i ≡ j))
both_eq r s i j = ground (arith, text_eq_iff r s, text_eq_iff i j)

pub key_path : (a b : RateLimitKey) → a.rule ≡ b.rule → a.identity ≡ b.identity → a ≡ b
key_path a b r i =
    ap (λ s. record { rule = s; identity = a.identity }) r
    ∙ ap (λ s. record { rule = b.rule; identity = s }) i

instance abbrev pub limit_key : Eq RateLimitKey
limit_key = record {
  beq = key_eq;
  beq_iff = λ a b. (
    (λ h. let (r, i) = (both_eq a.rule b.rule a.identity b.identity).0 h in key_path a b r i),
    (λ h.
        (both_eq a.rule b.rule a.identity b.identity).1
          (ap (λ k. k.rule) h, ap (λ k. k.identity) h)),
  );
}

pub record RateLimiter : Type 0 where
  pub window_sec : ℕ
  pub rules : List (Text × ℕ)
  pub buckets : List (RateLimitKey × List ℕ)

-- `NewRateLimiter`, without the goroutine that calls `cleanup` from time to time.
unfoldable pub new_rate_limiter : ℕ → List (Text × ℕ) → RateLimiter
new_rate_limiter window_sec rules = record { window_sec = window_sec; rules = rules; buckets = [] }

abbrev pub window : RateLimiter → ℕ
window rl = rl.window_sec * 1000000000

-- `bucket.timestamps[len-1].Before(cutoff)`, and true of no timestamps.
unfoldable pub is_stale : ℕ → ℕ → List ℕ → Bool
is_stale w now [] = true
is_stale w now (t ∷ []) = ltb (t + w) now
is_stale w now (t ∷ u ∷ ts) = is_stale w now (u ∷ ts)

unfoldable pub cleanup : ℕ → RateLimiter → RateLimiter
unfolding is_stale
cleanup now rl = record rl { buckets = keep (λ e. not (is_stale (window rl) now e.1)) rl.buckets }

unfoldable pub rule_for_path : Text → Text
rule_for_path path =
    if text_eq path (codes "/api/login")
    then codes "login"
    else if has_prefix path (codes "/api/search")
    then codes "search"
    else if has_prefix path (codes "/api/download")
    then codes "download"
    else if has_prefix path (codes "/api/art/")
    then codes "art"
    else if has_prefix path (codes "/api/")
    then codes "api"
    else codes "default"

abbrev or_zero : Option ℕ → ℕ
or_zero none = 0
or_zero (some n) = n

-- A missing or zero rule falls back to the default rule, and that to 600.
unfoldable pub limit_of : List (Text × ℕ) → Text → ℕ
limit_of rules rule =
    let own = or_zero (lookup rule rules) in
    let fallback = or_zero (lookup (codes "default") rules) in
    if own == 0 then (if fallback == 0 then 600 else fallback) else own

-- The timestamps from the first that is not before the cutoff.
unfoldable pub prune : ℕ → ℕ → List ℕ → List ℕ
prune w now [] = []
prune w now (t ∷ ts) = let rest = prune w now ts in if ltb (t + w) now then rest else t ∷ ts

pub record Verdict : Type 0 where
  pub allowed : Bool
  pub retry_after : ℕ
  pub rule : Text
  pub limit : ℕ

abbrev pub or_empty : Option (List ℕ) → List ℕ
or_empty none = []
or_empty (some ts) = ts

unfoldable pub bucket_of : RateLimitKey → RateLimiter → List ℕ
bucket_of k rl = or_empty (lookup k rl.buckets)

-- Seconds until the oldest request leaves the window, at least one; the window without requests.
unfoldable pub wait_of : RateLimiter → ℕ → List ℕ → ℕ
wait_of rl now [] = rl.window_sec
wait_of rl now (t ∷ ts) = max 1 ((t + window rl - now) / 1000000000)

-- The verdict on a pruned bucket, and the bucket after it.
unfoldable pub judge : RateLimiter → ℕ → Text → List ℕ → Verdict × List ℕ
unfolding wait_of
judge rl now rule ts =
    let limit = limit_of rl.rules rule in
    if leb limit (length ts)
    then (
      record { allowed = false; retry_after = wait_of rl now ts; rule = rule; limit = limit },
      ts,
    )
    else (record { allowed = true; retry_after = 0; rule = rule; limit = limit }, ts ++ now ∷ [])

unfoldable pub check : ℕ → Text → Text → RateLimiter → Verdict × RateLimiter
unfolding judge
check now identity path rl =
    let k : RateLimitKey = record { rule = rule_for_path path; identity = identity } in
    let answer = judge rl now k.rule (prune (window rl) now (bucket_of k rl)) in
    (answer.0, record rl { buckets = insert k answer.1 rl.buckets })

abbrev last_part : List Text → Text
last_part [] = []
last_part (s ∷ []) = s
last_part (s ∷ t ∷ parts) = last_part (t ∷ parts)

-- A client behind a proxy is known by the last hop of X-Forwarded-For.
unfoldable pub identity_of : Text → Text → Text
identity_of remote_addr forwarded_for =
    if is_empty forwarded_for
    then remote_addr
    else trim_space (last_part (split_commas forwarded_for))

abbrev exempt : Text → Bool
exempt path =
    text_eq path (codes "/api/health")
    || text_eq path (codes "/health")
    || text_eq path (codes "/metrics")
    || has_prefix path (codes "/static/")

-- Served, or turned away with a verdict; a nil limiter serves all.
unfoldable pub middleware :
    ℕ → Text → Text → Text → Option RateLimiter → Option Verdict × Option RateLimiter
middleware now remote_addr forwarded_for path none = (none, none)
middleware now remote_addr forwarded_for path (some rl) =
    let answer = check now (identity_of remote_addr forwarded_for) path rl in
    if exempt path
    then (none, some rl)
    else (if answer.0.allowed then none else some answer.0, some answer.1)
