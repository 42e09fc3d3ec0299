-- ===== src/RateLimit/Window.antt =====
-- The sliding window: how many requests a client gets through.
use romarr.Base.{
  ℕ, ◌+◌, ◌*◌, ◌≤◌, ◌≡◌, refl, sym, subst, ◌∙◌, Bool, true, false, not, ◌&&◌, List, [], ◌∷◌, inl,
  inr, Bool-cases, length, tally, tally-append, All, ltb, leb, arith, if◌then◌else◌,
}
use romarr.Base.Text.{Text}
use romarr.Base.Dict.{insert, lookup-insert}
use romarr.RateLimit.{
  RateLimiter, RateLimitKey, limit_key, key_eq, window, new_rate_limiter, limit_of, prune,
  bucket_of, judge, check, rule_for_path,
}
use romarr.RateLimit.Laws.{IsBounded, bucket_of-Fits, bucket_of-insert, check-IsBounded}

pub record Request : Type 0 where
  pub time : ℕ
  pub identity : Text
  pub path : Text

abbrev pub key_of : Request → RateLimitKey
key_of r = record { rule = rule_for_path r.path; identity = r.identity }

-- A timestamp that is in the window at a time.
abbrev pub in_window : ℕ → ℕ → ℕ → Bool
in_window w later t = not (ltb (t + w) later)

unfoldable pub serve : List Request → RateLimiter → RateLimiter
serve [] rl = rl
serve (r ∷ rs) rl = serve rs (check r.time r.identity r.path rl).1

-- When the requests of one key were let through.
unfoldable pub admitted : RateLimitKey → List Request → RateLimiter → List ℕ
admitted k [] rl = []
admitted k (r ∷ rs) rl =
    let answer = check r.time r.identity r.path rl in
    let rest = admitted k rs answer.1 in
    if key_eq (key_of r) k && answer.0.allowed then r.time ∷ rest else rest

none_admitted :
    (k : RateLimitKey) (rl : RateLimiter) (p : ℕ → Bool) → tally p (admitted k [] rl) ≡ 0
unfolding admitted tally
none_admitted k rl p = refl

prune-tally :
    (w now later : ℕ) (ts : List ℕ)
    → now ≤ later
    → tally (in_window w later) (prune w now ts) ≡ tally (in_window w later) ts
unfolding prune tally
prune-tally w now later [] h = refl
prune-tally w now later (t ∷ ts) h = elim (Bool-cases (ltb (t + w) now)) [
  | inl e ↦ rw (e, gone t w now later e h) (prune-tally w now later ts h)
  | inr e ↦ rw e refl
]
  where
    gone : (t w now later : ℕ) → ltb (t + w) now ≡ true → now ≤ later → ltb (t + w) later ≡ true
    gone t w now later e h = ground arith

judge-tally :
    (rl : RateLimiter) (p : ℕ → Bool) (now : ℕ) (rule : Text) (ts : List ℕ)
    → tally p (judge rl now rule ts).1
      ≡ tally p ts + (if (judge rl now rule ts).0.allowed then tally p (now ∷ []) else 0)
unfolding judge
judge-tally rl p now rule ts = elim (Bool-cases (leb (limit_of rl.rules rule) (length ts))) [
  | inl e ↦ rw e (omega arith)
  | inr e ↦ rw e (tally-append p ts (now ∷ []))
]

bucket_of-insert_other :
    (k j : RateLimitKey) (ts : List ℕ) (rl : RateLimiter)
    → key_eq j k ≡ false
    → bucket_of k (record rl { buckets = insert j ts rl.buckets }) ≡ bucket_of k rl
unfolding bucket_of
bucket_of-insert_other k j ts rl h = rw (lookup-insert j k ts rl.buckets, h) refl

-- A request adds itself to its own bucket if it is let through, and to no other bucket.
check_own-tally :
    (rl : RateLimiter) (later : ℕ) (r : Request)
    → r.time ≤ later
    → tally
        (in_window (window rl) later)
        (bucket_of (key_of r) (check r.time r.identity r.path rl).1)
      ≡ tally (in_window (window rl) later) (bucket_of (key_of r) rl)
        + (if (check r.time r.identity r.path rl).0.allowed
            then tally (in_window (window rl) later) (r.time ∷ [])
            else 0)
unfolding check
check_own-tally rl later r h =
    let k = key_of r in
    let p = in_window (window rl) later in
    let ts = prune (window rl) r.time (bucket_of k rl) in
    rw (bucket_of-insert k (judge rl r.time k.rule ts).1 rl) (
      rw⁻¹ (prune-tally (window rl) r.time later (bucket_of k rl) h)
        (judge-tally rl p r.time k.rule ts))

check_other-tally :
    (rl : RateLimiter) (k : RateLimitKey) (r : Request)
    → key_eq (key_of r) k ≡ false
    → bucket_of k (check r.time r.identity r.path rl).1 ≡ bucket_of k rl
unfolding check
check_other-tally rl k r h = bucket_of-insert_other k (key_of r) _ rl h

check-tally :
    (rl : RateLimiter) (later : ℕ) (k : RateLimitKey) (r : Request)
    → r.time ≤ later
    → tally (in_window (window rl) later) (bucket_of k (check r.time r.identity r.path rl).1)
      ≡ tally (in_window (window rl) later) (bucket_of k rl)
        + (if key_eq (key_of r) k && (check r.time r.identity r.path rl).0.allowed
            then tally (in_window (window rl) later) (r.time ∷ [])
            else 0)
check-tally rl later k r h = elim (Bool-cases (key_eq (key_of r) k)) [
  | inl e ↦ rw (e, sym ((limit_key.beq_iff (key_of r) k).0 e)) (check_own-tally rl later r h)
  | inr e ↦ rw (e, check_other-tally rl k r e) (omega arith)
]

admitted-tally :
    (k : RateLimitKey) (r : Request) (rs : List Request) (rl : RateLimiter) (p : ℕ → Bool)
    → tally p (admitted k (r ∷ rs) rl)
      ≡ (if key_eq (key_of r) k && (check r.time r.identity r.path rl).0.allowed
          then tally p (r.time ∷ [])
          else 0)
        + tally p (admitted k rs (check r.time r.identity r.path rl).1)
unfolding admitted
admitted-tally k r rs rl p =
    elim (Bool-cases (key_eq (key_of r) k && (check r.time r.identity r.path rl).0.allowed)) [
      | inl e ↦
          rw e (tally-append p (r.time ∷ []) (admitted k rs (check r.time r.identity r.path rl).1))
      | inr e ↦ rw e (omega arith)
    ]

check-window :
    (r : Request) (rl : RateLimiter) → window (check r.time r.identity r.path rl).1 ≡ window rl
unfolding check
check-window r rl = refl

-- What the bucket of a key holds of a later window is what was let through in it.
serve-tally :
    (rs : List Request) (rl : RateLimiter) (w later : ℕ) (k : RateLimitKey)
    → window rl ≡ w
    → All (λ r. r.time ≤ later) rs
    → tally (in_window w later) (bucket_of k (serve rs rl))
      ≡ tally (in_window w later) (bucket_of k rl) + tally (in_window w later) (admitted k rs rl)
unfolding serve
serve-tally [] rl w later k same h = omega (arith, none_admitted k rl (in_window w later))
serve-tally (r ∷ rs) rl w later k same h =
    let next = (check r.time r.identity r.path rl).1 in
    omega (
      arith,
      serve-tally rs next w later k (check-window r rl ∙ same) h.1,
      admitted-tally k r rs rl (in_window w later),
      subst
          (λ v.
            tally (in_window v later) (bucket_of k next)
            ≡ tally (in_window v later) (bucket_of k rl)
              + (if key_eq (key_of r) k && (check r.time r.identity r.path rl).0.allowed
                  then tally (in_window v later) (r.time ∷ [])
                  else 0))
          same (check-tally rl later k r h.0),
    )

serve-IsBounded : (rs : List Request) (rl : RateLimiter) → IsBounded rl → IsBounded (serve rs rl)
unfolding serve
serve-IsBounded [] rl h = h
serve-IsBounded (r ∷ rs) rl h =
    serve-IsBounded rs (check r.time r.identity r.path rl).1
      (check-IsBounded r.time r.identity r.path rl h)

serve-rules : (rs : List Request) (rl : RateLimiter) → (serve rs rl).rules ≡ rl.rules
unfolding serve check
serve-rules [] rl = refl
serve-rules (r ∷ rs) rl = serve-rules rs (check r.time r.identity r.path rl).1

tally≤length : (p : ℕ → Bool) (ts : List ℕ) → tally p ts ≤ length ts
unfolding tally
tally≤length p [] = omega arith
tally≤length p (t ∷ ts) = ground (arith, tally≤length p ts)

-- Whatever clients send to a new limiter, with no tick in between: at a time that no request comes
-- after, the requests of one client under one rule that were let through and are in the window
-- are no more than the rule's limit.
pub admitted-limit :
    (window_sec : ℕ) (rules : List (Text × ℕ)) (rs : List Request) (later : ℕ) (k : RateLimitKey)
    → All (λ r. r.time ≤ later) rs
    → tally
        (in_window (window_sec * 1000000000) later)
        (admitted k rs (new_rate_limiter window_sec rules))
      ≤ limit_of rules k.rule
unfolding new_rate_limiter
admitted-limit window_sec rules rs later k h =
    let rl = new_rate_limiter window_sec rules in
    let end = serve rs rl in
    let p = in_window (window_sec * 1000000000) later in
    let fits : length (bucket_of k end) ≤ limit_of rules k.rule =
      subst (λ rules. length (bucket_of k end) ≤ limit_of rules k.rule) (serve-rules rs rl)
        (bucket_of-Fits k end (serve-IsBounded rs rl tt)) in
    omega (
      arith,
      fits,
      tally≤length p (bucket_of k end),
      serve-tally rs rl (window_sec * 1000000000) later k refl h,
    )
