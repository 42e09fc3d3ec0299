-- ===== src/RateLimit/Retry.antt =====
-- When a client that was turned away is served again.
use romarr.Base.{
  ℕ, ◌+◌, ◌-◌, ◌*◌, ◌/◌, ◌≤◌, ◌<◌, ◌≡◌, ◌≢◌, ◌⊎◌, ap, refl, sym, subst, true, false, not, List, [],
  ◌∷◌, inl, inr, Bool-cases, length, All, leb→le, lt→ltb, leb, ltb, max, arith,
}
use romarr.Base.Text.{Text}
use romarr.Base.Dict.{lookup-insert}
use romarr.Base.Keyed.{IsKeyed, insert-IsKeyed, keep-IsKeyed, lookup-keep}
use romarr.RateLimit.{
  RateLimiter, RateLimitKey, limit_key, window, new_rate_limiter, cleanup, is_stale, limit_of,
  prune, bucket_of, or_empty, wait_of, judge, check, rule_for_path,
}
use romarr.RateLimit.Laws.{
  prune-length, bucket_of-Fits, bucket_of-insert, IsBounded, Event, request, tick, step, run,
  run-IsBounded,
}

limit_of-pos : (rules : List (Text × ℕ)) (rule : Text) → 1 ≤ limit_of rules rule
unfolding limit_of
limit_of-pos rules rule = ground arith

judge-allowed :
    (rl : RateLimiter) (now : ℕ) (rule : Text) (ts : List ℕ)
    → length ts < limit_of rl.rules rule
    → (judge rl now rule ts).0.allowed ≡ true
unfolding judge
judge-allowed rl now rule ts h = rw (lt→not_leb (limit_of rl.rules rule) (length ts) h) refl
  where
    lt→not_leb : (a b : ℕ) → b < a → leb a b ≡ false
    lt→not_leb a b k = ground arith

judge-denied :
    (rl : RateLimiter) (now : ℕ) (rule : Text) (ts : List ℕ)
    → (judge rl now rule ts).0.allowed ≡ false
    → ((judge rl now rule ts).0.retry_after ≡ wait_of rl now ts)
      × ((judge rl now rule ts).1 ≡ ts)
      × (limit_of rl.rules rule ≤ length ts)
unfolding judge
judge-denied rl now rule ts h = elim (Bool-cases (leb (limit_of rl.rules rule) (length ts))) [
  | inl e ↦ rw e (refl, refl, leb→le _ _ e)
  | inr e ↦ absurd (true_false (rw e at h))
]
  where
    true_false : true ≡ false → ⊥
    true_false q = cc

-- A full bucket has room again once its oldest request is out of the window.
expired :
    (rl : RateLimiter) (limit now later : ℕ) (ts : List ℕ)
    → 1 ≤ limit
    → limit ≤ length ts
    → length ts ≤ limit
    → now + (wait_of rl now ts + 1) * 1000000000 ≤ later
    → length (prune (window rl) later ts) < limit
unfolding prune wait_of
expired rl limit now later [] p full fits h = omega arith
expired rl limit now later (t ∷ ts) p full fits h =
    rw (gone t (window rl) now later h) (omega (arith, prune-length (window rl) later ts))
  where
    gone :
        (t w now later : ℕ)
        → now + (max 1 ((t + w - now) / 1000000000) + 1) * 1000000000 ≤ later
        → ltb (t + w) later ≡ true
    gone t w now later h = lt→ltb (t + w) later (omega (arith, h))

step-IsKeyed : (e : Event) (rl : RateLimiter) → IsKeyed rl.buckets → IsKeyed (step e rl).buckets
unfolding step check cleanup
step-IsKeyed (request now identity path) rl h = insert-IsKeyed _ _ rl.buckets h
step-IsKeyed (tick now) rl h = keep-IsKeyed _ rl.buckets h

run-IsKeyed :
    (es : List Event) (rl : RateLimiter) → IsKeyed rl.buckets → IsKeyed (run es rl).buckets
unfolding run
run-IsKeyed [] rl h = h
run-IsKeyed (e ∷ es) rl h = run-IsKeyed es (step e rl) (step-IsKeyed e rl h)

-- A tick, or a request that is counted under another key: of another client or by another rule.
abbrev pub IsElsewhere : RateLimitKey → Event → Type 0
IsElsewhere k (request now identity path) = (identity ≢ k.identity) ⊎ (rule_for_path path ≢ k.rule)
IsElsewhere k (tick now) = Unit

elsewhere_apart :
    (k : RateLimitKey) (rule identity : Text)
    → (identity ≢ k.identity) ⊎ (rule ≢ k.rule)
    → limit_key.beq (record { rule = rule; identity = identity }) k ≡ false
elsewhere_apart k rule identity h =
    elim (Bool-cases (limit_key.beq (record { rule = rule; identity = identity }) k)) [
      | inr q ↦ q
      | inl q ↦
          let same = (limit_key.beq_iff (record { rule = rule; identity = identity }) k).0 q in
          absurd (elim h [
            | inl other ↦ other (ap (λ j. j.identity) same)
            | inr other ↦ other (ap (λ j. j.rule) same)
          ])
    ]

bucket_of-step :
    (k : RateLimitKey) (e : Event) (rl : RateLimiter)
    → IsKeyed rl.buckets
    → IsElsewhere k e
    → (bucket_of k (step e rl) ≡ bucket_of k rl) ⊎ (bucket_of k (step e rl) ≡ [])
unfolding bucket_of step check cleanup
bucket_of-step k (request now identity path) rl keyed h =
    inl
      (rw (lookup-insert _ k _ rl.buckets, elsewhere_apart k (rule_for_path path) identity h) refl)
bucket_of-step k (tick now) rl keyed h =
    elim (lookup-keep (λ e. not (is_stale (window rl) now e.1)) k rl.buckets keyed) [
      | inl q ↦ inl (ap or_empty q)
      | inr q ↦ inr (ap or_empty q)
    ]

-- At a later time there is room in the bucket of a key.
abbrev HasRoom : RateLimitKey → ℕ → RateLimiter → Type 0
HasRoom k later rl = length (prune (window rl) later (bucket_of k rl)) < limit_of rl.rules k.rule

step-settings :
    (e : Event) (rl : RateLimiter)
    → ((step e rl).window_sec ≡ rl.window_sec) × ((step e rl).rules ≡ rl.rules)
unfolding step check cleanup
step-settings (request now identity path) rl = (refl, refl)
step-settings (tick now) rl = (refl, refl)

step-HasRoom :
    (k : RateLimitKey) (later : ℕ) (e : Event) (rl : RateLimiter)
    → IsKeyed rl.buckets
    → IsElsewhere k e
    → HasRoom k later rl
    → HasRoom k later (step e rl)
step-HasRoom k later e rl keyed h room =
    let (same_window, same_rules) = step-settings e rl in
    elim (bucket_of-step k e rl keyed h) [
      | inl q ↦ rw (q, same_window, same_rules) room
      | inr q ↦ rw (q, same_window, same_rules) (empty (window rl))
    ]
  where
    empty : (w : ℕ) → length (prune w later []) < limit_of rl.rules k.rule
    empty w = omega (arith, prune-length w later [], limit_of-pos rl.rules k.rule)

run-HasRoom :
    (k : RateLimitKey) (later : ℕ) (es : List Event) (rl : RateLimiter)
    → IsKeyed rl.buckets
    → All (IsElsewhere k) es
    → HasRoom k later rl
    → HasRoom k later (run es rl)
unfolding run
run-HasRoom k later [] rl keyed h room = room
run-HasRoom k later (e ∷ es) rl keyed h room =
    run-HasRoom k later es (step e rl) (step-IsKeyed e rl keyed) h.1
      (step-HasRoom k later e rl keyed h.0 room)

denied-HasRoom :
    (now later : ℕ) (identity path : Text) (rl : RateLimiter)
    → IsBounded rl
    → (check now identity path rl).0.allowed ≡ false
    → now + ((check now identity path rl).0.retry_after + 1) * 1000000000 ≤ later
    → HasRoom
        (record { rule = rule_for_path path; identity = identity })
        later
        (check now identity path rl).1
unfolding check
denied-HasRoom now later identity path rl bounded denied wait =
    let k : RateLimitKey = record { rule = rule_for_path path; identity = identity } in
    let ts = prune (window rl) now (bucket_of k rl) in
    let (told, same, full) = judge-denied rl now k.rule ts denied in
    rw (bucket_of-insert k (judge rl now k.rule ts).1 rl, same)
      (expired rl (limit_of rl.rules k.rule) now later ts (limit_of-pos rl.rules k.rule) full
        (omega (arith, prune-length (window rl) now (bucket_of k rl), bucket_of-Fits k rl bounded))
        (rw told at wait))

served :
    (later : ℕ) (identity path : Text) (rl : RateLimiter)
    → HasRoom (record { rule = rule_for_path path; identity = identity }) later rl
    → (check later identity path rl).0.allowed ≡ true
unfolding check
served later identity path rl room = judge-allowed rl later (rule_for_path path) _ room

new_buckets-IsKeyed :
    (window_sec : ℕ) (rules : List (Text × ℕ)) → IsKeyed (new_rate_limiter window_sec rules).buckets
unfolding new_rate_limiter
new_buckets-IsKeyed window_sec rules = tt

check-IsKeyed :
    (now : ℕ) (identity path : Text) (rl : RateLimiter)
    → IsKeyed rl.buckets
    → IsKeyed (check now identity path rl).1.buckets
unfolding check
check-IsKeyed now identity path rl h = insert-IsKeyed _ _ rl.buckets h

-- From a new limiter on, whatever has come before: a client that was turned away by a rule, and that
-- sends nothing under this rule until one second more than the time it was told to wait is over, is
-- then served on every path of the rule, whatever others send in between, whatever it sends itself
-- under other rules, and whenever the limiter is cleaned.
pub check-retry :
    (window_sec : ℕ) (rules : List (Text × ℕ)) (before between : List Event) (now later : ℕ)
    (identity path path' : Text)
    → (check now identity path (run before (new_rate_limiter window_sec rules))).0.allowed ≡ false
    → All (IsElsewhere (record { rule = rule_for_path path; identity = identity })) between
    → now
        + ((check now identity path (run before (new_rate_limiter window_sec rules))).0.retry_after
            + 1)
          * 1000000000
      ≤ later
    → rule_for_path path' ≡ rule_for_path path
    → (check later identity path' (
        run between
          (check now identity path (run before (new_rate_limiter window_sec rules))).1)).0.allowed
      ≡ true
check-retry window_sec rules before between now later identity path path' denied quiet wait same =
    let k : RateLimitKey = record { rule = rule_for_path path; identity = identity } in
    let rl = run before (new_rate_limiter window_sec rules) in
    let keyed =
      run-IsKeyed before (new_rate_limiter window_sec rules)
        (new_buckets-IsKeyed window_sec rules) in
    let first = (check now identity path rl).1 in
    served later identity path' (run between first) (
      subst
        (λ rule. HasRoom (record { rule = rule; identity = identity }) later (run between first))
        (sym same)
        (run-HasRoom k later between first (check-IsKeyed now identity path rl keyed) quiet (
          denied-HasRoom now later identity path rl (run-IsBounded window_sec rules before) denied
            wait)))
