-- ===== src/Health/Bounds.antt =====
-- What holds of every source's record whatever happens.
use romarr.Base.{
  ℕ, zero, suc, ◌+◌, ◌≤◌, ◌<◌, ◌≡◌, List, [], ◌∷◌, arith, Bool-cases, Option-cases, All, inl, inr,
  length, ltb,
}
use romarr.Base.Int.{ℤ, pos, negsuc, ◌≤ℤ◌}
use romarr.Base.Text.{Text}
use romarr.Base.Dict.{lookup, insert, insert-All, lookup-All, text_key}
use romarr.Health.{
  Health, SourceHealth, take, raise_score, lower_score, new_health, initial, init_health_config,
  get_or_create_health, search_success, search_failure, download_success, download_failure, clip,
  record_search_success, record_search_fail, record_download_success, record_download_fail,
  reset_circuit,
}
use romarr.Health.Trace.{
  Event, configure, search_ok, search_bad, download_ok, download_bad, reset, step, run,
}

-- A record's score stays within 0..100 and its error text within 400 bytes; a streak of failures
-- is part of the failures counted; and only failures set the last error.
pub record IsSane (h : SourceHealth) : Type 0 where
  pub score_floored : pos 0 ≤ℤ h.score
  pub score_capped : h.score ≤ℤ pos 100
  pub error_clipped : length h.last_error ≤ 400
  pub search_streak_counted : h.search_fail_streak ≤ h.search_fail
  pub download_streak_counted : h.download_fail_streak ≤ h.download_fail
  pub error_caused : h.search_fail + h.download_fail ≡ 0 → h.last_error_kind ≡ []

pub record AllSane (s : Health) : Type 0 where
  pub threshold_positive : 0 < s.circuit_threshold
  pub retry_positive : 0 < s.circuit_retry_sec
  pub each : All (λ (p : Text × SourceHealth). IsSane p.1) s.store

length-take-le : (n : ℕ) (s : Text) → length (take n s) ≤ n
length-take-le zero s = omega arith
length-take-le (suc n) [] = omega arith
length-take-le (suc n) (c ∷ s) = omega (arith, length-take-le n s)

length-clip-le : (msg : Text) → length (clip msg) ≤ 400
length-clip-le msg = elim (Bool-cases (ltb 400 (length msg))) [
  | inl e ↦ rw e (length-take-le 400 msg)
  | inr e ↦ rw e (ground arith)
]

new_health-IsSane : (n : Text) → IsSane (new_health n)
new_health-IsSane n = ground arith

get_or_create_health-IsSane :
    (n : Text) (s : Health) → AllSane s → IsSane (get_or_create_health n s)
unfolding get_or_create_health
get_or_create_health-IsSane n s v = elim (Option-cases (lookup n s.store)) [
  | inl e ↦ rw e (new_health-IsSane n)
  | inr (h, e) ↦ rw e (lookup-All (λ _. IsSane) n s.store v.each e)
]

raise_score-bounds :
    (score : ℤ)
    → pos 0 ≤ℤ score
    → score ≤ℤ pos 100
    → (pos 0 ≤ℤ raise_score score) × (raise_score score ≤ℤ pos 100)
raise_score-bounds (pos n) l u = ground arith
raise_score-bounds (negsuc n) l u = absurd (omega arith)

lower_score-bounds :
    (score : ℤ)
    → pos 0 ≤ℤ score
    → score ≤ℤ pos 100
    → (pos 0 ≤ℤ lower_score score) × (lower_score score ≤ℤ pos 100)
lower_score-bounds (pos n) l u = ground arith
lower_score-bounds (negsuc n) l u = absurd (omega arith)

search_success-IsSane : (now : ℕ) (h : SourceHealth) → IsSane h → IsSane (search_success now h)
unfolding search_success
search_success-IsSane now h v = record {
  score_floored = (raise_score-bounds h.score v.score_floored v.score_capped).0;
  score_capped = (raise_score-bounds h.score v.score_floored v.score_capped).1;
  error_clipped = v.error_clipped;
  search_streak_counted = omega (arith, v.search_streak_counted);
  download_streak_counted = omega (arith, v.download_streak_counted);
  error_caused = λ e. v.error_caused (omega arith);
}

search_failure-IsSane :
    (threshold retry now : ℕ) (msg : Text) (h : SourceHealth)
    → IsSane h
    → IsSane (search_failure threshold retry now msg h)
unfolding search_failure
search_failure-IsSane threshold retry now msg h v = record {
  score_floored = (lower_score-bounds h.score v.score_floored v.score_capped).0;
  score_capped = (lower_score-bounds h.score v.score_floored v.score_capped).1;
  error_clipped = length-clip-le msg;
  search_streak_counted = omega (arith, v.search_streak_counted);
  download_streak_counted = v.download_streak_counted;
  error_caused = λ e. absurd (omega arith);
}

download_success-IsSane : (now : ℕ) (h : SourceHealth) → IsSane h → IsSane (download_success now h)
unfolding download_success
download_success-IsSane now h v = record {
  score_floored = (raise_score-bounds h.score v.score_floored v.score_capped).0;
  score_capped = (raise_score-bounds h.score v.score_floored v.score_capped).1;
  error_clipped = v.error_clipped;
  search_streak_counted = omega (arith, v.search_streak_counted);
  download_streak_counted = omega (arith, v.download_streak_counted);
  error_caused = λ e. v.error_caused (omega arith);
}

download_failure-IsSane :
    (now : ℕ) (msg : Text) (h : SourceHealth) → IsSane h → IsSane (download_failure now msg h)
unfolding download_failure
download_failure-IsSane now msg h v = record {
  score_floored = (lower_score-bounds h.score v.score_floored v.score_capped).0;
  score_capped = (lower_score-bounds h.score v.score_floored v.score_capped).1;
  error_clipped = length-clip-le msg;
  search_streak_counted = v.search_streak_counted;
  download_streak_counted = omega (arith, v.download_streak_counted);
  error_caused = λ e. absurd (omega arith);
}

put-AllSane :
    (n : Text) (h : SourceHealth) (s : Health)
    → AllSane s
    → IsSane h
    → AllSane (record s { store = insert n h s.store })
put-AllSane n h s v w = record {
  threshold_positive = v.threshold_positive;
  retry_positive = v.retry_positive;
  each = insert-All (λ _. IsSane) n h s.store w v.each;
}

step-AllSane : (e : Event) (s : Health) → AllSane s → AllSane (step e s)
unfolding step init_health_config record_search_success record_search_fail record_download_success
    record_download_fail reset_circuit
step-AllSane (configure threshold timeout_sec) s v = record {
  threshold_positive = ground (arith, v.threshold_positive);
  retry_positive = ground (arith, v.retry_positive);
  each = v.each;
}
step-AllSane (search_ok now n) s v =
    put-AllSane n _ s v (search_success-IsSane now _ (get_or_create_health-IsSane n s v))
step-AllSane (search_bad now n msg) s v =
    put-AllSane n _ s v (search_failure-IsSane _ _ now msg _ (get_or_create_health-IsSane n s v))
step-AllSane (download_ok now n) s v =
    put-AllSane n _ s v (download_success-IsSane now _ (get_or_create_health-IsSane n s v))
step-AllSane (download_bad now n msg) s v =
    put-AllSane n _ s v (download_failure-IsSane now msg _ (get_or_create_health-IsSane n s v))
step-AllSane (reset n) s v = elim (Option-cases (lookup n s.store)) [
  | inl e ↦ rw (e, step) v
  | inr (h, e) ↦
      let w : IsSane h = lookup-All (λ _. IsSane) n s.store v.each e in
      rw (e, step)
        (put-AllSane n _ s v (record {
          score_floored = omega arith;
          score_capped = omega arith;
          error_clipped = w.error_clipped;
          search_streak_counted = omega arith;
          download_streak_counted = w.download_streak_counted;
          error_caused = w.error_caused;
        }))
]

run-AllSane_from : (es : List Event) (s : Health) → AllSane s → AllSane (run es s)
unfolding run
run-AllSane_from [] s v = v
run-AllSane_from (e ∷ es) s v = run-AllSane_from es (step e s) (step-AllSane e s v)

-- After any sequence of operations from the package's initial state, the breaker's threshold and
-- retry time are positive, and every source's record has a score from 0 to 100, an error text of
-- at most 400 bytes, streaks within the failures counted, and no error kind without a failure.
pub run-AllSane : (es : List Event) → AllSane (run es initial)
run-AllSane es =
    run-AllSane_from es initial
      (record { threshold_positive = omega arith; retry_positive = omega arith; each = tt })
