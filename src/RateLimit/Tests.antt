-- ===== src/RateLimit/Tests.antt =====
-- A limiter with two logins in a minute, and each theorem at a concrete input.
use romarr.Base.{
  tally, All, inl, inr, sym, ℕ, ◌+◌, ◌*◌, ◌≤◌, ◌≡◌, ◌≢◌, refl, true, false, List, [], ◌∷◌, arith,
}
use romarr.Base.Text.{Text, codes, has_prefix, text_eq_iff}
use romarr.Base.Dict.{lookup, insert}
use romarr.RateLimit.{
  RateLimiter, new_rate_limiter, check, prune, judge, limit_of, rule_for_path, bucket_of, wait_of,
}
use romarr.RateLimit.{RateLimitKey}
use romarr.RateLimit.Window.{Request, in_window, admitted, admitted-limit}
use romarr.RateLimit.Retry.{IsElsewhere, check-retry}
use romarr.RateLimit.Laws.{step, Event, request, tick, run, IsBounded, run-IsBounded, check-other}

abbrev rules : List (Text × ℕ)
rules = (codes "login", 2) ∷ []

abbrev second : ℕ
second = 1000000000

abbrev login : ℕ → Event
login t = request (t * second) (codes "eve") (codes "/api/login")

abbrev events : List Event
events = login 1 ∷ login 2 ∷ tick (3 * second) ∷ []

run-IsBounded_example : IsBounded (run events (new_rate_limiter 60 rules))
run-IsBounded_example = run-IsBounded 60 rules events

-- Both logins of a minute are spent.
abbrev spent : RateLimiter
spent = record {
  window_sec = 60;
  rules = rules;
  buckets =
      (record { rule = codes "login"; identity = codes "eve" }, second ∷ 2 * second ∷ []) ∷ [];
}

third_is_denied : (check (3 * second) (codes "eve") (codes "/api/login") spent).0.allowed ≡ false
unfolding check prune judge limit_of rule_for_path bucket_of lookup
third_is_denied = refl

third_waits : (check (3 * second) (codes "eve") (codes "/api/login") spent).0.retry_after ≡ 58
unfolding check prune judge limit_of rule_for_path bucket_of wait_of lookup
third_waits = refl

-- At the very time that was announced the request is still turned away.
announced_time_is_denied :
    (check (61 * second) (codes "eve") (codes "/api/login") spent).0.allowed ≡ false
unfolding check prune judge limit_of rule_for_path bucket_of lookup
announced_time_is_denied = refl

eve_is_not_bob : codes "eve" ≢ codes "bob"
eve_is_not_bob h = differ ((text_eq_iff (codes "eve") (codes "bob")).1 h)
  where
    differ : false ≡ true → ⊥
    differ q = cc

abbrev eve_login : RateLimitKey
eve_login = record { rule = codes "login"; identity = codes "eve" }

abbrev after_logins : RateLimiter
after_logins = run (login 1 ∷ login 2 ∷ []) (new_rate_limiter 60 rules)

long_enough :
    3 * second
      + ((check (3 * second) (codes "eve") (codes "/api/login") after_logins).0.retry_after + 1)
        * second
    ≤ 62 * second
unfolding check prune judge limit_of rule_for_path bucket_of wait_of lookup run step insert
    new_rate_limiter
long_enough = omega arith

denied_again :
    (check (3 * second) (codes "eve") (codes "/api/login") after_logins).0.allowed ≡ false
unfolding check prune judge limit_of rule_for_path bucket_of lookup run step insert new_rate_limiter
denied_again = refl

-- In between another client logs in, eve searches, and the limiter is cleaned.
abbrev meanwhile : List Event
meanwhile =
    request (4 * second) (codes "bob") (codes "/api/login")
    ∷ request (5 * second) (codes "eve") (codes "/api/search")
    ∷ tick (61 * second)
    ∷ []

meanwhile-IsElsewhere :
    All
      (IsElsewhere (record { rule = rule_for_path (codes "/api/login"); identity = codes "eve" }))
      meanwhile
unfolding rule_for_path has_prefix
meanwhile-IsElsewhere = (
  inl (λ h. eve_is_not_bob (sym h)),
  (inr (λ h. other_rule ((text_eq_iff (codes "search") (codes "login")).1 h)), (tt, tt)),
)
  where
    other_rule : false ≡ true → ⊥
    other_rule q = cc

check-retry_example :
    (check (62 * second) (codes "eve") (codes "/api/login") (
      run meanwhile
        (check (3 * second) (codes "eve") (codes "/api/login") after_logins).1)).0.allowed
    ≡ true
check-retry_example =
    check-retry 60 rules (login 1 ∷ login 2 ∷ []) meanwhile (3 * second) (62 * second) (codes "eve")
      (codes "/api/login") (codes "/api/login") denied_again meanwhile-IsElsewhere long_enough refl

check-other_example :
    (check
      (4 * second)
      (codes "bob")
      (codes "/api/login")
      (check (3 * second) (codes "eve") (codes "/api/login") spent).1).0
    ≡ (check (4 * second) (codes "bob") (codes "/api/login") spent).0
check-other_example =
    check-other (3 * second) (4 * second) (codes "eve") (codes "bob") (codes "/api/login")
      (codes "/api/login") spent eve_is_not_bob

abbrev login_at : ℕ → Request
login_at t = record { time = t * second; identity = codes "eve"; path = codes "/api/login" }

abbrev three_logins : List Request
three_logins = login_at 1 ∷ login_at 2 ∷ login_at 3 ∷ []

admitted-limit_example :
    tally
      (in_window (60 * 1000000000) (3 * second))
      (admitted eve_login three_logins (new_rate_limiter 60 rules))
    ≤ limit_of rules (codes "login")
admitted-limit_example =
    admitted-limit 60 rules three_logins (3 * second) eve_login
      (omega arith, (omega arith, (omega arith, tt)))
