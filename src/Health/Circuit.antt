-- ===== src/Health/Circuit.antt =====
-- When the circuit of a source opens and closes.
use romarr.Base.{
  ℕ, suc, ◌+◌, ◌<◌, ◌≡◌, refl, ap, subst, some_inj, ◌∙◌, Bool, true, false, Option, none, some,
  List, [], ◌∷◌, arith, Option-cases, if◌then◌else◌, inl, inr, length, ltb, leb,
}
use romarr.Base.Text.{Text, text_eq_iff}
use romarr.Base.Dict.{lookup, insert, lookup-insert, text_key}
use romarr.Health.{
  Health, SourceHealth, get_or_create_health, search_failure, search_success, record_search_success,
  record_search_fail, is_circuit_open, reset_circuit, get_source_health, or_new, open_at,
  reset_found, snapshot_found,
}

lookup-insert_self :
    (n : Text) (h : SourceHealth) (s : List (Text × SourceHealth))
    → lookup n (insert n h s) ≡ some h
lookup-insert_self n h s = ground (arith, lookup-insert n n h s, text_eq_iff n n)

-- Consecutive failed searches of one source, with their times and messages.
unfoldable pub fail_all : Text → List (ℕ × Text) → Health → Health
fail_all n [] s = s
fail_all n ((now, msg) ∷ rest) s = fail_all n rest (record_search_fail now n msg s)

abbrev last_time : ℕ → List (ℕ × Text) → ℕ
last_time now [] = now
last_time now ((later, msg) ∷ rest) = last_time later rest

-- The failures in a row that a source has behind it, and when its circuit closes.
abbrev pub streak : Text → Health → ℕ
streak n s = (get_or_create_health n s).search_fail_streak

abbrev pub open_until : Text → Health → ℕ
open_until n s = (get_or_create_health n s).circuit_open_until

fail-get :
    (now : ℕ) (n msg : Text) (s : Health)
    → get_or_create_health n (record_search_fail now n msg s)
      ≡ search_failure s.circuit_threshold s.circuit_retry_sec now msg (get_or_create_health n s)
unfolding get_or_create_health record_search_fail
fail-get now n msg s = rw (lookup-insert_self n _ s.store)

fail_streak :
    (now : ℕ) (n msg : Text) (s : Health)
    → (streak n (record_search_fail now n msg s) ≡ streak n s + 1)
      × (open_until n (record_search_fail now n msg s) ≡ (
          if leb s.circuit_threshold (streak n s + 1)
          then now + s.circuit_retry_sec
          else open_until n s))
unfolding search_failure
fail_streak now n msg s = (
  ap (λ h. h.search_fail_streak) (fail-get now n msg s),
  ap (λ h. h.circuit_open_until) (fail-get now n msg s),
)

open_at-or_new :
    (now : ℕ) (n : Text) (o : Option SourceHealth)
    → open_at now o ≡ ltb now (or_new n o).circuit_open_until
open_at-or_new now n none = ground arith
open_at-or_new now n (some h) = refl

open-eq : (now : ℕ) (n : Text) (s : Health) → is_circuit_open now n s ≡ ltb now (open_until n s)
unfolding is_circuit_open get_or_create_health
open-eq now n s = open_at-or_new now n (lookup n s.store)

fail_config :
    (now : ℕ) (n msg : Text) (s : Health)
    → ((record_search_fail now n msg s).circuit_threshold ≡ s.circuit_threshold)
      × ((record_search_fail now n msg s).circuit_retry_sec ≡ s.circuit_retry_sec)
unfolding record_search_fail
fail_config now n msg s = (refl, refl)

join_tests :
    (th th' k k' l first last until until' r r' : ℕ)
    → th' ≡ th
    → r' ≡ r
    → k' ≡ k + 1
    → until' ≡ (if leb th (k + 1) then first + r else until)
    → (if leb th' (k' + suc l) then last + r' else until')
      ≡ (if leb th (k + suc (suc l)) then last + r else until)
join_tests th th' k k' l first last until until' r r' a b c d = ground arith

fail_all_until :
    (n : Text) (rest : List (ℕ × Text)) (now : ℕ) (msg : Text) (s : Health)
    → open_until n (fail_all n ((now, msg) ∷ rest) s) ≡ (
        if leb s.circuit_threshold (streak n s + suc (length rest))
        then last_time now rest + s.circuit_retry_sec
        else open_until n s)
unfolding fail_all
fail_all_until n [] now msg s = (fail_streak now n msg s).1
fail_all_until n ((later, msg') ∷ rest) now msg s =
    let s' = record_search_fail now n msg s in
    fail_all_until n rest later msg' s'
    ∙ join_tests s.circuit_threshold s'.circuit_threshold (streak n s) (streak n s') (length rest)
        now (last_time later rest) (open_until n s) (open_until n s') s.circuit_retry_sec
        s'.circuit_retry_sec (fail_config now n msg s).0 (fail_config now n msg s).1
        (fail_streak now n msg s).0 (fail_streak now n msg s).1

-- After one or more failed searches of a source in a row, its circuit is open at a time exactly
-- if either the failures now number at least the threshold and the time lies less than the retry
-- time after the last of them, or they are fewer and the circuit stood open past that time before.
pub fail_all-open :
    (n : Text) (now : ℕ) (msg : Text) (rest : List (ℕ × Text)) (s : Health) (t : ℕ)
    → is_circuit_open t n (fail_all n ((now, msg) ∷ rest) s) ≡ (
        if leb s.circuit_threshold (streak n s + suc (length rest))
        then ltb t (last_time now rest + s.circuit_retry_sec)
        else is_circuit_open t n s)
fail_all-open n now msg rest s t =
    rw
      (
        open-eq t n (fail_all n ((now, msg) ∷ rest) s),
        open-eq t n s,
        fail_all_until n rest now msg s,
      )
      (push (leb s.circuit_threshold (streak n s + suc (length rest))))
  where
    push :
        (b : Bool)
        → ltb t (if b then last_time now rest + s.circuit_retry_sec else open_until n s)
          ≡ (if b then ltb t (last_time now rest + s.circuit_retry_sec) else ltb t (open_until n s))
    push true = refl
    push false = refl

success-get :
    (now : ℕ) (n : Text) (s : Health)
    → get_or_create_health n (record_search_success now n s)
      ≡ search_success now (get_or_create_health n s)
unfolding get_or_create_health record_search_success
success-get now n s = rw (lookup-insert_self n _ s.store)

success_clears :
    (now : ℕ) (n : Text) (s : Health)
    → (streak n (record_search_success now n s) ≡ 0)
      × (open_until n (record_search_success now n s) ≡ 0)
unfolding search_success
success_clears now n s = (
  ap (λ h. h.search_fail_streak) (success-get now n s),
  ap (λ h. h.circuit_open_until) (success-get now n s),
)

reset_found-clears :
    (n : Text) (s : Health) (o : Option SourceHealth)
    → lookup n s.store ≡ o
    → (streak n (reset_found n o s).0 ≡ 0) × (open_until n (reset_found n o s).0 ≡ 0)
unfolding get_or_create_health
reset_found-clears n s none e =
    (ap (λ o. (or_new n o).search_fail_streak) e, ap (λ o. (or_new n o).circuit_open_until) e)
reset_found-clears n s (some h) e = (
  ap (λ o. (or_new n o).search_fail_streak) (lookup-insert_self n _ s.store),
  ap (λ o. (or_new n o).circuit_open_until) (lookup-insert_self n _ s.store),
)

reset_clears :
    (n : Text) (s : Health)
    → (streak n (reset_circuit n s).0 ≡ 0) × (open_until n (reset_circuit n s).0 ≡ 0)
unfolding reset_circuit
reset_clears n s = reset_found-clears n s (lookup n s.store) refl

-- A state in which the source has no failures behind it and its circuit is closed.
abbrev pub IsCleared : Text → Health → Type 0
IsCleared n s = (streak n s ≡ 0) × (open_until n s ≡ 0)

-- A successful search and a reset both leave the source without failures behind it and closed.
pub success_reset-IsCleared :
    (now : ℕ) (n : Text) (s : Health)
    → IsCleared n (record_search_success now n s) × IsCleared n (reset_circuit n s).0
success_reset-IsCleared now n s = (success_clears now n s, reset_clears n s)

cleared_closed :
    (n : Text) (s : Health) (fails : List (ℕ × Text)) (t : ℕ)
    → IsCleared n s
    → length fails < s.circuit_threshold
    → is_circuit_open t n (fail_all n fails s) ≡ false
unfolding fail_all
cleared_closed n s [] t c h = rw (open-eq t n s, c.1) (ground arith)
cleared_closed n s ((now, msg) ∷ rest) t c h =
    rw (fail_all-open n now msg rest s t, open-eq t n s, c.0, c.1) (ground arith)

-- Once a search of a source has succeeded, fewer failed searches in a row than the threshold
-- never open its circuit, at whatever time it is asked.
pub success_forgives :
    (now : ℕ) (n : Text) (s : Health) (fails : List (ℕ × Text)) (t : ℕ)
    → length fails < s.circuit_threshold
    → is_circuit_open t n (fail_all n fails (record_search_success now n s)) ≡ false
unfolding record_search_success
success_forgives now n s fails t h =
    cleared_closed n (record_search_success now n s) fails t (success_clears now n s) h

abbrev pub IsShown : ℕ → Text → Health → SourceHealth → Type 0
IsShown now n s h =
    (h.circuit_open ≡ is_circuit_open now n s)
    × (is_circuit_open (now + h.circuit_retry_in_sec) n s ≡ false)
    × ((d : ℕ) → d < h.circuit_retry_in_sec → is_circuit_open (now + d) n s ≡ true)

-- The snapshot that callers see tells the truth: its flag is the breaker's own answer, the circuit
-- is closed once its retry time has passed, and open at every moment before that.
pub get_source_health-IsShown :
    (now : ℕ) (n : Text) (s : Health) (h : SourceHealth)
    → get_source_health now n s ≡ some h
    → IsShown now n s h
unfolding get_source_health is_circuit_open
get_source_health-IsShown now n s h e = elim (Option-cases (lookup n s.store)) [
  | inl q ↦ absurd (none_shows (rw q at e))
  | inr (g, q) ↦ rw q (shows g (rw q at e))
]
  where
    none_shows : snapshot_found now none ≡ some h → ⊥
    none_shows p = cc

    shows :
        (g : SourceHealth)
        → snapshot_found now (some g) ≡ some h
        → (h.circuit_open ≡ ltb now g.circuit_open_until)
          × (ltb (now + h.circuit_retry_in_sec) g.circuit_open_until ≡ false)
          × ((d : ℕ) → d < h.circuit_retry_in_sec → ltb (now + d) g.circuit_open_until ≡ true)
    shows g p =
        subst
          (λ (h' : SourceHealth).
            (h'.circuit_open ≡ ltb now g.circuit_open_until)
            × (ltb (now + h'.circuit_retry_in_sec) g.circuit_open_until ≡ false)
            × ((d : ℕ) → d < h'.circuit_retry_in_sec → ltb (now + d) g.circuit_open_until ≡ true))
          (some_inj p) (refl, ground arith, λ d lt. ground arith)
