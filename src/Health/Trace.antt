-- ===== src/Health/Trace.antt =====
-- The operations on the health store as events, and a run of them.
use romarr.Base.{
  ℕ, ◌≡◌, refl, ◌≢◌, Option, none, some, List, [], ◌∷◌, arith, Option-cases, inl, inr,
}
use romarr.Base.Int.{ℤ}
use romarr.Base.Text.{Text, text_eq_iff}
use romarr.Base.Dict.{lookup, insert, lookup-insert, text_key}
use romarr.Health.{
  Health, SourceHealth, init_health_config, record_search_success, record_search_fail,
  record_download_success, record_download_fail, reset_circuit,
}

pub data Event : Type 0 where
  configure : (threshold timeout_sec : ℤ) → Event
  search_ok : (now : ℕ) (name : Text) → Event
  search_bad : (now : ℕ) (name msg : Text) → Event
  download_ok : (now : ℕ) (name : Text) → Event
  download_bad : (now : ℕ) (name msg : Text) → Event
  reset : (name : Text) → Event

unfoldable pub step : Event → Health → Health
step (configure threshold timeout_sec) s = init_health_config threshold timeout_sec s
step (search_ok now n) s = record_search_success now n s
step (search_bad now n msg) s = record_search_fail now n msg s
step (download_ok now n) s = record_download_success now n s
step (download_bad now n msg) s = record_download_fail now n msg s
step (reset n) s = (reset_circuit n s).0

unfoldable pub run : List Event → Health → Health
run [] s = s
run (e ∷ es) s = run es (step e s)

-- The source that an event is about.
abbrev pub subject : Event → Option Text
subject (configure threshold timeout_sec) = none
subject (search_ok now n) = some n
subject (search_bad now n msg) = some n
subject (download_ok now n) = some n
subject (download_bad now n msg) = some n
subject (reset n) = some n

lookup_other :
    (n m : Text) (h : SourceHealth) (s : List (Text × SourceHealth))
    → some n ≢ some m
    → lookup m (insert n h s) ≡ lookup m s
lookup_other n m h s ne = ground (arith, lookup-insert n m h s, text_eq_iff n m)

-- An event about one source leaves the record of every other source as it was, and so does a
-- change of the breaker's settings.
step-lookup_other :
    (e : Event) (s : Health) (m : Text)
    → subject e ≢ some m
    → lookup m (step e s).store ≡ lookup m s.store
unfolding step init_health_config record_search_success record_search_fail record_download_success
    record_download_fail reset_circuit
step-lookup_other (configure threshold timeout_sec) s m ne = refl
step-lookup_other (search_ok now n) s m ne = lookup_other n m _ s.store ne
step-lookup_other (search_bad now n msg) s m ne = lookup_other n m _ s.store ne
step-lookup_other (download_ok now n) s m ne = lookup_other n m _ s.store ne
step-lookup_other (download_bad now n msg) s m ne = lookup_other n m _ s.store ne
step-lookup_other (reset n) s m ne = elim (Option-cases (lookup n s.store)) [
  | inl e ↦ rw (e, step) refl
  | inr (h, e) ↦ rw (e, step) (lookup_other n m _ s.store ne)
]
