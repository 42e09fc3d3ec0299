-- ===== src/Health.antt =====
-- internal/search/health.go: the health record of each search source and its circuit breaker.
-- The mutex makes each operation one step. `time.Now().Unix()` is the argument `now`, in seconds.
-- The package's variables (the map and the two breaker settings) are the record `Health`.
-- An operation that assigns through `h`, a pointer into the map, inserts the changed record.
pub mod Trace
pub mod Bounds
pub mod Circuit
mod Tests
use romarr.Base.{
  ℕ, zero, suc, ◌+◌, ◌-◌, Bool, true, false, Option, none, some, List, [], ◌∷◌, map, ltb, leb,
  if◌then◌else◌, length,
}
use romarr.Base.Int.{ℤ, pos, pos_part, neg, ltb_ℤ, ◌+ℤ◌}
use romarr.Base.Text.{Text, codes}
use romarr.Base.Dict.{lookup, insert, text_key}

pub record SourceHealth : Type 0 where
  pub name : Text
  pub search_ok : ℕ
  pub search_fail : ℕ
  pub download_ok : ℕ
  pub download_fail : ℕ
  pub last_error : Text
  pub last_error_kind : Text
  pub last_error_at : ℕ
  pub last_success_at : ℕ
  pub score : ℤ
  pub circuit_open : Bool
  pub circuit_retry_in_sec : ℕ
  pub search_fail_streak : ℕ
  pub download_fail_streak : ℕ
  pub circuit_open_until : ℕ

pub record Health : Type 0 where
  pub store : List (Text × SourceHealth)
  pub circuit_threshold : ℕ
  pub circuit_retry_sec : ℕ

abbrev pub initial : Health
initial = record { store = []; circuit_threshold = 3; circuit_retry_sec = 300 }

unfoldable pub init_health_config : ℤ → ℤ → Health → Health
init_health_config threshold timeout_sec s = record s {
  circuit_threshold = if ltb_ℤ (pos 0) threshold then pos_part threshold else s.circuit_threshold;
  circuit_retry_sec =
      if ltb_ℤ (pos 0) timeout_sec then pos_part timeout_sec else s.circuit_retry_sec;
}

-- `&SourceHealth{Name: name, Score: 100}`
abbrev pub new_health : Text → SourceHealth
new_health n = record {
  name = n;
  search_ok = 0;
  search_fail = 0;
  download_ok = 0;
  download_fail = 0;
  last_error = [];
  last_error_kind = [];
  last_error_at = 0;
  last_success_at = 0;
  score = pos 100;
  circuit_open = false;
  circuit_retry_in_sec = 0;
  search_fail_streak = 0;
  download_fail_streak = 0;
  circuit_open_until = 0;
}

abbrev or_new : Text → Option SourceHealth → SourceHealth
or_new n none = new_health n
or_new n (some h) = h

pub get_or_create_health : Text → Health → SourceHealth
get_or_create_health n s = or_new n (lookup n s.store)

abbrev put : Text → SourceHealth → Health → Health
put n h s = record s { store = insert n h s.store }

-- `Score += 5`, at most 100
abbrev raise_score : ℤ → ℤ
raise_score score = if ltb_ℤ (pos 100) (score +ℤ pos 5) then pos 100 else score +ℤ pos 5

-- `Score -= 10`, at least 0
abbrev lower_score : ℤ → ℤ
lower_score score = if ltb_ℤ (score +ℤ neg (pos 10)) (pos 0) then pos 0 else score +ℤ neg (pos 10)

-- `s[:400]` of a text that is longer
abbrev take : ℕ → Text → Text
take zero s = []
take (suc n) [] = []
take (suc n) (c ∷ s) = c ∷ take n s

abbrev clip : Text → Text
clip msg = if ltb 400 (length msg) then take 400 msg else msg

search_success : ℕ → SourceHealth → SourceHealth
search_success now h = record h {
  search_ok = h.search_ok + 1;
  search_fail_streak = 0;
  last_success_at = now;
  circuit_open_until = 0;
  score = raise_score h.score;
}

unfoldable pub record_search_success : ℕ → Text → Health → Health
unfolding get_or_create_health search_success
record_search_success now n s = put n (search_success now (get_or_create_health n s)) s

search_failure : ℕ → ℕ → ℕ → Text → SourceHealth → SourceHealth
search_failure threshold retry_sec now msg h = record h {
  search_fail = h.search_fail + 1;
  search_fail_streak = h.search_fail_streak + 1;
  last_error = clip msg;
  last_error_kind = codes "search";
  last_error_at = now;
  score = lower_score h.score;
  circuit_open_until =
      if leb threshold (h.search_fail_streak + 1) then now + retry_sec else h.circuit_open_until;
}

unfoldable pub record_search_fail : ℕ → Text → Text → Health → Health
unfolding get_or_create_health search_failure
record_search_fail now n msg s =
    put n
      (search_failure s.circuit_threshold s.circuit_retry_sec now msg (get_or_create_health n s)) s

download_success : ℕ → SourceHealth → SourceHealth
download_success now h = record h {
  download_ok = h.download_ok + 1;
  download_fail_streak = 0;
  last_success_at = now;
  score = raise_score h.score;
}

unfoldable pub record_download_success : ℕ → Text → Health → Health
unfolding get_or_create_health download_success
record_download_success now n s = put n (download_success now (get_or_create_health n s)) s

download_failure : ℕ → Text → SourceHealth → SourceHealth
download_failure now msg h = record h {
  download_fail = h.download_fail + 1;
  download_fail_streak = h.download_fail_streak + 1;
  last_error = clip msg;
  last_error_kind = codes "download";
  last_error_at = now;
  score = lower_score h.score;
}

unfoldable pub record_download_fail : ℕ → Text → Text → Health → Health
unfolding get_or_create_health download_failure
record_download_fail now n msg s = put n (download_failure now msg (get_or_create_health n s)) s

abbrev open_at : ℕ → Option SourceHealth → Bool
open_at now none = false
open_at now (some h) = ltb now h.circuit_open_until

unfoldable pub is_circuit_open : ℕ → Text → Health → Bool
is_circuit_open now n s = open_at now (lookup n s.store)

abbrev reset_found : Text → Option SourceHealth → Health → Health × Bool
reset_found n none s = (s, false)
reset_found n (some h) s =
    (put n (record h { circuit_open_until = 0; search_fail_streak = 0; score = pos 100 }) s, true)

unfoldable pub reset_circuit : Text → Health → Health × Bool
reset_circuit n s = reset_found n (lookup n s.store) s

-- The snapshot leaves the private fields at zero.
unfoldable pub snapshot_health : ℕ → SourceHealth → SourceHealth
snapshot_health now h = record h {
  circuit_open = ltb now h.circuit_open_until;
  circuit_retry_in_sec = if ltb now h.circuit_open_until then h.circuit_open_until - now else 0;
  search_fail_streak = 0;
  download_fail_streak = 0;
  circuit_open_until = 0;
}

abbrev snapshot_found : ℕ → Option SourceHealth → Option SourceHealth
snapshot_found now none = none
snapshot_found now (some h) = some (snapshot_health now h)

unfoldable pub get_source_health : ℕ → Text → Health → Option SourceHealth
unfolding snapshot_health
get_source_health now n s = snapshot_found now (lookup n s.store)

unfoldable pub get_all_source_health : ℕ → Health → List (Text × SourceHealth)
unfolding snapshot_health
get_all_source_health now s = map (λ p. (p.0, snapshot_health now p.1)) s.store
