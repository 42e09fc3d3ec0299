-- ===== src/Health/Tests.antt =====
-- Runs of the breaker, and each theorem at a concrete input.
use romarr.Base.{ℕ, ◌+◌, ◌≡◌, refl, true, false, some, List, [], ◌∷◌, arith, ltb}
use romarr.Base.Int.{pos, negsuc}
use romarr.Base.Text.{Text, codes}
use romarr.Base.Dict.{lookup, insert, text_key}
use romarr.Health.{
  SourceHealth, initial, record_search_success, record_search_fail, is_circuit_open, reset_circuit,
  get_source_health, init_health_config, record_download_fail,
}
use romarr.Health.Trace.{Event, configure, search_bad, download_bad, reset, step, run}
use romarr.Health.Bounds.{AllSane, run-AllSane}
use romarr.Health.Circuit.{
  fail_all, fail_all-open, success_forgives, IsShown, get_source_health-IsShown,
}

abbrev vimm : Text
vimm = codes "vimm"

abbrev timeout : Text
timeout = codes "timeout"

abbrev three_fails : List (ℕ × Text)
three_fails = (100, timeout) ∷ (110, timeout) ∷ (120, timeout) ∷ []

program : Unit {0}
unfolding run step init_health_config record_search_success record_search_fail record_download_fail
    reset_circuit get_source_health is_circuit_open fail_all lookup insert
program = tt

-- The third failure in a row opens the circuit for the retry time.
opens : is_circuit_open 419 vimm (fail_all vimm three_fails initial) ≡ true
unfolding program
opens = refl

closes : is_circuit_open 420 vimm (fail_all vimm three_fails initial) ≡ false
unfolding program
closes = refl

abbrev trace : List Event
trace =
    configure (pos 1) (negsuc 4)
    ∷ search_bad 50 vimm timeout
    ∷ download_bad 60 vimm timeout
    ∷ reset vimm
    ∷ []

run-AllSane_example : AllSane (run trace initial)
run-AllSane_example = run-AllSane trace

fail_all-open_example :
    is_circuit_open 300 vimm (fail_all vimm three_fails initial) ≡ ltb 300 (120 + 300)
unfolding program
fail_all-open_example =
    fail_all-open vimm 100 timeout ((110, timeout) ∷ (120, timeout) ∷ []) initial 300

success_forgives_example :
    is_circuit_open 125 vimm
      (fail_all vimm ((110, timeout) ∷ (120, timeout) ∷ []) (record_search_success 90 vimm initial))
    ≡ false
success_forgives_example =
    success_forgives 90 vimm initial ((110, timeout) ∷ (120, timeout) ∷ []) 125 (omega arith)

abbrev open_record : SourceHealth
open_record = record {
  name = vimm;
  search_ok = 0;
  search_fail = 3;
  download_ok = 0;
  download_fail = 0;
  last_error = timeout;
  last_error_kind = codes "search";
  last_error_at = 120;
  last_success_at = 0;
  score = pos 70;
  circuit_open = true;
  circuit_retry_in_sec = 20;
  search_fail_streak = 0;
  download_fail_streak = 0;
  circuit_open_until = 0;
}

shown : get_source_health 400 vimm (fail_all vimm three_fails initial) ≡ some open_record
unfolding program
shown = refl

get_source_health-IsShown_example : IsShown 400 vimm (fail_all vimm three_fails initial) open_record
get_source_health-IsShown_example =
    get_source_health-IsShown 400 vimm (fail_all vimm three_fails initial) open_record shown
