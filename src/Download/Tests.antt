-- ===== src/Download/Tests.antt =====
-- internal/download: a store with a running job and a disc set, and the examples of the theorems.
use romarr.Base.{ℕ, ◌≡◌, refl, Bool, true, false, some, List, [], ◌∷◌, keep, tally}
use romarr.Base.Text.{codes, decimal, digits}
use romarr.Base.Dict.{lookup, insert, text_key}
use romarr.Base.Sort.{stable_sort}
use romarr.Download.Model.{Job, Jobs, JobStore, Blocklist, update_multi}
use romarr.Download.Blocklist.{
  Faults, no_faults, is_blocklisted, add_blocklist_entry, remove_blocklist_for, handle_add_entry,
}
use romarr.Download.Failure.{
  FailCause, fail_job_detail, fail_job, blocklist_release, blocklist_source,
}
use romarr.Download.Failure.Laws.{IsAdded, fail_job_detail-blocklist, fail_job_detail-undone}
use romarr.Download.Failure.Trace.{Event, failure, override, run, AllIdentified, run-AllIdentified}
use romarr.Download.Failure.Once.{fail_job_detail-twice}
use romarr.Download.Sets.{
  disc_set_from_job, apply_disc_set_job_data, disc_set_members, member_of, Tail, mark_all,
  marker_of, finalize_disc_set, maybe_finalize_disc_set, sweep_set, set_ids, sweep_each,
  sweep_disc_sets,
}
use romarr.Download.Sets.Updates.{IsKeyed}
use romarr.Download.Sets.Sweep.{IsSwept, sweep_set-IsSwept}
use romarr.Download.Sets.Laws.{is_settled, finalize_disc_set-once}

abbrev running : Job
running = record {
  status = codes "downloading";
  error = [];
  detail = [];
  title = codes "Ace";
  download_url = codes "u";
  torrent_hash = [];
  source_client = [];
  source_type = codes "nzb";
  platform = codes "PSX";
  disc_set_id = [];
  disc_index = 0;
  disc_total = 0;
  set_dir = [];
  set_started_at = 0;
  set_member_done = false;
  set_finalized = false;
}

abbrev disc : ℕ → Bool → Job
disc n landed = record running {
  disc_set_id = codes "s";
  disc_index = n;
  disc_total = 2;
  set_dir = codes "Ace";
  set_started_at = 100;
  set_member_done = landed;
}

abbrev empty_list : Blocklist
empty_list = record { next_id = 1; entries = [] }

abbrev store_of : Jobs → JobStore
store_of jobs = record { jobs = jobs; blocklist = empty_list; activity = []; library = [] }

abbrev store : JobStore
store = store_of ((codes "j", running) ∷ [])

program : Unit {0}
unfolding lookup insert update_multi is_blocklisted add_blocklist_entry remove_blocklist_for
    handle_add_entry keep fail_job_detail fail_job blocklist_release blocklist_source run
    disc_set_from_job apply_disc_set_job_data disc_set_members mark_all marker_of finalize_disc_set
    maybe_finalize_disc_set sweep_set set_ids sweep_each sweep_disc_sets tally stable_sort decimal
    digits
program = tt

found : lookup (codes "j") store.jobs ≡ some running
unfolding program
found = refl

not_yet : is_blocklisted no_faults (codes "u") [] empty_list ≡ false
unfolding program
not_yet = refl

fail_job_detail-twice_example :
    fail_job_detail no_faults
      (codes "j")
      (codes "disk")
      []
      FailCause.release
      (fail_job_detail no_faults (codes "j") (codes "stalled") [] FailCause.local store)
    ≡ fail_job_detail no_faults (codes "j") (codes "stalled") [] FailCause.local store
fail_job_detail-twice_example =
    fail_job_detail-twice no_faults (codes "j") (codes "stalled") [] FailCause.local (codes "disk")
      [] FailCause.release store

fail_job_detail-blocklist_example :
    ((fail_job_detail no_faults (codes "j") (codes "stalled") [] FailCause.local store).blocklist
      ≡ empty_list)
    × (is_blocklisted no_faults
          (codes "u")
          []
          (fail_job_detail no_faults
            (codes "j")
            (codes "stalled")
            []
            FailCause.release
            store).blocklist
        ≡ true)
    × IsAdded running empty_list
        (fail_job_detail no_faults
          (codes "j")
          (codes "stalled")
          []
          FailCause.release
          store).blocklist.entries
fail_job_detail-blocklist_example =
    fail_job_detail-blocklist (codes "j") (codes "stalled") [] store refl found refl refl

fail_job_detail-undone_example :
    (remove_blocklist_for no_faults
      (codes "u")
      []
      (fail_job_detail no_faults
        (codes "j")
        (codes "stalled")
        []
        FailCause.release
        store).blocklist).1.entries
    ≡ []
fail_job_detail-undone_example =
    fail_job_detail-undone (codes "j") (codes "stalled") [] FailCause.release store refl found refl
      refl not_yet

abbrev events : List (Faults × Event)
events =
    (no_faults, failure (codes "j") (codes "stalled") [] FailCause.release)
    ∷ (no_faults, override (codes "u") [])
    ∷ []

run-AllIdentified_example : AllIdentified (run events store).blocklist
run-AllIdentified_example = run-AllIdentified events store tt

abbrev tail : Tail
tail = record { dir_exists = λ dir. true; add_fails = false; now = codes "today" }

abbrev half : JobStore
half = store_of ((codes "b", disc 2 false) ∷ (codes "a", disc 1 true) ∷ [])

abbrev whole : JobStore
whole = store_of ((codes "b", disc 2 true) ∷ (codes "a", disc 1 true) ∷ [])

half_ids : IsKeyed half.jobs
unfolding program
half_ids = (refl, (refl, tt))

whole_ids : IsKeyed whole.jobs
unfolding program
whole_ids = (refl, (refl, tt))

members :
    disc_set_members (codes "s") half.jobs
    ≡ member_of (codes "a", disc 1 true) ∷ member_of (codes "b", disc 2 false) ∷ []
unfolding program
members = refl

members_whole :
    disc_set_members (codes "s") whole.jobs
    ≡ member_of (codes "a", disc 1 true) ∷ member_of (codes "b", disc 2 true) ∷ []
unfolding program
members_whole = refl

finalize_disc_set-once_example :
    finalize_disc_set tail (codes "s") true (finalize_disc_set tail (codes "s") false whole)
    ≡ finalize_disc_set tail (codes "s") false whole
finalize_disc_set-once_example =
    finalize_disc_set-once tail tail (codes "s") false true whole whole_ids

sweep_set-IsSwept_example :
    IsSwept 120 50
      (codes "s")
      half
      (disc_set_members (codes "s") half.jobs)
      (sweep_set tail 120 50 (codes "s") (disc_set_members (codes "s") half.jobs) half)
sweep_set-IsSwept_example = sweep_set-IsSwept tail 120 50 (codes "s") half half_ids members

-- Its time is over.
half_swept :
    is_settled
      (codes "s")
      (sweep_set tail 500 50 (codes "s") (disc_set_members (codes "s") half.jobs) half)
    ≡ true
unfolding program
half_swept = refl

half_waits : maybe_finalize_disc_set tail (codes "s") half ≡ half
unfolding program
half_waits = refl

swept : is_settled (codes "s") (sweep_disc_sets tail 500 50 whole) ≡ true
unfolding program
swept = refl

stamped :
    apply_disc_set_job_data
      (record { id = codes "s"; index = 1; total = 2; dir = codes "Ace" })
      100
      running
    ≡ disc 1 false
unfolding program
stamped = refl
