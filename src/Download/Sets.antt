-- ===== src/Download/Sets.antt =====
-- internal/download/discset.go: the jobs of a disc set, the barrier behind its last import, and the sweep. What
-- normalizing, converting and the sidecar do to the files is left out; the time is an argument.
pub mod Updates
pub mod Marks
pub mod Laws
pub mod Sweep
use romarr.Base.{
  ℕ, ◌-◌, Bool, true, false, not, ◌&&◌, ◌||◌, Option, none, some, List, [], ◌∷◌, ◌++◌,
  if◌then◌else◌, any, keep, map, tally, ◌==◌, leb, ltb, max,
}
use romarr.Base.Text.{Text, codes, is_empty, text_eq, decimal}
use romarr.Base.Dict.{lookup, insert, text_key}
use romarr.Base.Sort.{stable_sort}
use romarr.Download.Model.{Job, Jobs, JobStore, SetMarker, SetRow, update_multi, log_activity}

pub record DiscSet : Type 0 where
  pub id : Text
  pub index : ℕ
  pub total : ℕ
  pub dir : Text

unfoldable pub apply_disc_set_job_data : DiscSet → ℕ → Job → Job
apply_disc_set_job_data set now job = if is_empty set.id then job else record job {
  disc_set_id = set.id;
  disc_index = set.index;
  disc_total = set.total;
  set_dir = set.dir;
  set_started_at = now;
}

unfoldable pub disc_set_from_job : Job → DiscSet
disc_set_from_job job =
    if is_empty job.disc_set_id
    then record { id = []; index = 0; total = 0; dir = [] }
    else record {
      id = job.disc_set_id;
      index = job.disc_index;
      total = job.disc_total;
      dir = job.set_dir;
    }

pub record DiscSetMember : Type 0 where
  pub job_id : Text
  pub job : Job
  pub set : DiscSet

abbrev pub is_done : DiscSetMember → Bool
is_done m = m.job.set_member_done

abbrev pub is_finalized : DiscSetMember → Bool
is_finalized m = m.job.set_finalized

abbrev pub is_terminal : DiscSetMember → Bool
is_terminal m = text_eq m.job.status (codes "error") || text_eq m.job.status (codes "interrupted")

abbrev pub member_of : Text × Job → DiscSetMember
member_of (id, job) = record { job_id = id; job = job; set = disc_set_from_job job }

abbrev pub earlier : DiscSetMember → DiscSetMember → Bool
earlier a b = ltb a.set.index b.set.index

abbrev pub is_of : Text → DiscSetMember → Bool
is_of id m = text_eq m.set.id id

unfoldable pub disc_set_members : Text → Jobs → List DiscSetMember
unfolding disc_set_from_job
disc_set_members id jobs = stable_sort earlier (keep (is_of id) (map member_of jobs))

-- The largest total that a member declares.
abbrev pub total_of : List DiscSetMember → ℕ
total_of [] = 0
total_of (m ∷ ms) = max m.set.total (total_of ms)

-- What the run of the tail meets: whether the set's directory is there, whether the library
-- refuses a row, and the time of day.
pub record Tail : Type 0 where
  pub dir_exists : Text → Bool
  pub add_fails : Bool
  pub now : Text

abbrev pub set_final : Text → Job → Job
set_final detail job = record job { set_finalized = true; detail = detail }

-- `markAll`
unfoldable pub mark_all : Text → List DiscSetMember → Jobs → Jobs
unfolding update_multi
mark_all detail [] jobs = jobs
mark_all detail (m ∷ ms) jobs = mark_all detail ms (update_multi m.job_id (set_final detail) jobs)

abbrev pub no_marker : SetMarker
no_marker = record {
  id = [];
  total = 0;
  have = [];
  degraded = false;
  repair_attempts = 0;
  exhausted = false;
  degraded_at = [];
  repaired_at = [];
}

abbrev pub or_time : Text → Text → Text
or_time old now = if is_empty old then now else old

-- The marker of this run over the previous one, with the discs that landed in ascending order.
unfoldable pub marker_of : Tail → Text → ℕ → Bool → List DiscSetMember → SetMarker → SetMarker
marker_of tail id total degraded members prev = record {
  id = id;
  total = total;
  have = stable_sort ltb (map (λ m. m.set.index) (keep is_done members));
  degraded = degraded;
  repair_attempts = prev.repair_attempts;
  exhausted = if degraded then prev.exhausted else false;
  degraded_at = if degraded then or_time prev.degraded_at tail.now else prev.degraded_at;
  repaired_at = if not degraded && prev.degraded then tail.now else prev.repaired_at;
}

abbrev pub or_no_marker : Option SetMarker → SetMarker
or_no_marker none = no_marker
or_no_marker (some mk) = mk

abbrev pub source_id : Text → Text
source_id id = codes "set:" ++ id

-- `TrackInLibrary`: one row for the set, and none where it has one.
abbrev pub track_row : Tail → Text → DiscSetMember → JobStore → Option SetRow → JobStore
track_row tail id lead s (some row) = s
track_row tail id lead s none =
    if tail.add_fails
    then s
    else log_activity (codes "import_completed") lead.set.dir
        (codes "Added to library: " ++ lead.job.platform) lead.job_id
        (record s {
          library =
              insert (source_id id) (record { title = lead.set.dir; marker = none }) s.library;
        })

abbrev pub track_in_library : Tail → Text → DiscSetMember → JobStore → JobStore
track_in_library tail id lead s = track_row tail id lead s (lookup (source_id id) s.library)

abbrev pub save_on : Text → (SetMarker → SetMarker) → JobStore → Option SetRow → JobStore
save_on id change s none = s
save_on id change s (some row) = record s {
  library =
      insert (source_id id) (record row { marker = some (change (or_no_marker row.marker)) })
        s.library;
}

abbrev pub save_marker : Text → (SetMarker → SetMarker) → JobStore → JobStore
save_marker id change s = save_on id change s (lookup (source_id id) s.library)

abbrev pub failed_detail : ℕ → Text
failed_detail total = codes "Disc set failed (0 of " ++ decimal total ++ codes " imported)"

abbrev pub missing_detail : Text
missing_detail = codes "Disc set directory missing at finalize"

abbrev pub detail_of : Bool → ℕ → ℕ → Text
detail_of degraded imported total =
    if degraded
    then codes "Incomplete disc set ("
      ++ decimal imported
      ++ codes " of "
      ++ decimal total
      ++ codes " imported)"
    else codes "Disc set complete (" ++ decimal imported ++ codes " discs)"

abbrev pub finish : Tail → Text → Bool → DiscSetMember → List DiscSetMember → JobStore → JobStore
finish tail id degraded lead members s =
    let imported = tally is_done members in
    if imported == 0
    then log_activity (codes "download_failed") lead.set.dir
        (codes "Disc set failed: no discs imported (" ++ lead.job.platform ++ codes ")") lead.job_id
        (record s { jobs = mark_all (failed_detail lead.set.total) members s.jobs })
    else if not (tail.dir_exists lead.set.dir)
    then record s { jobs = mark_all missing_detail members s.jobs }
    else let s' : JobStore =
        save_marker id (marker_of tail id lead.set.total degraded members)
          (track_in_library tail id lead s) in
      let detail = detail_of degraded imported lead.set.total in
      log_activity (codes "download_completed") lead.set.dir
        (detail ++ codes " (" ++ lead.job.platform ++ codes ")") lead.job_id
        (record s' { jobs = mark_all detail members s'.jobs })

abbrev pub finalize_members : Tail → Text → Bool → JobStore → List DiscSetMember → JobStore
finalize_members tail id degraded s [] = s
finalize_members tail id degraded s (lead ∷ rest) =
    if any is_finalized (lead ∷ rest) then s else finish tail id degraded lead (lead ∷ rest) s

-- `finalizeDiscSet`, which reads the members again.
unfoldable pub finalize_disc_set : Tail → Text → Bool → JobStore → JobStore
unfolding disc_set_members mark_all marker_of
finalize_disc_set tail id degraded s =
    finalize_members tail id degraded s (disc_set_members id s.jobs)

abbrev pub barrier : Tail → Text → JobStore → List DiscSetMember → JobStore
barrier tail id s [] = s
barrier tail id s (m ∷ ms) =
    if any is_finalized (m ∷ ms)
    then s
    else if total_of (m ∷ ms) == 0 || ltb (tally is_done (m ∷ ms)) (total_of (m ∷ ms))
    then s
    else finalize_disc_set tail id false s

unfoldable pub maybe_finalize_disc_set : Tail → Text → JobStore → JobStore
unfolding finalize_disc_set
maybe_finalize_disc_set tail id s =
    if is_empty id then s else barrier tail id s (disc_set_members id s.jobs)

-- When the set started: the earliest time that a member says.
abbrev pub oldest_from : ℕ → List DiscSetMember → ℕ
oldest_from oldest [] = oldest
oldest_from oldest (m ∷ ms) =
    oldest_from
      (if oldest == 0 || ltb 0 m.job.set_started_at && ltb m.job.set_started_at oldest
        then m.job.set_started_at
        else oldest)
      ms

abbrev pub is_pending : DiscSetMember → Bool
is_pending m = not (is_done m) && not (is_terminal m)

-- One set of the sweep, judged by the members that the sweep read at its start.
unfoldable pub sweep_set : Tail → ℕ → ℕ → Text → List DiscSetMember → JobStore → JobStore
unfolding finalize_disc_set
sweep_set tail now timeout id members s =
    if any is_finalized members
    then s
    else if ltb 0 (total_of members) && leb (total_of members) (tally is_done members)
    then finalize_disc_set tail id false s
    else if tally is_pending members == 0
    then finalize_disc_set tail id true s
    else if ltb 0 (oldest_from 0 members) && ltb timeout (now - oldest_from 0 members)
    then finalize_disc_set tail id true s
    else s

-- The sets of the jobs, each once.
unfoldable pub set_ids : Jobs → List Text
set_ids [] = []
set_ids ((k, job) ∷ jobs) =
    let rest = set_ids jobs in
    if is_empty job.disc_set_id || any (text_eq job.disc_set_id) rest
    then rest
    else job.disc_set_id ∷ rest

unfoldable pub sweep_each : Tail → ℕ → ℕ → Jobs → List Text → JobStore → JobStore
unfolding sweep_set
sweep_each tail now timeout seen [] s = s
sweep_each tail now timeout seen (id ∷ ids) s =
    sweep_each tail now timeout seen ids
      (sweep_set tail now timeout id (disc_set_members id seen) s)

-- `SweepDiscSets`
unfoldable pub sweep_disc_sets : Tail → ℕ → ℕ → JobStore → JobStore
unfolding set_ids sweep_each
sweep_disc_sets tail now timeout s = sweep_each tail now timeout s.jobs (set_ids s.jobs) s
