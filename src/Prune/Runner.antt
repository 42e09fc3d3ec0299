-- ===== src/Prune/Runner.antt =====
-- internal/prune/prune.go: the runner that holds one preview and applies it. A triggered run is
-- modelled to its end; `stopped` says where it is cancelled.
pub mod Pages
pub mod Tests
use romarr.Base.{
  ℕ, suc, ◌-◌, ◌*◌, ◌%◌, ◌^◌, Bool, true, false, ◌||◌, Option, none, some, List, [], ◌∷◌,
  if◌then◌else◌, ltb, leb, ◌==◌, length, tally,
}
use romarr.Base.Int.{ℤ, pos, negsuc}
use romarr.Base.Text.{Text, codes}
use romarr.Prune.Model.{PreviewRow, Opts, Counts, no_counts, is_planned}
use romarr.Prune.Preview.{PlatformSet, Tally, no_tally, preview_platforms, total_of}
use romarr.Prune.Disk.{World, Env}
use romarr.Prune.Apply.{Run, apply_from, activity_of, notified_of}

pub data Phase : Type 0 where
  idle previewing applying : Phase

pub record Runner : Type 0 where
  pub running : Bool
  pub phase : Phase
  pub scope : Text
  pub opts : Opts
  pub total : ℕ
  pub done : ℕ
  pub archived : ℕ
  pub skipped : ℕ
  pub err_count : ℕ
  pub last_err : Text
  pub rows : List PreviewRow
  pub counts : Counts
  pub uncatalogued : ℕ
  pub world : World
  pub activity : List Text
  pub notified : List Text

-- The state in which the preview's goroutine starts.
unfoldable pub start_preview : Text → Opts → Runner → Runner
start_preview scope opts r = record r {
  phase = previewing;
  scope = scope;
  opts = opts;
  total = 0;
  done = 0;
  archived = 0;
  skipped = 0;
  err_count = 0;
  last_err = [];
  rows = [];
  counts = no_counts;
  uncatalogued = 0;
}

abbrev end_preview : Opts → Runner → Option Tally → Runner
end_preview opts r none = record r { err_count = suc r.err_count; last_err = codes "stopped" }
end_preview opts r (some t) = record r {
  rows = t.rows;
  counts = t.counts;
  uncatalogued = t.uncatalogued;
  total = total_of opts t.counts;
  phase = previewing;
}

unfoldable pub run_preview :
    (Text → List Text) → (Text → Text) → (ℕ → Bool) → Opts → List PlatformSet → Runner → Runner
run_preview ownership_keys hack_marker stopped opts platforms r =
    end_preview opts r
      (preview_platforms ownership_keys hack_marker stopped opts 0 platforms no_tally)

-- False, and nothing changes, while another run is under way.
unfoldable pub trigger_preview :
    (Text → List Text)
    → (Text → Text)
    → (ℕ → Bool)
    → Text
    → Opts
    → List PlatformSet
    → Runner
    → Bool × Runner
unfolding start_preview run_preview
trigger_preview ownership_keys hack_marker stopped scope opts platforms r =
    if r.running then (false, r) else (
      true,
      run_preview ownership_keys hack_marker stopped opts platforms (start_preview scope opts r),
    )

abbrev run_of : Runner → Run
run_of r = record {
  world = r.world;
  done = r.done;
  archived = r.archived;
  skipped = r.skipped;
  err_count = r.err_count;
  last_err = r.last_err;
  touched = [];
}

abbrev take_run : Runner → List PreviewRow → Run → Runner
take_run r rows s = record r {
  world = s.world;
  done = s.done;
  archived = s.archived;
  skipped = s.skipped;
  err_count = s.err_count;
  last_err = s.last_err;
  rows = rows;
}

module _ (env : Env) (clock : ℕ → ℕ) (stopped : ℕ → Bool) (root : Text)
    (fs_slug : Text → Text) where
  -- A run that was cut short tells nobody.
  abbrev end_apply : Runner → Bool × List PreviewRow × Run → Runner
  end_apply r (false, rows, s) = take_run r rows s
  end_apply r (true, rows, s) = record (take_run r rows s) {
    phase = previewing;
    activity = activity_of s;
    notified = notified_of fs_slug s;
  }

  unfoldable pub run_apply : List ℕ → Runner → Runner
  run_apply excluded r =
      end_apply r (apply_from env clock stopped root excluded 0 r.rows (run_of r))

  -- Only `done` starts anew; the other counters go on from the last run.
  unfoldable pub trigger_apply : List ℕ → Runner → Bool × Runner
  unfolding run_apply
  trigger_apply excluded r =
      if r.running || tally is_planned r.rows == 0
      then (false, r)
      else (true, run_apply excluded (record r { phase = applying; done = 0 }))

abbrev pub take {ℓ} : {A : Type ℓ} → ℕ → List A → List A
take n [] = []
take ℕ.zero (x ∷ xs) = []
take (ℕ.suc n) (x ∷ xs) = x ∷ take n xs

abbrev pub drop {ℓ} : {A : Type ℓ} → ℕ → List A → List A
drop n [] = []
drop ℕ.zero (x ∷ xs) = x ∷ xs
drop (ℕ.suc n) (x ∷ xs) = drop n xs

-- A product of Go ints, which wraps around at 64 bits.
abbrev pub wrapped : ℕ → ℤ
wrapped n = let m = n % 2 ^ 64 in if ltb m (2 ^ 63) then pos m else negsuc (2 ^ 64 - m - 1)

abbrev pub page_or : ℤ → ℕ
page_or (pos n) = if ltb n 1 then 1 else n
page_or (negsuc n) = 1

abbrev pub size_or : ℤ → ℕ
size_or (pos n) = if n == 0 || ltb 500 n then 100 else n
size_or (negsuc n) = 100

-- `rows[start:end]` with the end no further than the rows go, and the number of rows; a start below
-- 0 is below the number of rows and out of range, and Go panics.
abbrev pub cut : ℤ → ℕ → List PreviewRow → Option (List PreviewRow × ℕ)
cut (negsuc n) size rows = none
cut (pos start) size rows =
    if leb (length rows) start
    then some ([], length rows)
    else some (take size (drop start rows), length rows)

unfoldable pub preview_page : ℤ → ℤ → List PreviewRow → Option (List PreviewRow × ℕ)
preview_page page page_size rows =
    cut (wrapped ((page_or page - 1) * size_or page_size)) (size_or page_size) rows
