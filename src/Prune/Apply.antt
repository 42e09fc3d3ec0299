-- ===== src/Prune/Apply.antt =====
-- internal/prune/prune.go: the apply pass over the held rows of a preview, with the counters that
-- the run keeps. `clock i` is the time at which row `i` is archived, `stopped i` that the run was
-- cancelled before it.
pub mod Laws
pub mod Counters
use romarr.Base.{
  ℕ, suc, Bool, true, false, not, ◌&&◌, List, [], ◌∷◌, ◌++◌, if◌then◌else◌, any, ◌==◌, ltb, map,
}
use romarr.Base.Text.{Text, codes, text_eq, decimal}
use romarr.Prune.Model.{PreviewRow, RowStatus, is_planned}
use romarr.Prune.Disk.{World, Env, Outcome, failed, moved, archive}

pub record Run : Type 0 where
  pub world : World
  pub done : ℕ
  pub archived : ℕ
  pub skipped : ℕ
  pub err_count : ℕ
  pub last_err : Text
  pub touched : List Text

-- `noteErr`
unfoldable pub note_err : Text → Run → Run
note_err msg s = record s { err_count = suc s.err_count; last_err = msg }

-- A row that this pass archives: planned, and not excluded by the operator.
abbrev pub is_selected : List ℕ → PreviewRow → Bool
is_selected excluded row = is_planned row && not (any (λ i. i == row.library_id) excluded)

-- `touched[slug] = struct{}{}`
abbrev touch : Text → List Text → List Text
touch slug touched = if any (text_eq slug) touched then touched else touched ++ slug ∷ []

abbrev pub record_outcome : PreviewRow → Run → Outcome × World → PreviewRow × Run
record_outcome row s (failed err, w) = (
  record row { status = RowStatus.skipped; reason = err },
  record s {
    world = w;
    done = suc s.done;
    skipped = suc s.skipped;
    err_count = suc s.err_count;
    last_err = err;
  },
)
record_outcome row s (moved dest, w) = (
  record row { status = RowStatus.archived; archived_to = dest },
  record s {
    world = w;
    done = suc s.done;
    archived = suc s.archived;
    touched = touch row.platform_slug s.touched;
  },
)

module _ (env : Env) (clock : ℕ → ℕ) (stopped : ℕ → Bool) (root : Text) (excluded : List ℕ) where
  unfoldable pub apply_row : ℕ → PreviewRow → Run → PreviewRow × Run
  apply_row i row s =
      if is_selected excluded row
      then record_outcome row s (archive env (clock i) root row s.world)
      else (row, s)

  -- The rows from index `i` on; the flag is false when the run was cancelled.
  unfoldable pub apply_from : ℕ → List PreviewRow → Run → Bool × List PreviewRow × Run
  unfolding apply_row note_err
  apply_from i [] s = (true, [], s)
  apply_from i (row ∷ rows) s =
      let turn = apply_row i row s in
      let rest = apply_from (suc i) rows turn.1 in
      if stopped i
      then (false, row ∷ rows, note_err (codes "stopped") s)
      else (rest.0, turn.0 ∷ rest.1, rest.2)

-- What a finished run tells the activity log and RomM, whose folder names `fs_slug` gives.
unfoldable pub activity_of : Run → List Text
activity_of s =
    if ltb 0 s.archived
    then (codes "Archived "
        ++ decimal s.archived
        ++ codes " surplus "
        ++ (if s.archived == 1 then codes "file" else codes "files"))
      ∷ []
    else []

unfoldable pub notified_of : (Text → Text) → Run → List Text
notified_of fs_slug s = map fs_slug s.touched
