-- ===== src/Prune/Apply/Laws.antt =====
-- What an apply pass leaves on the disk.
use romarr.Base.{
  ℕ, suc, ◌≡◌, refl, ◌∙◌, inl, inr, Bool, true, false, some, List, [], ◌∷◌, All, Bool-cases,
}
use romarr.Base.Text.{Text, text_eq, codes}
use romarr.Base.Dict.{lookup, text_key}
use romarr.Prune.Model.{PreviewRow}
use romarr.Prune.Disk.{World, Env, Outcome, failed, moved, archive, sidecar}
use romarr.Prune.Disk.Moves.{copies, IsFree}
use romarr.Prune.Disk.Laws.{archive-copies, archive-lookup}
use romarr.Prune.Apply.{Run, note_err, is_selected, record_outcome, apply_row, apply_from}

module _ (env : Env) (clock : ℕ → ℕ) (stopped : ℕ → Bool) (root : Text) (excluded : List ℕ) where
  -- At the turn of each row that is archived, its destination's names are free.
  abbrev pub AllFree : ℕ → List PreviewRow → Run → Type 0
  AllFree i [] s = Unit
  AllFree i (row ∷ rows) s =
      (is_selected excluded row ≡ true → IsFree (clock i) root row s.world.files)
      × AllFree (suc i) rows (apply_row env clock stopped root excluded i row s).1

  record_outcome-world :
      (row : PreviewRow) (s : Run) (r : Outcome × World) → (record_outcome row s r).1.world ≡ r.1
  record_outcome-world row s (failed err, w) = refl
  record_outcome-world row s (moved dest, w) = refl

  -- A property of the world, kept by every archive that the pass makes, is kept by the pass.
  module _ (P : World → Type 0) where
    apply_row-keeps :
        (i : ℕ) (row : PreviewRow) (s : Run)
        → (is_selected excluded row ≡ true
            → P s.world
            → P (archive env (clock i) root row s.world).1)
        → P s.world
        → P (apply_row env clock stopped root excluded i row s).1.world
    unfolding apply_row
    apply_row-keeps i row s f h = elim (Bool-cases (is_selected excluded row)) [
      | inl e ↦ rw (e, record_outcome-world row s (archive env (clock i) root row s.world)) (f e h)
      | inr e ↦ rw e h
    ]

    abbrev AllKeep : ℕ → List PreviewRow → Run → Type 0
    AllKeep i [] s = Unit
    AllKeep i (row ∷ rows) s =
        (is_selected excluded row ≡ true → P s.world → P (archive env (clock i) root row s.world).1)
        × AllKeep (suc i) rows (apply_row env clock stopped root excluded i row s).1

    apply_from-keeps :
        (i : ℕ) (rows : List PreviewRow) (s : Run)
        → AllKeep i rows s
        → P s.world
        → P (apply_from env clock stopped root excluded i rows s).2.world
    unfolding apply_from
    apply_from-keeps i [] s f h = h
    apply_from-keeps i (row ∷ rows) s f h = elim (Bool-cases (stopped i)) [
      | inl e ↦ rw e (note_err-keeps h)
      | inr e ↦ rw e (
          apply_from-keeps (suc i) rows (apply_row env clock stopped root excluded i row s).1 f.1
            (apply_row-keeps i row s f.0 h))
    ]
      where
        note_err-keeps : P s.world → P (note_err (codes "stopped") s).world
        note_err-keeps k = k

  -- An apply pass keeps every content on the disk as often as it was, whatever succeeds, fails or
  -- is cut short, where at each row's turn its name with the time added, and the name of the sidecar
  -- beside its destination, are free.
  pub apply_from-copies :
      (rows : List PreviewRow) (i : ℕ) (s : Run) (content : ℕ)
      → AllFree i rows s
      → copies content (apply_from env clock stopped root excluded i rows s).2.world.files
        ≡ copies content s.world.files
  apply_from-copies rows i s content free =
      apply_from-keeps (λ w. copies content w.files ≡ copies content s.world.files) i rows s
        (each rows i s free) refl
    where
      each :
          (rows : List PreviewRow) (i : ℕ) (u : Run)
          → AllFree i rows u
          → AllKeep (λ w. copies content w.files ≡ copies content s.world.files) i rows u
      each [] i u f = tt
      each (row ∷ rows) i u f = (
        λ e h. archive-copies env (clock i) root row u.world content (f.0 e) ∙ h,
        each rows (suc i) (apply_row env clock stopped root excluded i row u).1 f.1,
      )

  -- A path that no archived row stands at, nor its sidecar.
  abbrev pub IsSpared : Text → PreviewRow → Type 0
  IsSpared path row =
      is_selected excluded row ≡ true
      → (text_eq row.path path ≡ false) × (text_eq (sidecar row.path) path ≡ false)

  -- A file that is not that of a planned, not excluded row, nor such a row's sidecar, is still
  -- there after the pass, with its content.
  pub apply_from-lookup :
      (rows : List PreviewRow) (i : ℕ) (s : Run) (path : Text) (content : ℕ)
      → AllFree i rows s
      → All (IsSpared path) rows
      → lookup path s.world.files ≡ some content
      → lookup path (apply_from env clock stopped root excluded i rows s).2.world.files
        ≡ some content
  apply_from-lookup rows i s path content free spared =
      apply_from-keeps (λ w. lookup path w.files ≡ some content) i rows s
        (each rows i s free spared)
    where
      each :
          (rows : List PreviewRow) (i : ℕ) (u : Run)
          → AllFree i rows u
          → All (IsSpared path) rows
          → AllKeep (λ w. lookup path w.files ≡ some content) i rows u
      each [] i u f g = tt
      each (row ∷ rows) i u f g = (
        λ e h.
            archive-lookup env (clock i) root row u.world path content (f.0 e) (g.0 e).0 (g.0 e).1
              h,
        each rows (suc i) (apply_row env clock stopped root excluded i row u).1 f.1 g.1,
      )
