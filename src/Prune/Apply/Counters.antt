-- ===== src/Prune/Apply/Counters.antt =====
-- The counters and the statuses of an apply pass.
use romarr.Base.{
  ℕ, suc, ◌+◌, ◌≡◌, ◌≢◌, refl, sym, ap, ◌⊎◌, inl, inr, Bool, true, false, List, [], ◌∷◌, Bool-cases,
  if◌then◌else◌, any, ◌==◌, ==_iff, Member, length, length-append, tally, tally-cons, tally-nil,
  arith,
}
use romarr.Base.Text.{Text}
use romarr.Prune.Model.{PreviewRow, RowStatus, planned, archived, skipped, is_planned}
use romarr.Prune.Disk.{World, Env, ManifestEntry, Outcome, failed, moved, archive}
use romarr.Prune.Disk.Laws.{HasEntry, archive-HasEntry}
use romarr.Prune.Apply.{Run, is_selected, record_outcome, apply_row, apply_from}

abbrev pub is_archived : PreviewRow → Bool
is_archived row = elim row.status [ archived ↦ true | _ ↦ false ]

abbrev pub is_skipped : PreviewRow → Bool
is_skipped row = elim row.status [ skipped ↦ true | _ ↦ false ]

-- What a pass makes of a row: it leaves one that is not planned, or that the operator excludes; and
-- it archives or skips any other.
abbrev pub Turned : List ℕ → PreviewRow → PreviewRow → Type 0
Turned excluded row row' =
    ((row' ≡ row) × ((row.status ≢ RowStatus.planned) ⊎ Member row.library_id excluded))
    ⊎ ((row.status ≡ RowStatus.planned)
        × (Member row.library_id excluded → ⊥)
        × ((row'.status ≡ RowStatus.archived) ⊎ (row'.status ≡ RowStatus.skipped)))

abbrev pub AllTurned : List ℕ → List PreviewRow → List PreviewRow → Type 0
AllTurned excluded [] [] = Unit
AllTurned excluded [] (row' ∷ rows') = ⊥
AllTurned excluded (row ∷ rows) [] = ⊥
AllTurned excluded (row ∷ rows) (row' ∷ rows') =
    Turned excluded row row' × AllTurned excluded rows rows'

-- The counters of a pass from `s` to `u` over the rows, by what became of them; the manifest has
-- one more entry for each row archived.
pub record Tallies (rows rows' : List PreviewRow) (s u : Run) : Type 0 where
  pub archived_rows : u.archived + tally is_archived rows ≡ s.archived + tally is_archived rows'
  pub skipped_rows : u.skipped + tally is_skipped rows ≡ s.skipped + tally is_skipped rows'
  pub done_rows : u.done + (s.archived + s.skipped) ≡ s.done + (u.archived + u.skipped)
  pub errors : u.err_count + s.skipped ≡ s.err_count + u.skipped
  pub entries : length u.world.manifest + s.archived ≡ length s.world.manifest + u.archived

pub record IsCounted (excluded : List ℕ) (rows rows' : List PreviewRow) (s u : Run) : Type 0 where
  pub turned : AllTurned excluded rows rows'
  pub tallies : Tallies rows rows' s u

any-Member : (id : ℕ) (ids : List ℕ) → any (λ i. i == id) ids ≡ true → Member id ids
any-Member id [] h = absurd (cc)
any-Member id (i ∷ ids) h = elim (Bool-cases (i == id)) [
  | inl e ↦ inl (sym ((==_iff i id).0 e))
  | inr e ↦ inr (any-Member id ids (rw e at h))
]

Member-any : (id : ℕ) (ids : List ℕ) → Member id ids → any (λ i. i == id) ids ≡ true
Member-any id (i ∷ ids) (inl e) = rw ((==_iff i id).1 (sym e)) refl
Member-any id (i ∷ ids) (inr m) = ground (arith, Member-any id ids m)
Member-any id [] m = absurd m

planned_status :
    (status : RowStatus)
    → elim status [ planned ↦ true | _ ↦ false ] ≡ true
    → status ≡ RowStatus.planned
planned_status RowStatus.planned h = refl
planned_status RowStatus.archived h = absurd (cc)
planned_status RowStatus.skipped h = absurd (cc)
planned_status RowStatus.reported h = absurd (cc)

kept_row :
    (excluded : List ℕ) (row : PreviewRow)
    → is_selected excluded row ≡ false
    → Turned excluded row row
kept_row excluded row h = elim (Bool-cases (is_planned row)) [
  | inl p ↦ inl (refl, inr (any-Member row.library_id excluded (ground arith)))
  | inr p ↦ inl (refl, inl (λ e. unplanned row.status e p))
]
  where
    unplanned :
        (status : RowStatus)
        → status ≡ RowStatus.planned
        → elim status [ planned ↦ true | _ ↦ false ] ≡ false
        → ⊥
    unplanned status e p = true_false (rw e at p)
      where
        true_false : true ≡ false → ⊥
        true_false q = cc

selected_row :
    (excluded : List ℕ) (row : PreviewRow)
    → is_selected excluded row ≡ true
    → (row.status ≡ RowStatus.planned) × (Member row.library_id excluded → ⊥)
selected_row excluded row h = (
  planned_status row.status (ground arith),
  λ m. absurd (ground (arith, Member-any row.library_id excluded m)),
)

no_mark :
    (status : RowStatus)
    → status ≡ RowStatus.planned
    → (elim status [ archived ↦ true | _ ↦ false ] ≡ false)
      × (elim status [ skipped ↦ true | _ ↦ false ] ≡ false)
no_mark status e = (rw e refl, rw e refl)

one : (p : PreviewRow → Bool) (row : PreviewRow) → tally p (row ∷ []) ≡ (if p row then 1 else 0)
unfolding tally
one p row = ground arith

record_outcome-Tallies :
    (env : Env) (now : ℕ) (root : Text) (row : PreviewRow) (s : Run) (r : Outcome × World)
    → row.status ≡ RowStatus.planned
    → HasEntry env now root row s.world r
    → Tallies (row ∷ []) ((record_outcome row s r).0 ∷ []) s (record_outcome row s r).1
record_outcome-Tallies env now root row s (failed err, w) p e =
    let (a, k) = no_mark row.status p in
    record {
      archived_rows =
          ground (
            arith,
            one is_archived row,
            one is_archived (record_outcome row s (failed err, w)).0,
            a,
          );
      skipped_rows =
          ground
            (arith, one is_skipped row, one is_skipped (record_outcome row s (failed err, w)).0, k);
      done_rows = omega arith;
      errors = omega arith;
      entries = omega (arith, ap length e);
    }
record_outcome-Tallies env now root row s (moved dest, w) p (entry, e) =
    let (a, k) = no_mark row.status p in
    record {
      archived_rows =
          ground (
            arith,
            one is_archived row,
            one is_archived (record_outcome row s (moved dest, w)).0,
            a,
          );
      skipped_rows =
          ground
            (arith, one is_skipped row, one is_skipped (record_outcome row s (moved dest, w)).0, k);
      done_rows = omega arith;
      errors = omega arith;
      entries = omega (arith, ap length e, length-append s.world.manifest (entry ∷ []));
    }

-- What one turn of the pass does and what the rest does add up.
step-Tallies :
    (row row' : PreviewRow) (rows rows' : List PreviewRow) (s u v : Run)
    → Tallies (row ∷ []) (row' ∷ []) s u
    → Tallies rows rows' u v
    → Tallies (row ∷ rows) (row' ∷ rows') s v
step-Tallies row row' rows rows' s u v here later = record {
  archived_rows = omega (
    arith,
    here.archived_rows,
    later.archived_rows,
    both is_archived row rows,
    both is_archived row' rows',
  );
  skipped_rows = omega (
    arith,
    here.skipped_rows,
    later.skipped_rows,
    both is_skipped row rows,
    both is_skipped row' rows',
  );
  done_rows = omega (arith, here.done_rows, later.done_rows);
  errors = omega (arith, here.errors, later.errors);
  entries = omega (arith, here.entries, later.entries);
}
  where
    both :
        (p : PreviewRow → Bool) (row : PreviewRow) (rows : List PreviewRow)
        → tally p (row ∷ rows) ≡ tally p (row ∷ []) + tally p rows
    both p row rows = omega (arith, tally-cons p row rows, tally-cons p row [], tally-nil p)

same-Tallies : (rows : List PreviewRow) (s : Run) → Tallies rows rows s s
same-Tallies rows s = record {
  archived_rows = refl;
  skipped_rows = refl;
  done_rows = refl;
  errors = refl;
  entries = refl;
}

outcome_status :
    (row : PreviewRow) (s : Run) (r : Outcome × World)
    → ((record_outcome row s r).0.status ≡ RowStatus.archived)
      ⊎ ((record_outcome row s r).0.status ≡ RowStatus.skipped)
outcome_status row s (failed err, w) = inr refl
outcome_status row s (moved dest, w) = inl refl

module _ (env : Env) (clock : ℕ → ℕ) (stopped : ℕ → Bool) (root : Text) (excluded : List ℕ)
    (writes : (e : ManifestEntry) → env.manifest_fails e ≡ false) where
  apply_row-IsCounted :
      (i : ℕ) (row : PreviewRow) (s : Run)
      → Turned excluded row (apply_row env clock stopped root excluded i row s).0
        × Tallies
            (row ∷ [])
            ((apply_row env clock stopped root excluded i row s).0 ∷ [])
            s
            (apply_row env clock stopped root excluded i row s).1
  unfolding apply_row
  apply_row-IsCounted i row s = elim (Bool-cases (is_selected excluded row)) [
    | inl e ↦
        let (p, free) = selected_row excluded row e in
        rw e (
          inr (p, free, outcome_status row s (archive env (clock i) root row s.world)),
          record_outcome-Tallies env (clock i) root row s _ p
              (archive-HasEntry env (clock i) root row s.world writes),
        )
    | inr e ↦ rw e (kept_row excluded row e, same-Tallies (row ∷ []) s)
  ]

  -- After a pass that is not cut short, where the manifest can be written: a row that was not planned
  -- or that the operator excludes is as it was, and any other is archived or skipped. The counters of
  -- archived and skipped rows have grown by the rows that became so, the done ones and the errors with
  -- them, and the manifest has one more entry for each row archived.
  pub apply_from-IsCounted :
      (i : ℕ) (rows : List PreviewRow) (s : Run)
      → (apply_from env clock stopped root excluded i rows s).0 ≡ true
      → IsCounted excluded rows
          (apply_from env clock stopped root excluded i rows s).1
          s
          (apply_from env clock stopped root excluded i rows s).2
  unfolding apply_from
  apply_from-IsCounted i [] s h = record { turned = tt; tallies = same-Tallies [] s }
  apply_from-IsCounted i (row ∷ rows) s h = elim (Bool-cases (stopped i)) [
    | inl e ↦ absurd (false_true (rw e at h))
    | inr e ↦
        let turn = apply_row env clock stopped root excluded i row s in
        let (turned, here) = apply_row-IsCounted i row s in
        let later = apply_from-IsCounted (suc i) rows turn.1 (rw e at h) in
        rw e (record {
          turned = (turned, later.turned);
          tallies = step-Tallies row turn.0 rows _ s turn.1 _ here later.tallies;
        })
  ]
    where
      false_true : false ≡ true → ⊥
      false_true q = cc
