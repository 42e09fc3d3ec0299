-- ===== src/Download/Sets/Updates.antt =====
-- internal/download/discset.go: the marks on the jobs of a set.
use romarr.Base.{
  ◌≡◌, refl, sym, ap, subst, ◌∙◌, inl, inr, true, false, none, some, List, [], ◌∷◌, Any, Member,
  Bool-cases, Option-cases,
}
use romarr.Base.Text.{Text, text_eq, text_eq_iff}
use romarr.Base.Dict.{lookup, insert, text_key}
use romarr.Download.Model.{Job, Jobs, update_multi}
use romarr.Download.Sets.{DiscSetMember, mark_all, set_final}

-- No two jobs have one id, as in the store's map.
abbrev pub IsKeyed : Jobs → Type 0
IsKeyed [] = Unit
IsKeyed ((k, job) ∷ jobs) = (lookup k jobs ≡ none) × IsKeyed jobs

-- A job of the set is finalized.
abbrev pub IsMarked : Text → Jobs → Type 0
IsMarked id = Any (λ (p : Text × Job). (p.1.disc_set_id ≡ id) × (p.1.set_finalized ≡ true))

update-here :
    (k i : Text) (change : Job → Job) (job : Job) (jobs : Jobs)
    → text_eq i k ≡ true
    → update_multi k change ((i, job) ∷ jobs) ≡ (k, change job) ∷ jobs
unfolding update_multi lookup insert
update-here k i change job jobs h = rw h (rw h refl)

update-there :
    (k i : Text) (change : Job → Job) (job : Job) (jobs : Jobs)
    → text_eq i k ≡ false
    → update_multi k change ((i, job) ∷ jobs) ≡ (i, job) ∷ update_multi k change jobs
unfolding update_multi lookup insert
update-there k i change job jobs h = elim (Option-cases (lookup k jobs)) [
  | inl e ↦ rw (h, e) refl
  | inr (found, e) ↦ rw (h, e) (rw h refl)
]

update-nil : (k : Text) (change : Job → Job) → update_multi k change [] ≡ []
unfolding update_multi lookup
update-nil k change = refl

-- A mark stays.
update-IsMarked :
    (id k detail : Text) (jobs : Jobs)
    → IsMarked id jobs
    → IsMarked id (update_multi k (set_final detail) jobs)
update-IsMarked id k detail [] m = absurd m
update-IsMarked id k detail ((i, job) ∷ jobs) m = elim (Bool-cases (text_eq i k)) [
  | inl e ↦ subst (IsMarked id) (sym (update-here k i (set_final detail) job jobs e)) (kept m)
  | inr e ↦
      subst (IsMarked id) (sym (update-there k i (set_final detail) job jobs e))
        (later (update-IsMarked id k detail jobs) m)
]
  where
    kept : IsMarked id ((i, job) ∷ jobs) → IsMarked id ((k, set_final detail job) ∷ jobs)
    kept (inl h) = inl (h.0, refl)
    kept (inr h) = inr h

    later :
        (IsMarked id jobs → IsMarked id (update_multi k (set_final detail) jobs))
        → IsMarked id ((i, job) ∷ jobs)
        → IsMarked id ((i, job) ∷ update_multi k (set_final detail) jobs)
    later f (inl h) = inl h
    later f (inr h) = inr (f h)

pub mark_all-IsMarked :
    (id detail : Text) (ms : List DiscSetMember) (jobs : Jobs)
    → IsMarked id jobs
    → IsMarked id (mark_all detail ms jobs)
unfolding mark_all
mark_all-IsMarked id detail [] jobs h = h
mark_all-IsMarked id detail (m ∷ ms) jobs h =
    mark_all-IsMarked id detail ms _ (update-IsMarked id m.job_id detail jobs h)

IsKeyed-absent :
    (k : Text) (job : Job) (jobs : Jobs) → lookup k jobs ≡ none → Member (k, job) jobs → ⊥
unfolding lookup
IsKeyed-absent k job [] h m = m
IsKeyed-absent k job ((i, other) ∷ jobs) h m = elim (Bool-cases (text_eq i k)) [
  | inl e ↦ absurd (some_none (rw e at h))
  | inr e ↦ elim m [
    | inl q ↦
        absurd (true_false (sym ((text_eq_iff i k).1 (sym (ap (λ (p : Text × Job). p.0) q))) ∙ e))
    | inr there ↦ IsKeyed-absent k job jobs (rw e at h) there
  ]
]
  where
    some_none : {j : Job} → some j ≡ none → ⊥
    some_none q = cc

    true_false : true ≡ false → ⊥
    true_false q = cc

-- Finalizing the job of a member marks its set.
pub update-marks :
    (id k detail : Text) (job : Job) (jobs : Jobs)
    → IsKeyed jobs
    → Member (k, job) jobs
    → job.disc_set_id ≡ id
    → IsMarked id (update_multi k (set_final detail) jobs)
update-marks id k detail job [] keyed m h = absurd m
update-marks id k detail job ((i, other) ∷ jobs) keyed (inl q) h =
    subst (IsMarked id)
      (sym (
        update-here k i (set_final detail) other jobs
          ((text_eq_iff i k).1 (sym (ap (λ (p : Text × Job). p.0) q)))))
      (inl (ap (λ (p : Text × Job). p.1.disc_set_id) (sym q) ∙ h, refl))
update-marks id k detail job ((i, other) ∷ jobs) keyed (inr m) h = elim (Bool-cases (text_eq i k)) [
  | inl e ↦ absurd (
      IsKeyed-absent k job jobs (subst (λ t. lookup t jobs ≡ none) ((text_eq_iff i k).0 e) keyed.0)
        m)
  | inr e ↦
      subst (IsMarked id) (sym (update-there k i (set_final detail) other jobs e))
        (inr (update-marks id k detail job jobs keyed.1 m h))
]
