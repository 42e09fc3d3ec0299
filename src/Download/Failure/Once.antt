-- ===== src/Download/Failure/Once.antt =====
-- internal/download/failure.go: a failure is reported once.
use romarr.Base.{
  ◌≡◌, refl, sym, ap, ◌∙◌, inl, inr, true, false, ◌&&◌, none, some, Bool-cases, Option-cases,
}
use romarr.Base.Text.{Text, codes, is_empty, text_eq, text_eq_iff}
use romarr.Base.Dict.{lookup, insert, lookup-insert, text_key}
use romarr.Download.Model.{Job, Jobs, JobStore, update_multi}
use romarr.Download.Blocklist.{Faults, is_blocklisted, add_blocklist_entry}
use romarr.Download.Failure.{FailCause, failed_job, blocklist_release, blame, fail_job_detail}

blocklist_release-jobs :
    (faults : Faults) (id reason : Text) (job : Job) (s : JobStore)
    → (blocklist_release faults id reason job s).jobs ≡ s.jobs
unfolding blocklist_release add_blocklist_entry
blocklist_release-jobs faults id reason job s =
    elim (Bool-cases (is_empty job.download_url && is_empty job.torrent_hash)) [
      | inl e ↦ rw e refl
      | inr e ↦
          elim (Bool-cases (is_blocklisted faults job.download_url job.torrent_hash s.blocklist)) [
            | inl q ↦ rw (e, q) refl
            | inr q ↦ elim (Bool-cases faults.insert_row) [
              | inl r ↦ rw (e, q, r) refl
              | inr r ↦ rw (e, q, r) refl
            ]
          ]
    ]

blame-jobs :
    (faults : Faults) (cause : FailCause) (id reason : Text) (job : Job) (s : JobStore)
    → (blame faults cause id reason job s).jobs ≡ s.jobs
blame-jobs faults FailCause.local id reason job s = refl
blame-jobs faults FailCause.release id reason job s = blocklist_release-jobs faults id reason job s

update_multi-found :
    (id : Text) (change : Job → Job) (jobs : Jobs) {job : Job}
    → lookup id jobs ≡ some job
    → update_multi id change jobs ≡ insert id (change job) jobs
unfolding update_multi
update_multi-found id change jobs found = rw found refl

fail_job_detail-jobs :
    (faults : Faults) (id reason detail : Text) (cause : FailCause) (s : JobStore) {job : Job}
    → is_empty id ≡ false
    → lookup id s.jobs ≡ some job
    → text_eq job.status (codes "error") ≡ false
    → (fail_job_detail faults id reason detail cause s).jobs
      ≡ insert id (failed_job reason detail job) s.jobs
unfolding fail_job_detail update_multi
fail_job_detail-jobs faults id reason detail cause s {job} named found live =
    rw (named, found, live)
      (blame-jobs faults cause id reason job _
        ∙ update_multi-found id (failed_job reason detail) s.jobs found)

-- A job that failed stays as it is: another failure of it, of whatever cause, changes nothing.
pub fail_job_detail-twice :
    (faults : Faults) (id reason detail : Text) (cause : FailCause) (reason' detail' : Text)
    (cause' : FailCause) (s : JobStore)
    → fail_job_detail faults id reason' detail' cause'
        (fail_job_detail faults id reason detail cause s)
      ≡ fail_job_detail faults id reason detail cause s
unfolding fail_job_detail
fail_job_detail-twice faults id reason detail cause reason' detail' cause' s =
    elim (Bool-cases (is_empty id)) [
      | inl e ↦ unnamed (fail_job_detail faults id reason detail cause s) e
      | inr e ↦ elim (Option-cases (lookup id s.jobs)) [
        | inl q ↦
            ap (fail_job_detail faults id reason' detail' cause') (missing reason detail cause e q)
            ∙ missing reason' detail' cause' e q
            ∙ sym (missing reason detail cause e q)
        | inr (job, q) ↦ elim (Bool-cases (text_eq job.status (codes "error"))) [
          | inl t ↦
              ap (fail_job_detail faults id reason' detail' cause')
                (dead reason detail cause s e q t)
              ∙ dead reason' detail' cause' s e q t
              ∙ sym (dead reason detail cause s e q t)
          | inr t ↦
              dead reason' detail' cause' (fail_job_detail faults id reason detail cause s) e
                (ap (lookup id) (fail_job_detail-jobs faults id reason detail cause s e q t)
                  ∙ written reason detail job)
                refl
        ]
      ]
    ]
  where
    unnamed :
        (u : JobStore) → is_empty id ≡ true → fail_job_detail faults id reason' detail' cause' u ≡ u
    unnamed u e = rw e refl

    missing :
        (reason detail : Text) (cause : FailCause)
        → is_empty id ≡ false
        → lookup id s.jobs ≡ none
        → fail_job_detail faults id reason detail cause s ≡ s
    missing reason detail cause e q = rw (e, q) refl

    dead :
        (reason detail : Text) (cause : FailCause) (u : JobStore) {job : Job}
        → is_empty id ≡ false
        → lookup id u.jobs ≡ some job
        → text_eq job.status (codes "error") ≡ true
        → fail_job_detail faults id reason detail cause u ≡ u
    dead reason detail cause u e q t = rw (e, q, t) refl

    same : text_eq id id ≡ true
    same = (text_eq_iff id id).1 refl

    written :
        (reason detail : Text) (job : Job)
        → lookup id (insert id (failed_job reason detail job) s.jobs)
          ≡ some (failed_job reason detail job)
    written reason detail job =
        lookup-insert id id (failed_job reason detail job) s.jobs ∙ rw same refl
