-- ===== src/Download/Failure/Laws.antt =====
-- internal/download/failure.go: a failure is reported once, and blocklists the release that caused it.
use romarr.Base.{
  ◌≡◌, refl, sym, ap, ◌∙◌, inl, inr, Bool, true, false, not, ◌&&◌, some, List, [], ◌∷◌, ◌++◌, any,
  keep, if◌then◌else◌, subst, Bool-cases, arith,
}
use mathlib.Core.List.{append-nil}
use romarr.Base.Text.{Text, codes, is_empty, text_eq}
use romarr.Base.Dict.{lookup, text_key}
use romarr.Download.Model.{Job, JobStore, Blocklist, BlocklistEntry, update_multi, log_activity}
use romarr.Download.Blocklist.{Faults, no_faults, is_blocklisted, remove_blocklist_for}
use romarr.Download.Blocklist.Laws.{names_release, keep_all, remove_blocklist_for-clears}
use romarr.Download.Failure.{
  FailCause, failed_job, blocklist_release, blame, fail_found, fail_job_detail,
}
use romarr.Download.Failure.Entries.{
  any-append, blocklist_release-entries, is_blocklisted-names, written-named, written_entry,
}

blocklist_release-blocks :
    (id reason : Text) (job : Job) (s : JobStore)
    → (is_empty job.download_url && is_empty job.torrent_hash) ≡ false
    → is_blocklisted no_faults job.download_url job.torrent_hash
        (blocklist_release no_faults id reason job s).blocklist
      ≡ true
unfolding blocklist_release
blocklist_release-blocks id reason job s h =
    elim (Bool-cases (is_blocklisted no_faults job.download_url job.torrent_hash s.blocklist)) [
      | inl e ↦ ap (is_blocklisted no_faults job.download_url job.torrent_hash) (kept e) ∙ e
      | inr e ↦
          is_blocklisted-names job.download_url job.torrent_hash _
          ∙ ap (any (names_release job.download_url job.torrent_hash))
              (blocklist_release-entries id reason job s h e)
          ∙ any-append (names_release job.download_url job.torrent_hash) s.blocklist.entries _
          ∙ ground (arith, written-named reason job s.blocklist h)
    ]
  where
    kept :
        is_blocklisted no_faults job.download_url job.torrent_hash s.blocklist ≡ true
        → (blocklist_release no_faults id reason job s).blocklist ≡ s.blocklist
    kept e = rw (h, e) refl

keep-append :
    (p : BlocklistEntry → Bool) (xs ys : List BlocklistEntry)
    → keep p (xs ++ ys) ≡ keep p xs ++ keep p ys
unfolding keep
keep-append p [] ys = refl
keep-append p (x ∷ xs) ys = ground (arith, keep-append p xs ys)

dropped :
    (test : BlocklistEntry → Bool) (e : BlocklistEntry) (es : List BlocklistEntry)
    → test e ≡ true
    → es ++ keep (λ d. not (test d)) (e ∷ []) ≡ es
unfolding keep
dropped test e es h = rw h (append-nil es)

-- The removal of a release takes back the entry that its failure wrote.
blocklist_release-undone :
    (id reason : Text) (job : Job) (s : JobStore)
    → (is_empty job.download_url && is_empty job.torrent_hash) ≡ false
    → is_blocklisted no_faults job.download_url job.torrent_hash s.blocklist ≡ false
    → (remove_blocklist_for no_faults job.download_url job.torrent_hash
        (blocklist_release no_faults id reason job s).blocklist).1.entries
      ≡ s.blocklist.entries
blocklist_release-undone id reason job s h k =
    let test = names_release job.download_url job.torrent_hash in
    (remove_blocklist_for-clears job.download_url job.torrent_hash _).0
    ∙ ap (keep (λ e. not (test e))) (blocklist_release-entries id reason job s h k)
    ∙ keep-append (λ e. not (test e)) s.blocklist.entries _
    ∙ ap (λ es. es ++ keep (λ e. not (test e)) (written_entry reason job s.blocklist ∷ []))
        (keep_all test s.blocklist.entries
          (sym (is_blocklisted-names job.download_url job.torrent_hash s.blocklist) ∙ k))
    ∙ dropped test (written_entry reason job s.blocklist) s.blocklist.entries
        (written-named reason job s.blocklist h)

-- What the causes of a failure do to the blocklist.
fail_job_detail-live :
    (faults : Faults) (id reason detail : Text) (cause : FailCause) (s : JobStore) {job : Job}
    → is_empty id ≡ false
    → lookup id s.jobs ≡ some job
    → text_eq job.status (codes "error") ≡ false
    → fail_job_detail faults id reason detail cause s
      ≡ blame faults cause id reason job (
          log_activity
            (codes "download_failed")
            job.title
            reason
            id
            (record s { jobs = update_multi id (failed_job reason detail) s.jobs }))
unfolding fail_job_detail
fail_job_detail-live faults id reason detail cause s {job} named found live =
    present named ∙ ap (fail_found faults id reason detail cause s) found ∙ alive live
  where
    present :
        is_empty id ≡ false
        → fail_job_detail faults id reason detail cause s
          ≡ fail_found faults id reason detail cause s (lookup id s.jobs)
    present e = rw e refl

    alive :
        text_eq job.status (codes "error") ≡ false
        → fail_found faults id reason detail cause s (some job)
          ≡ blame faults cause id reason job (
              log_activity
                (codes "download_failed")
                job.title
                reason
                id
                (record s { jobs = update_multi id (failed_job reason detail) s.jobs }))
    alive e = rw e refl

-- What a failure of the release adds to the entries: nothing if its URL or its hash was listed, else
-- one entry with both.
abbrev pub IsAdded : Job → Blocklist → List BlocklistEntry → Type 0
IsAdded job b entries =
    (e : BlocklistEntry) × (entries ≡ (
      if is_blocklisted no_faults job.download_url job.torrent_hash b
      then b.entries
      else b.entries ++ e ∷ []))
    × (e.download_url ≡ job.download_url)
    × (e.info_hash ≡ job.torrent_hash)

blocklist_release-IsAdded :
    (id reason : Text) (job : Job) (s : JobStore)
    → (is_empty job.download_url && is_empty job.torrent_hash) ≡ false
    → IsAdded job s.blocklist (blocklist_release no_faults id reason job s).blocklist.entries
unfolding blocklist_release
blocklist_release-IsAdded id reason job s h =
    elim (Bool-cases (is_blocklisted no_faults job.download_url job.torrent_hash s.blocklist)) [
      | inl e ↦ (written_entry reason job s.blocklist, rw (h, e) refl, refl, refl)
      | inr e ↦ (
        written_entry reason job s.blocklist,
        blocklist_release-entries id reason job s h e ∙ rw e refl,
        refl,
        refl,
      )
    ]

-- A live job with a URL or a hash that fails, where no statement does: if the cause is local, the
-- blocklist stays as it is; if it is the release, one of its URL and hash is blocklisted afterwards,
-- and nothing was added if one was before, else one entry with both.
pub fail_job_detail-blocklist :
    (id reason detail : Text) (s : JobStore) {job : Job}
    → is_empty id ≡ false
    → lookup id s.jobs ≡ some job
    → text_eq job.status (codes "error") ≡ false
    → (is_empty job.download_url && is_empty job.torrent_hash) ≡ false
    → ((fail_job_detail no_faults id reason detail FailCause.local s).blocklist ≡ s.blocklist)
      × (is_blocklisted no_faults job.download_url job.torrent_hash
            (fail_job_detail no_faults id reason detail FailCause.release s).blocklist
          ≡ true)
      × IsAdded job s.blocklist
          (fail_job_detail no_faults id reason detail FailCause.release s).blocklist.entries
fail_job_detail-blocklist id reason detail s {job} named found live h = (
  ap (λ u. u.blocklist)
      (fail_job_detail-live no_faults id reason detail FailCause.local s named found live),
  ap (λ u. is_blocklisted no_faults job.download_url job.torrent_hash u.blocklist)
        (fail_job_detail-live no_faults id reason detail FailCause.release s named found live)
      ∙ blocklist_release-blocks id reason job _ h,
  subst (λ u. IsAdded job s.blocklist u.blocklist.entries)
      (sym (fail_job_detail-live no_faults id reason detail FailCause.release s named found live))
      (blocklist_release-IsAdded id reason job _ h),
)

-- For a live job with a URL or a hash that was not blocklisted, where no statement fails: taking
-- its release off the blocklist after the failure of the job gives back the entries before it.
pub fail_job_detail-undone :
    (id reason detail : Text) (cause : FailCause) (s : JobStore) {job : Job}
    → is_empty id ≡ false
    → lookup id s.jobs ≡ some job
    → text_eq job.status (codes "error") ≡ false
    → (is_empty job.download_url && is_empty job.torrent_hash) ≡ false
    → is_blocklisted no_faults job.download_url job.torrent_hash s.blocklist ≡ false
    → (remove_blocklist_for no_faults job.download_url job.torrent_hash
        (fail_job_detail no_faults id reason detail cause s).blocklist).1.entries
      ≡ s.blocklist.entries
fail_job_detail-undone id reason detail cause s {job} named found live h k =
    ap
      (λ u.
        (remove_blocklist_for no_faults job.download_url job.torrent_hash u.blocklist).1.entries)
      (fail_job_detail-live no_faults id reason detail cause s named found live)
    ∙ undone cause
  where
    changed : JobStore
    changed =
        log_activity (codes "download_failed") job.title reason id
          (record s { jobs = update_multi id (failed_job reason detail) s.jobs })

    undone :
        (cause : FailCause)
        → (remove_blocklist_for no_faults job.download_url job.torrent_hash
            (blame no_faults cause id reason job changed).blocklist).1.entries
          ≡ s.blocklist.entries
    undone FailCause.local =
        (remove_blocklist_for-clears job.download_url job.torrent_hash s.blocklist).0
        ∙ keep_all (names_release job.download_url job.torrent_hash) s.blocklist.entries
            (sym (is_blocklisted-names job.download_url job.torrent_hash s.blocklist) ∙ k)
    undone FailCause.release = blocklist_release-undone id reason job changed h k
