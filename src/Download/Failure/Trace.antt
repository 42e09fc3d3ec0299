-- ===== src/Download/Failure/Trace.antt =====
-- internal/download/failure.go, internal/db/blocklist.go and internal/api/blocklist.go: everything that
-- writes to the blocklist.
use romarr.Base.{
  ℕ, ◌≡◌, refl, inl, inr, Bool, true, false, not, ◌&&◌, ◌||◌, List, [], ◌∷◌, All, All-append,
  keep-All, Bool-cases, Option-cases, arith,
}
use romarr.Base.Text.{Text, codes, is_empty, text_eq}
use romarr.Base.Dict.{lookup, text_key}
use romarr.Download.Model.{Job, JobStore, Blocklist, BlocklistEntry}
use romarr.Download.Blocklist.{
  Faults, has_url, has_hash, is_blocklisted, add_blocklist_entry, delete_blocklist_entry,
  clear_blocklist, delete_where, remove_blocklist_for, handle_add_entry,
}
use romarr.Download.Failure.{FailCause, blocklist_release, blame, fail_job_detail}

pub data Event : Type 0 where
  failure : Text → Text → Text → FailCause → Event
  by_hand : BlocklistEntry → Event
  delete : ℕ → Event
  clear : Event
  override : Text → Text → Event

-- One write, with the statements that the database refuses in it.
unfoldable pub step : Faults → Event → JobStore → JobStore
unfolding fail_job_detail handle_add_entry delete_blocklist_entry clear_blocklist
    remove_blocklist_for
step faults (failure id reason detail cause) s = fail_job_detail faults id reason detail cause s
step faults (by_hand entry) s = record s {
  blocklist = (handle_add_entry faults entry s.blocklist).1;
}
step faults (delete id) s = record s { blocklist = delete_blocklist_entry id s.blocklist }
step faults clear s = record s { blocklist = (clear_blocklist s.blocklist).1 }
step faults (override url hash) s = record s {
  blocklist = (remove_blocklist_for faults url hash s.blocklist).1;
}

unfoldable pub run : List (Faults × Event) → JobStore → JobStore
unfolding step
run [] s = s
run ((faults, event) ∷ events) s = run events (step faults event s)

-- It has something that a search result can be compared with.
abbrev pub is_identified : BlocklistEntry → Bool
is_identified e = not (is_empty e.download_url && is_empty e.info_hash)

abbrev pub AllIdentified : Blocklist → Type 0
AllIdentified b = All (λ e. is_identified e ≡ true) b.entries

add-AllIdentified :
    (faults : Faults) (entry : BlocklistEntry) (b : Blocklist)
    → is_identified entry ≡ true
    → AllIdentified b
    → AllIdentified (add_blocklist_entry faults entry b).1
unfolding add_blocklist_entry
add-AllIdentified faults entry b h all = elim (Bool-cases faults.insert_row) [
  | inl e ↦ rw e all
  | inr e ↦ rw e (All-append (λ e. is_identified e ≡ true) b.entries _ all (h, tt))
]

after_add-AllIdentified :
    (faults : Faults) (id reason : Text) (job : Job) (s : JobStore)
    → (is_empty job.download_url && is_empty job.torrent_hash) ≡ false
    → AllIdentified s.blocklist
    → AllIdentified (blocklist_release faults id reason job s).blocklist
unfolding blocklist_release add_blocklist_entry
after_add-AllIdentified faults id reason job s h all =
    elim (Bool-cases (is_blocklisted faults job.download_url job.torrent_hash s.blocklist)) [
      | inl q ↦ rw (h, q) all
      | inr q ↦ elim (Bool-cases faults.insert_row) [
        | inl r ↦ rw (h, q, r) all
        | inr r ↦
            rw (h, q, r)
              (All-append (λ e. is_identified e ≡ true) s.blocklist.entries _ all
                (ground arith, tt))
      ]
    ]

blame-AllIdentified :
    (faults : Faults) (cause : FailCause) (id reason : Text) (job : Job) (s : JobStore)
    → AllIdentified s.blocklist
    → AllIdentified (blame faults cause id reason job s).blocklist
unfolding blocklist_release
blame-AllIdentified faults FailCause.local id reason job s all = all
blame-AllIdentified faults FailCause.release id reason job s all =
    elim (Bool-cases (is_empty job.download_url && is_empty job.torrent_hash)) [
      | inl e ↦ rw e all
      | inr e ↦ after_add-AllIdentified faults id reason job s e all
    ]

fail-AllIdentified :
    (faults : Faults) (id reason detail : Text) (cause : FailCause) (s : JobStore)
    → AllIdentified s.blocklist
    → AllIdentified (fail_job_detail faults id reason detail cause s).blocklist
unfolding fail_job_detail
fail-AllIdentified faults id reason detail cause s all = elim (Bool-cases (is_empty id)) [
  | inl e ↦ rw e all
  | inr e ↦ elim (Option-cases (lookup id s.jobs)) [
    | inl q ↦ rw (e, q) all
    | inr (job, q) ↦ elim (Bool-cases (text_eq job.status (codes "error"))) [
      | inl t ↦ rw (e, q, t) all
      | inr t ↦ rw (e, q, t) (blame-AllIdentified faults cause id reason job _ all)
    ]
  ]
]

delete_where-AllIdentified :
    (skipped : Bool) (test : BlocklistEntry → Bool) (r : ℕ × Blocklist)
    → AllIdentified r.1
    → AllIdentified (delete_where skipped test r).1
delete_where-AllIdentified true test r all = all
delete_where-AllIdentified false test r all =
    keep-All (λ e. is_identified e ≡ true) (λ e. not (test e)) r.1.entries all

step-AllIdentified :
    (faults : Faults) (event : Event) (s : JobStore)
    → AllIdentified s.blocklist
    → AllIdentified (step faults event s).blocklist
unfolding step handle_add_entry delete_blocklist_entry clear_blocklist remove_blocklist_for
step-AllIdentified faults (failure id reason detail cause) s all =
    fail-AllIdentified faults id reason detail cause s all
step-AllIdentified faults (by_hand entry) s all =
    elim (Bool-cases (is_empty entry.download_url && is_empty entry.info_hash)) [
      | inl e ↦ rw e all
      | inr e ↦ rw e (add-AllIdentified faults entry s.blocklist (rw e refl) all)
    ]
step-AllIdentified faults (delete id) s all =
    keep-All (λ e. is_identified e ≡ true) _ s.blocklist.entries all
step-AllIdentified faults clear s all = tt
step-AllIdentified faults (override url hash) s all =
    delete_where-AllIdentified (is_empty hash || faults.delete_hash) (has_hash hash) _ (
      delete_where-AllIdentified (is_empty url || faults.delete_url) (has_url url) (0, s.blocklist)
        all)

-- Whatever is written to a blocklist whose entries have a URL or a hash, whichever statements the
-- database refuses, its entries have a URL or a hash.
pub run-AllIdentified :
    (events : List (Faults × Event)) (s : JobStore)
    → AllIdentified s.blocklist
    → AllIdentified (run events s).blocklist
unfolding run
run-AllIdentified [] s all = all
run-AllIdentified ((faults, event) ∷ events) s all =
    run-AllIdentified events (step faults event s) (step-AllIdentified faults event s all)
