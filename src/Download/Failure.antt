-- ===== src/Download/Failure.antt =====
-- internal/download/failure.go: a job that fails, and the release it blocklists.
pub mod Once
pub mod Entries
pub mod Laws
pub mod Trace
use romarr.Base.{ℕ, not, ◌&&◌, Option, none, some, [], if◌then◌else◌}
use romarr.Base.Text.{Text, codes, is_empty, text_eq}
use romarr.Base.Dict.{lookup, text_key}
use romarr.Download.Model.{Job, JobStore, Blocklist, BlocklistEntry, update_multi, log_activity}
use romarr.Download.Blocklist.{Faults, add_blocklist_entry, is_blocklisted}

pub data FailCause : Type 0 where
  local release : FailCause

unfoldable pub blocklist_source : Job → Text
blocklist_source job =
    if not (is_empty job.source_client)
    then job.source_client
    else if not (is_empty job.source_type)
    then job.source_type
    else codes "unknown"

abbrev pub release_entry : Job → Text → BlocklistEntry
release_entry job reason = record {
  id = 0;
  title = job.title;
  source = blocklist_source job;
  download_url = job.download_url;
  info_hash = job.torrent_hash;
  reason = reason;
}

abbrev pub after_add : Text → Text → Job → JobStore → Option ℕ × Blocklist → JobStore
after_add id reason job s (none, b) = s
after_add id reason job s (some i, b) =
    log_activity (codes "release_blocklisted") job.title reason id (record s { blocklist = b })

unfoldable pub blocklist_release : Faults → Text → Text → Job → JobStore → JobStore
unfolding add_blocklist_entry
blocklist_release faults id reason job s =
    if is_empty job.download_url && is_empty job.torrent_hash
    then s
    else if is_blocklisted faults job.download_url job.torrent_hash s.blocklist
    then s
    else after_add id reason job s
        (add_blocklist_entry faults (release_entry job reason) s.blocklist)

abbrev pub failed_job : Text → Text → Job → Job
failed_job reason detail job = record job {
  status = codes "error";
  error = reason;
  detail = if is_empty detail then job.detail else detail;
}

abbrev pub blame : Faults → FailCause → Text → Text → Job → JobStore → JobStore
blame faults FailCause.local id reason job s = s
blame faults FailCause.release id reason job s = blocklist_release faults id reason job s

abbrev pub fail_found : Faults → Text → Text → Text → FailCause → JobStore → Option Job → JobStore
fail_found faults id reason detail cause s none = s
fail_found faults id reason detail cause s (some job) =
    if text_eq job.status (codes "error")
    then s
    else blame faults cause id reason job (
        log_activity (codes "download_failed") job.title reason id
          (record s { jobs = update_multi id (failed_job reason detail) s.jobs }))

unfoldable pub fail_job_detail : Faults → Text → Text → Text → FailCause → JobStore → JobStore
unfolding blocklist_release update_multi
fail_job_detail faults id reason detail cause s =
    if is_empty id then s else fail_found faults id reason detail cause s (lookup id s.jobs)

unfoldable pub fail_job : Faults → Text → Text → FailCause → JobStore → JobStore
unfolding fail_job_detail
fail_job faults id reason cause s = fail_job_detail faults id reason [] cause s
