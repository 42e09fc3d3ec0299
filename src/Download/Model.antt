-- ===== src/Download/Model.antt =====
-- internal/db/db.go and internal/db/blocklist.go: the job store as the download code reads and writes it. A
-- job's keys are fields; a missing key is the zero value that the source reads for it.
use romarr.Base.{ℕ, Bool, Option, none, some, List, [], ◌∷◌, ◌++◌}
use romarr.Base.Text.{Text}
use romarr.Base.Dict.{lookup, insert, text_key}

pub record Job : Type 0 where
  pub status : Text
  pub error : Text
  pub detail : Text
  pub title : Text
  pub download_url : Text
  pub torrent_hash : Text
  pub source_client : Text
  pub source_type : Text
  pub platform : Text
  pub disc_set_id : Text
  pub disc_index : ℕ
  pub disc_total : ℕ
  pub set_dir : Text
  pub set_started_at : ℕ
  pub set_member_done : Bool
  pub set_finalized : Bool

abbrev pub Jobs : Type 0
Jobs = List (Text × Job)

pub record BlocklistEntry : Type 0 where
  pub id : ℕ
  pub title : Text
  pub source : Text
  pub download_url : Text
  pub info_hash : Text
  pub reason : Text

-- The table, with the number its next row gets.
pub record Blocklist : Type 0 where
  pub next_id : ℕ
  pub entries : List BlocklistEntry

pub record Activity : Type 0 where
  pub event : Text
  pub title : Text
  pub detail : Text
  pub job : Text

-- The record of a disc set on its library row.
pub record SetMarker : Type 0 where
  pub id : Text
  pub total : ℕ
  pub have : List ℕ
  pub degraded : Bool
  pub repair_attempts : ℕ
  pub exhausted : Bool
  pub degraded_at : Text
  pub repaired_at : Text

-- A row of the library, by its source id.
pub record SetRow : Type 0 where
  pub title : Text
  pub marker : Option SetMarker

pub record JobStore : Type 0 where
  pub jobs : Jobs
  pub blocklist : Blocklist
  pub activity : List Activity
  pub library : List (Text × SetRow)

abbrev pub update_found : Text → (Job → Job) → Jobs → Option Job → Jobs
update_found id change jobs none = jobs
update_found id change jobs (some job) = insert id (change job) jobs

-- `UpdateMulti`
unfoldable pub update_multi : Text → (Job → Job) → Jobs → Jobs
update_multi id change jobs = update_found id change jobs (lookup id jobs)

-- `LogActivity`
abbrev pub log_activity : Text → Text → Text → Text → JobStore → JobStore
log_activity event title detail id s = record s {
  activity = s.activity ++ record { event = event; title = title; detail = detail; job = id } ∷ [];
}
