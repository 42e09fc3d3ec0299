-- ===== src/Download/Blocklist.antt =====
-- internal/db/blocklist.go: the statements on the table, and the handler of internal/api that adds an entry
-- by hand. Which statements the database refuses is an argument.
pub mod Laws
use romarr.Base.{
  ℕ, suc, ◌+◌, ◌-◌, Bool, false, not, ◌&&◌, ◌||◌, Option, none, some, [], ◌∷◌, ◌++◌, if◌then◌else◌,
  any, keep, length, ◌==◌,
}
use romarr.Base.Text.{Text, is_empty, text_eq}
use romarr.Download.Model.{BlocklistEntry, Blocklist}

pub record Faults : Type 0 where
  pub read_url : Bool
  pub read_hash : Bool
  pub insert_row : Bool
  pub delete_url : Bool
  pub delete_hash : Bool

abbrev pub no_faults : Faults
no_faults = record {
  read_url = false;
  read_hash = false;
  insert_row = false;
  delete_url = false;
  delete_hash = false;
}

-- `download_url = ? AND download_url != ''`
abbrev pub has_url : Text → BlocklistEntry → Bool
has_url url e = not (is_empty url) && text_eq e.download_url url

abbrev pub has_hash : Text → BlocklistEntry → Bool
has_hash hash e = not (is_empty hash) && text_eq e.info_hash hash

unfoldable pub add_blocklist_entry : Faults → BlocklistEntry → Blocklist → Option ℕ × Blocklist
add_blocklist_entry faults entry b = if faults.insert_row then (none, b) else (
  some b.next_id,
  record { next_id = suc b.next_id; entries = b.entries ++ record entry { id = b.next_id } ∷ [] },
)

unfoldable pub delete_blocklist_entry : ℕ → Blocklist → Blocklist
delete_blocklist_entry id b = record b { entries = keep (λ e. not (e.id == id)) b.entries }

unfoldable pub clear_blocklist : Blocklist → ℕ × Blocklist
clear_blocklist b = (length b.entries, record b { entries = [] })

-- A query that fails counts no row.
unfoldable pub is_blocklisted : Faults → Text → Text → Blocklist → Bool
is_blocklisted faults url hash b =
    not (is_empty url) && not faults.read_url && any (has_url url) b.entries
    || not (is_empty hash) && not faults.read_hash && any (has_hash hash) b.entries

-- `DELETE FROM blocklist WHERE ...` with the number of rows it affects.
abbrev pub delete_where : Bool → (BlocklistEntry → Bool) → ℕ × Blocklist → ℕ × Blocklist
delete_where skipped test (removed, b) = if skipped then (removed, b) else (
  removed + (length b.entries - length (keep (λ e. not (test e)) b.entries)),
  record b { entries = keep (λ e. not (test e)) b.entries },
)

unfoldable pub remove_blocklist_for : Faults → Text → Text → Blocklist → ℕ × Blocklist
remove_blocklist_for faults url hash b =
    delete_where (is_empty hash || faults.delete_hash) (has_hash hash)
      (delete_where (is_empty url || faults.delete_url) (has_url url) (0, b))

-- `handleAddBlocklistEntry` of a decoded request: an entry needs a URL or a hash.
unfoldable pub handle_add_entry : Faults → BlocklistEntry → Blocklist → Option ℕ × Blocklist
unfolding add_blocklist_entry
handle_add_entry faults entry b =
    if is_empty entry.download_url && is_empty entry.info_hash
    then (none, b)
    else add_blocklist_entry faults entry b
