-- ===== src/Download/Failure/Entries.antt =====
-- internal/download/failure.go: the entry that a failure writes.
use romarr.Base.{◌≡◌, refl, Bool, true, false, ◌&&◌, ◌||◌, List, [], ◌∷◌, ◌++◌, any, arith}
use romarr.Base.Text.{Text, is_empty, text_eq, text_eq_iff}
use romarr.Base.Dict.{text_key}
use romarr.Download.Model.{Job, JobStore, Blocklist, BlocklistEntry}
use romarr.Download.Blocklist.{no_faults, has_url, has_hash, is_blocklisted, add_blocklist_entry}
use romarr.Download.Blocklist.Laws.{names_release, none_given, no_hash_given}
use romarr.Download.Failure.{blocklist_release, release_entry}

pub any-append :
    (p : BlocklistEntry → Bool) (xs ys : List BlocklistEntry)
    → any p (xs ++ ys) ≡ (any p xs || any p ys)
any-append p [] ys = refl
any-append p (x ∷ xs) ys = ground (arith, any-append p xs ys)

text_eq-same : (t : Text) → text_eq t t ≡ true
text_eq-same t = (text_eq_iff t t).1 refl

-- The entry that the failure writes.
abbrev pub written_entry : Text → Job → Blocklist → BlocklistEntry
written_entry reason job b = record (release_entry job reason) { id = b.next_id }

pub blocklist_release-entries :
    (id reason : Text) (job : Job) (s : JobStore)
    → (is_empty job.download_url && is_empty job.torrent_hash) ≡ false
    → is_blocklisted no_faults job.download_url job.torrent_hash s.blocklist ≡ false
    → (blocklist_release no_faults id reason job s).blocklist.entries
      ≡ s.blocklist.entries ++ written_entry reason job s.blocklist ∷ []
unfolding blocklist_release add_blocklist_entry
blocklist_release-entries id reason job s h k = rw (h, k) refl

pub written-named :
    (reason : Text) (job : Job) (b : Blocklist)
    → (is_empty job.download_url && is_empty job.torrent_hash) ≡ false
    → names_release job.download_url job.torrent_hash (written_entry reason job b) ≡ true
written-named reason job b h =
    ground (arith, text_eq-same job.download_url, text_eq-same job.torrent_hash)

any-names :
    (url hash : Text) (es : List BlocklistEntry)
    → any (names_release url hash) es ≡ (any (has_url url) es || any (has_hash hash) es)
any-names url hash [] = refl
any-names url hash (e ∷ es) = ground (arith, any-names url hash es)

-- Where no query fails, a release is blocklisted if an entry names it.
pub is_blocklisted-names :
    (url hash : Text) (b : Blocklist)
    → is_blocklisted no_faults url hash b ≡ any (names_release url hash) b.entries
unfolding is_blocklisted
is_blocklisted-names url hash b =
    ground
      (arith, any-names url hash b.entries, none_given url b.entries, no_hash_given hash b.entries)
