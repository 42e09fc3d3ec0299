-- ===== src/Prune/Disk.antt =====
-- internal/prune/prune.go: one file moved into the archive. A disk is a map from paths to contents;
-- what the operating system and the store refuse is an argument.
pub mod Moves
pub mod Laws
use romarr.Base.{
  ℕ, Bool, not, Option, none, some, List, [], ◌∷◌, ◌++◌, if◌then◌else◌, reverse, keep, ◌==◌,
  is_none,
}
use romarr.Base.Text.{Text, codes, is_empty, decimal}
use romarr.Base.Dict.{lookup, insert, remove, text_key}
use romarr.Collection.Model.{Tier}
use romarr.Prune.Model.{Verdict, PreviewRow}

-- A directory that moves as a whole is one entry.
abbrev pub Files : Type 0
Files = List (Text × ℕ)

pub record ManifestEntry : Type 0 where
  pub archived_at : ℕ
  pub platform : Text
  pub moved_from : Text
  pub moved_to : Text
  pub title : Text
  pub keeper : Text
  pub matched_by : Option Tier
  pub verdict : Verdict
  pub reason : Text
  pub library_id : ℕ

-- `library` holds the ids of the library's rows, `dirs` the directories that the archive made.
pub record World : Type 0 where
  pub files : Files
  pub library : List ℕ
  pub manifest : List ManifestEntry
  pub dirs : List Text

-- The errors of the calls that can fail, and the directories that `os.MkdirAll` makes, failing or not.
pub record Env : Type 0 where
  pub stat_error : Text
  pub mkdir_error : Text → Option Text
  pub mkdir_makes : Text → List Text
  pub rename_error : Text → Text → Option Text
  pub manifest_fails : ManifestEntry → Bool
  pub delete_fails : ℕ → Bool

abbrev pub exists : Text → Files → Bool
exists path files = not (is_none (lookup path files))

abbrev pub move_found : Text → Text → Files → Option ℕ → Files
move_found source dest files none = files
move_found source dest files (some content) = insert dest content (remove source files)

-- `os.Rename`; what stood at `dest` is gone.
unfoldable pub rename : Text → Text → Files → Files
rename source dest files = move_found source dest files (lookup source files)

-- `filepath.Join` of clean parts
abbrev pub join : Text → Text → Text
join dir name = if is_empty dir then name else dir ++ b'/' ∷ name

-- `name` cut before its last dot, if it has one; the first argument is the rest of it reversed.
abbrev cut_ext : Text → Text → Text → Text × Text
cut_ext name [] ext = (name, [])
cut_ext name (c ∷ before) ext =
    let rest = cut_ext name before (c ∷ ext) in
    if c == b'.' then (reverse before, c ∷ ext) else if c == b'/' then (name, []) else rest

unfoldable pub unique_name : ℕ → Text → Text
unique_name now name =
    let cut = cut_ext name (reverse name) [] in cut.0 ++ b'.' ∷ decimal now ++ cut.1

abbrev pub sidecar : Text → Text
sidecar path = path ++ codes ".gamarr.json"

abbrev pub archive_dir : Text → PreviewRow → Text
archive_dir root row = join root row.platform_slug

-- The plain name, or a name with the time in it where that one is taken.
unfoldable pub dest_of : ℕ → Text → PreviewRow → Files → Text
unfolding unique_name
dest_of now root row files =
    let dest = join (archive_dir root row) row.name in
    if exists dest files then join (archive_dir root row) (unique_name now row.name) else dest

abbrev pub move_unless : Option Text → Text → Text → Files → Files
move_unless (some err) source dest files = files
move_unless none source dest files = rename source dest files

unfoldable pub carry_sidecar : Env → PreviewRow → Text → Files → Files
carry_sidecar env row dest files =
    if exists (sidecar row.path) files
    then move_unless (env.rename_error (sidecar row.path) (sidecar dest)) (sidecar row.path)
        (sidecar dest) files
    else files

abbrev pub manifest_entry : ℕ → PreviewRow → Text → ManifestEntry
manifest_entry now row dest = record {
  archived_at = now;
  platform = row.platform_slug;
  moved_from = row.path;
  moved_to = dest;
  title = row.title;
  keeper = row.keeper;
  matched_by = row.matched_by;
  verdict = row.verdict;
  reason = row.reason;
  library_id = row.library_id;
}

unfoldable pub append_manifest : Env → ManifestEntry → List ManifestEntry → List ManifestEntry
append_manifest env entry manifest =
    if env.manifest_fails entry then manifest else manifest ++ entry ∷ []

unfoldable pub delete_library_item : Env → ℕ → List ℕ → List ℕ
delete_library_item env id library =
    if env.delete_fails id then library else keep (λ i. not (i == id)) library

pub data Outcome : Type 0 where
  failed moved : Text → Outcome

abbrev pub move_row : Env → ℕ → PreviewRow → Text → World → Option Text → Outcome × World
move_row env now row dest w (some err) = (
  failed (codes "archive move failed (cross-device archive paths are not supported): " ++ err),
  w,
)
move_row env now row dest w none = (
  moved dest,
  record {
    files = carry_sidecar env row dest (rename row.path dest w.files);
    library = delete_library_item env row.library_id w.library;
    manifest = append_manifest env (manifest_entry now row dest) w.manifest;
    dirs = w.dirs;
  },
)

abbrev pub make_dirs : Env → Text → PreviewRow → World → World
make_dirs env root row w = record w { dirs = w.dirs ++ env.mkdir_makes (archive_dir root row) }

abbrev pub after_mkdir : Env → ℕ → Text → PreviewRow → World → Option Text → Outcome × World
after_mkdir env now root row w (some err) = (failed (codes "archive dir: " ++ err), w)
after_mkdir env now root row w none =
    let dest = dest_of now root row w.files in
    move_row env now row dest w (env.rename_error row.path dest)

unfoldable pub archive : Env → ℕ → Text → PreviewRow → World → Outcome × World
unfolding rename carry_sidecar append_manifest delete_library_item
archive env now root row w =
    if is_empty row.path
    then (failed (codes "library row has no file path"), w)
    else if not (exists row.path w.files)
    then (failed (codes "file is gone since the preview: " ++ env.stat_error), w)
    else after_mkdir env now root row (make_dirs env root row w)
        (env.mkdir_error (archive_dir root row))
