-- ===== src/Prune/Runner/Tests.antt =====
-- A platform with two dumps of one game on disk and a file that no catalog knows, decluttered; and
-- each theorem at this input.
use Prim.Native.String.{String}
use romarr.Base.{
  ℕ, ◌^◌, suc, ◌*◌, ◌≤◌, ◌≡◌, refl, ap, subst, some_inj, inl, Bool, true, false, Option, none, some,
  List, [], ◌∷◌, ◌++◌, zero, keep, map, All, Member, tally, length, arith, if◌then◌else◌,
}
use romarr.Base.Int.{ℤ, pos}
use romarr.Base.Text.{Text, codes, text_eq, to_lower, split_at}
use romarr.Base.Dict.{lookup, insert, remove, text_key, nat_eq}
use romarr.Collection.Model.{Tier, Match, Candidate, Group, keeper_of}
use romarr.Collection.Reconcile
use romarr.Collection.Reconcile.{
  Index, Entry, Status, reconcile, Unowned, member_order, lookup_tier, claim, claim_members,
  claim_groups, claim_tiers, any_eligible_owned, entry_of, member_ids, claimed_library_ids,
}
use romarr.Prune.Model.{base, count, PreviewRow, Opts, is_planned}
use romarr.Prune.Preview.{
  PlatformSet, LibraryRow, Tally, no_tally, preview_platforms, preview_platform, classify,
  classify_members, classify_entries, judge_items, judge_silent, index_set_titles, index_keys,
  lookup_keys, total_of,
}
use romarr.Prune.Disk.{
  World, Env, ManifestEntry, archive, sidecar, rename, carry_sidecar, append_manifest,
  delete_library_item, dest_of,
}
use romarr.Prune.Apply.{Run, apply_from, apply_row, note_err}
use romarr.Prune.Disk.{failed}
use romarr.Prune.Disk.Moves.{copies}
use romarr.Prune.Disk.Laws.{archive-failed}
use romarr.Prune.Apply.Laws.{AllFree, apply_from-copies}
use romarr.Prune.Apply.Counters.{IsCounted, apply_from-IsCounted}
use romarr.Prune.Preview.{silent_row}
use romarr.Prune.Preview.Planned.{IsBacked, preview-IsBacked}
use romarr.Prune.Preview.Totals.{IsTallied, preview-IsTallied}
use romarr.Prune.Runner.{preview_page, size_or}
use romarr.Prune.Runner.Pages.{pages, IsPage, preview_page-cover}
use romarr.Prune.Keepers.{IsShelved, keeper_survives, reconciled}

abbrev dump : ℕ → String → String → Bool → Candidate
dump i n sha keeps = record {
  member = record {
    game_id = i;
    name = codes n;
    bare_title = codes "Ace";
    region = [];
    languages = [];
    revision = 0;
    flags = [];
    total_size = 0;
    roms = record { name = codes n; size = 0; crc = []; md5 = []; sha1 = codes sha } ∷ [];
  };
  excluded = false;
  reason = [];
  keeper = keeps;
  owned = none;
}

abbrev groups : List Group
groups =
    record {
      key = codes "ace";
      title = codes "Ace";
      source = codes "title";
      categories = [];
      members = dump 1 "E" "aa" false ∷ dump 2 "U" "bb" true ∷ [];
      keeper_index = pos 1;
      reason = [];
    }
    ∷ []

abbrev tower : ℕ → Text
tower zero = []
tower (suc n) = b'a' ∷ tower n

-- The files are r/a, r/aa and r/aaa.
abbrev path_of : ℕ → Text
path_of i = codes "r/" ++ tower i

abbrev file : ℕ → Match
file i = record { library_id = i; title = []; file_path = path_of i; matched_by = none }

abbrev by_sha : Text → Option Match
by_sha sha =
    if text_eq sha (codes "aa")
    then some (file 1)
    else if text_eq sha (codes "bb")
    then some (file 2)
    else none

abbrev library : Index
library = record { by_hash = λ md5 sha. by_sha sha; by_name = λ n. none; by_title = λ keys. none }

abbrev items : List LibraryRow
items =
    record { id = 1; file_path = path_of 1; file_size = 1 }
    ∷ record { id = 2; file_path = path_of 2; file_size = 1 }
    ∷ record { id = 3; file_path = path_of 3; file_size = 1 }
    ∷ []

abbrev keys : Text → List Text
keys t = to_lower t ∷ []

abbrev no_marker : Text → Text
no_marker t = []

abbrev opts : Opts
opts = record {
  include_excluded = false;
  include_uncatalogued_dupes = true;
  include_uncatalogued_hacks = true;
}

abbrev platform : PlatformSet
platform = reconciled keys (codes "nes") groups (some library) items

abbrev never : ℕ → Bool
never i = false

abbrev preview : Option Tally
preview = preview_platforms keys no_marker never opts 0 (platform ∷ []) no_tally

program : Unit {0}
unfolding reconcile member_order Reconcile.indices lookup_tier claim claim_members claim_groups
    claim_tiers any_eligible_owned entry_of member_ids claimed_library_ids to_lower keep keeper_of
    preview_platforms preview_platform classify classify_members classify_entries judge_items
    judge_silent index_set_titles index_keys lookup_keys lookup insert base count split_at
    apply_from apply_row archive rename carry_sidecar append_manifest delete_library_item dest_of
    remove note_err tally total_of
program = tt

abbrev shown : Tally
shown = elim preview [ none ↦ no_tally | some t ↦ t ]

finished : preview ≡ some shown
unfolding program
finished = refl

-- The European dump is planned; the keeper and the unknown file are not.
planned : map is_planned shown.rows ≡ true ∷ false ∷ []
unfolding program
planned = refl

preview-IsBacked_example : All (IsBacked keys no_marker opts (platform ∷ [])) shown.rows
preview-IsBacked_example = preview-IsBacked keys no_marker opts never (platform ∷ []) finished

preview-IsTallied_example : IsTallied opts shown
preview-IsTallied_example = preview-IsTallied keys no_marker opts never (platform ∷ []) finished

few : length shown.rows ≤ 1 * size_or (pos 0)
unfolding program
few = omega arith

in_range : 1 * size_or (pos 0) ≤ 2 ^ 63
in_range = omega arith

preview_page-cover_example :
    (pages 1 1 (pos 0) shown.rows ≡ some shown.rows)
    × ((page : ℤ) → IsPage shown.rows (preview_page page (pos 0) shown.rows))
preview_page-cover_example = preview_page-cover 1 (pos 0) shown.rows few in_range

-- A page number from a query can wrap the start around to a number below 0.
page_wraps : preview_page (pos 92233720368547760) (pos 100) shown.rows ≡ none
unfolding preview_page
page_wraps = refl

abbrev env : Env
env = record {
  stat_error = codes "no such file";
  mkdir_error = λ dir. none;
  mkdir_makes = λ dir. dir ∷ [];
  rename_error = λ source dest. none;
  manifest_fails = λ entry. false;
  delete_fails = λ id. false;
}

abbrev world : World
world = record {
  files = (path_of 1, 10) ∷ (path_of 2, 20) ∷ (path_of 3, 30) ∷ [];
  library = 1 ∷ 2 ∷ 3 ∷ [];
  manifest = [];
  dirs = [];
}

abbrev start : Run
start = record {
  world = world;
  done = 0;
  archived = 0;
  skipped = 0;
  err_count = 0;
  last_err = [];
  touched = [];
}

abbrev time : ℕ → ℕ
time i = i

all_free : AllFree env time never (codes "x") [] 0 shown.rows start
unfolding program
all_free =
    (λ h. record { unique_free = refl; sidecar_free = refl }, (λ h. absurd (never_planned h), tt))
  where
    never_planned : false ≡ true → ⊥
    never_planned q = cc

-- The European dump goes to the archive.
archived_at :
    (apply_from env time never (codes "x") [] 0 shown.rows start).2.world.files
    ≡ (path_of 2, 20) ∷ (path_of 3, 30) ∷ (codes "x/nes/a", 10) ∷ []
unfolding program
archived_at = refl

apply_from-copies_example :
    copies 10 (apply_from env time never (codes "x") [] 0 shown.rows start).2.world.files
    ≡ copies 10 world.files
apply_from-copies_example =
    apply_from-copies env time never (codes "x") [] shown.rows 0 start 10 all_free

ran_through : (apply_from env time never (codes "x") [] 0 shown.rows start).0 ≡ true
unfolding program
ran_through = refl

writes : (e : ManifestEntry) → env.manifest_fails e ≡ false
writes e = refl

apply_from-IsCounted_example :
    IsCounted [] shown.rows
      (apply_from env time never (codes "x") [] 0 shown.rows start).1
      start
      (apply_from env time never (codes "x") [] 0 shown.rows start).2
apply_from-IsCounted_example =
    apply_from-IsCounted env time never (codes "x") [] writes 0 shown.rows start ran_through

abbrev full_disk : Env
full_disk = record env { mkdir_error = λ dir. some (codes "disk full") }

abbrev some_row : PreviewRow
some_row = silent_row (codes "nes") (record { id = 1; file_path = path_of 1; file_size = 1 })

refused :
    (archive full_disk 0 (codes "x") some_row world).0 ≡ failed (codes "archive dir: disk full")
unfolding program
refused = refl

archive-failed_example :
    ((archive full_disk 0 (codes "x") some_row world).1.files ≡ world.files)
    × ((archive full_disk 0 (codes "x") some_row world).1.library ≡ world.library)
    × ((archive full_disk 0 (codes "x") some_row world).1.manifest ≡ world.manifest)
archive-failed_example =
    archive-failed full_disk 0 (codes "x") some_row world (codes "archive dir: disk full") refused

tower_apart : (i j : ℕ) → text_eq (tower i) (tower j) ≡ true → i ≡ j
tower_apart zero zero h = refl
tower_apart zero (suc j) h = absurd (cc)
tower_apart (suc i) zero h = absurd (cc)
tower_apart (suc i) (suc j) h = ap suc (tower_apart i j h)

tower_no_sidecar : (i j : ℕ) → text_eq (sidecar (tower i)) (tower j) ≡ false
tower_no_sidecar zero zero = refl
tower_no_sidecar zero (suc j) = refl
tower_no_sidecar (suc i) zero = refl
tower_no_sidecar (suc i) (suc j) = tower_no_sidecar i j

none_yet : Unowned groups
none_yet = ((refl, (refl, tt)), tt)

shelved : IsShelved path_of platform
unfolding program
shelved = record {
  dumps = ((λ m h. path_is (some_inj h) refl, (λ m h. path_is (some_inj h) refl, tt)), tt);
  files = (refl, (refl, (refl, tt)));
  apart = tower_apart;
  no_sidecar = tower_no_sidecar;
}
  where
    path_is :
        {m n : Match}
        → n ≡ m
        → n.file_path ≡ path_of n.library_id
        → m.file_path ≡ path_of m.library_id
    path_is e h = subst (λ (x : Match). x.file_path ≡ path_of x.library_id) e h

abbrev the_keeper : Candidate
the_keeper = record (dump 2 "U" "bb" true) {
  owned = some (record (file 2) { matched_by = some Tier.hash });
}

abbrev ace : Entry
ace = record {
  group = record {
    key = codes "ace";
    title = codes "Ace";
    source = codes "title";
    categories = [];
    members =
        record (dump 1 "E" "aa" false) {
          owned = some (record (file 1) { matched_by = some Tier.hash });
        }
        ∷ the_keeper
        ∷ [];
    keeper_index = pos 1;
    reason = [];
  };
  status = Status.owned;
  surplus =
      record (dump 1 "E" "aa" false) {
        owned = some (record (file 1) { matched_by = some Tier.hash });
      }
      ∷ [];
}

ace-Member : Member ace (reconcile keys groups (some library))
unfolding program
ace-Member = inl refl

ace_keeps : keeper_of ace.group ≡ some the_keeper
unfolding program
ace_keeps = refl

keeper_there : lookup (path_of 2) start.world.files ≡ some 20
unfolding program
keeper_there = refl

keeper_survives_example :
    lookup (path_of 2) (apply_from env time never (codes "x") [] 0 shown.rows start).2.world.files
    ≡ some 20
keeper_survives_example =
    keeper_survives keys no_marker (codes "nes") groups (some library) items path_of none_yet
      shelved never opts finished env time never (codes "x") [] start all_free ace the_keeper
      (record (file 2) { matched_by = some Tier.hash }) 20 ace-Member ace_keeps refl refl
      keeper_there
