-- ===== src/Prune/Model.antt =====
-- internal/prune/prune.go: the rows of a preview, their verdicts, and the counters.
use romarr.Base.{ℕ, suc, Bool, true, false, Option, List, [], ◌∷◌, if◌then◌else◌, ◌==◌, reverse}
use romarr.Base.Text.{Text, codes, is_empty, split_at}
use romarr.Collection.Model.{Tier}

pub data Verdict : Type 0 where
  archive review excluded_group uncatalogued_hack uncatalogued uncatalogued_dupe : Verdict

pub data RowStatus : Type 0 where
  planned archived skipped reported : RowStatus

pub record PreviewRow : Type 0 where
  pub library_id : ℕ
  pub platform_slug : Text
  pub path : Text
  pub name : Text
  pub size : ℕ
  pub title : Text
  pub keeper : Text
  pub matched_by : Option Tier
  pub verdict : Verdict
  pub status : RowStatus
  pub reason : Text
  pub archived_to : Text

pub record Opts : Type 0 where
  pub include_excluded : Bool
  pub include_uncatalogued_dupes : Bool
  pub include_uncatalogued_hacks : Bool

abbrev pub is_planned : PreviewRow → Bool
is_planned row = elim row.status [ planned ↦ true | _ ↦ false ]

-- `counts[verdict]`
pub record Counts : Type 0 where
  pub archive : ℕ
  pub review : ℕ
  pub excluded_group : ℕ
  pub uncatalogued_hack : ℕ
  pub uncatalogued : ℕ
  pub uncatalogued_dupe : ℕ

abbrev pub no_counts : Counts
no_counts = record {
  archive = 0;
  review = 0;
  excluded_group = 0;
  uncatalogued_hack = 0;
  uncatalogued = 0;
  uncatalogued_dupe = 0;
}

-- `counts[verdict]++`
unfoldable pub count : Verdict → Counts → Counts
count Verdict.archive c = record c { archive = suc c.archive }
count Verdict.review c = record c { review = suc c.review }
count Verdict.excluded_group c = record c { excluded_group = suc c.excluded_group }
count Verdict.uncatalogued_hack c = record c { uncatalogued_hack = suc c.uncatalogued_hack }
count Verdict.uncatalogued c = record c { uncatalogued = suc c.uncatalogued }
count Verdict.uncatalogued_dupe c = record c { uncatalogued_dupe = suc c.uncatalogued_dupe }

abbrev strip_slashes : Text → Text
strip_slashes [] = []
strip_slashes (c ∷ s) = let rest = strip_slashes s in if c == b'/' then rest else c ∷ s

abbrev last_piece : List Text → Text
last_piece [] = []
last_piece (s ∷ []) = s
last_piece (s ∷ t ∷ pieces) = last_piece (t ∷ pieces)

abbrev or_slash : Text → Text
or_slash s = if is_empty s then codes "/" else last_piece (split_at (λ c. c == b'/') s)

-- `filepath.Base`
unfoldable pub base : Text → Text
base path = if is_empty path then codes "." else or_slash (reverse (strip_slashes (reverse path)))
