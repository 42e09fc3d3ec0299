-- ===== src/Selection/Model.antt =====
-- The data that the selector reads: search results and release attributes (internal/models), the
-- two profiles (internal/db), and the reasons and decisions of internal/selection.
-- A pointer that may be nil is an `Option`. A reason that the source formats as text is a
-- constructor with the values that it prints; the empty reason is `none`.
use romarr.Base.{ℕ, Bool, true, false, Option, List, [], ◌∷◌}
use romarr.Base.Int.{ℤ}
use romarr.Base.Text.{Text, codes}

pub record ReleaseAttrs : Type 0 where
  pub clean_title : Text
  pub set_key : Text
  pub regions : List Text
  pub languages : List Text
  pub revision : ℕ
  pub disc_index : ℕ
  pub disc_total : ℕ
  pub is_proto : Bool
  pub is_demo : Bool
  pub is_bios : Bool
  pub is_unlicensed : Bool
  pub is_aftermarket : Bool
  pub is_pirate : Bool
  pub bad_dump : Bool
  pub verified_dump : Bool
  pub format_hint : Text

-- The fields of a search result that selection reads.
pub record SearchResult : Type 0 where
  pub title : Text
  pub indexer : Text
  pub download_url : Text
  pub info_hash : Text
  pub platform_slug : Text
  pub md5 : Text
  pub sha1 : Text
  pub score : ℤ
  pub attrs : Option ReleaseAttrs

-- What ownership checks return of a library row.
pub record LibraryItem : Type 0 where
  pub id : ℕ
  pub title : Text

-- The release-side policy.
pub record QualityProfile : Type 0 where
  pub format_preference : List Text
  pub prefer_1g1r : Bool
  pub source_ranking : List Text

abbrev pub default_quality_profile : QualityProfile
default_quality_profile = record {
  format_preference =
      codes "chd"
      ∷ codes "cue"
      ∷ codes "iso"
      ∷ codes "gdi"
      ∷ codes "zip"
      ∷ codes "7z"
      ∷ codes "raw"
      ∷ [];
  prefer_1g1r = true;
  source_ranking = [];
}

-- The catalog-side policy: the part that selection reads.
pub record CollectionProfile : Type 0 where
  pub region_priority : List Text
  pub allow_proto : Bool
  pub allow_demo : Bool
  pub allow_bios : Bool
  pub allow_unlicensed : Bool
  pub allow_aftermarket : Bool
  pub allow_pirate : Bool

abbrev pub default_collection_profile : CollectionProfile
default_collection_profile = record {
  region_priority = codes "usa" ∷ codes "world" ∷ codes "europe" ∷ codes "japan" ∷ [];
  allow_proto = false;
  allow_demo = false;
  allow_bios = false;
  allow_unlicensed = false;
  allow_aftermarket = false;
  allow_pirate = false;
}

-- Why a candidate was filtered out.
pub data RejectReason : Type 0 where
  bad_dump bios proto demo unlicensed aftermarket pirate : RejectReason
  region : List Text → RejectReason
  not_pinned : (dump_name : Text) → RejectReason
  total_mismatch : (declared total : ℕ) → RejectReason
  missing_wanted : (count : ℕ) → RejectReason
  incomplete : (count want : ℕ) → RejectReason

pub record Rejection : Type 0 where
  pub title : Text
  pub reason : RejectReason

pub data Action : Type 0 where
  skip grab grab_set : Action

pub data Reason : Type 0 where
  nothing_to_repair already_downloading no_candidates best_single : Reason
  owned_pin owned_title owned_identical : LibraryItem → Reason
  pin_not_found : (dump_name : Text) → Reason
  below_min_score : (score min_score : ℤ) → Reason
  repair_grab : (discs : ℕ) → Reason
  best_set : (total : ℕ) → Reason

pub record Grab : Type 0 where
  pub result : Option SearchResult
  pub target_file : Text
  pub disc_set_id : Text
  pub disc_index : ℕ
  pub disc_total : ℕ
  pub set_dir : Text

pub record Decision : Type 0 where
  pub action : Action
  pub grabs : List Grab
  pub reason : Reason
  pub rejected : List Rejection
  pub owned_by : Option LibraryItem
