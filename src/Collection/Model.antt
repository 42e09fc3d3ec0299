-- ===== src/Collection/Model.antt =====
-- The structs of internal/collection: catalogued dumps, their groups and what the library holds.
use romarr.Base.{ℕ, Bool, false, Option, none, some, List, [], ◌∷◌, ltb}
use romarr.Base.Int.{ℤ, pos, negsuc}
use romarr.Base.Text.{Text}

pub record Rom : Type 0 where
  pub name : Text
  pub size : ℕ
  pub crc : Text
  pub md5 : Text
  pub sha1 : Text

pub record Member : Type 0 where
  pub game_id : ℕ
  pub name : Text
  pub bare_title : Text
  pub region : Text
  pub languages : Text
  pub revision : ℕ
  pub flags : Text
  pub total_size : ℕ
  pub roms : List Rom

-- The ownership tiers, strongest first.
pub data Tier : Type 0 where
  hash name title : Tier

-- A library file; before `Reconcile` stamps it, `matched_by` is empty.
pub record Match : Type 0 where
  pub library_id : ℕ
  pub title : Text
  pub file_path : Text
  pub matched_by : Option Tier

pub record Candidate : Type 0 where
  pub member : Member
  pub excluded : Bool
  pub reason : Text
  pub keeper : Bool
  pub owned : Option Match

-- `keeper_index` is an index into the members, or -1.
pub record Group : Type 0 where
  pub key : Text
  pub title : Text
  pub source : Text
  pub categories : List Text
  pub members : List Candidate
  pub keeper_index : ℤ
  pub reason : Text

-- The element at an index of a slice.
abbrev pub get_elem? {ℓ} : {A : Type ℓ} → List A → ℕ → Option A
get_elem? [] i = none
get_elem? (x ∷ xs) ℕ.zero = some x
get_elem? (x ∷ xs) (ℕ.suc i) = get_elem? xs i

-- `xs[i] = v` for an index in range.
abbrev pub set {ℓ} : {A : Type ℓ} → List A → ℕ → A → List A
set [] i v = []
set (x ∷ xs) ℕ.zero v = v ∷ xs
set (x ∷ xs) (ℕ.suc i) v = x ∷ set xs i v

-- `0 <= k && k < n`
abbrev pub in_range : ℤ → ℕ → Bool
in_range (pos i) n = ltb i n
in_range (negsuc i) n = false

-- `Group.Keeper`
unfoldable pub keeper_of : Group → Option Candidate
keeper_of g = elim g.keeper_index [ pos i ↦ get_elem? g.members i | negsuc i ↦ none ]
