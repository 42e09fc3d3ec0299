-- ===== src/Selection/Pick.antt =====
-- internal/selection/select.go: `Select`.
-- The callbacks into the library and the download queue are functions in the options, `none` where
-- the Go func is nil. What `Select` calls elsewhere are its parameters: `set_id` for the fresh
-- identifier of `newSetID` (random bytes) and `strip_disc_token` for `StripDiscToken` of
-- relname.go. The result is `none` exactly where the source reads through a nil pointer.
pub mod Owned
pub mod Pooling
pub mod Laws
pub mod Sets
pub mod Best
pub mod Tests
use romarr.Base.{
  ℕ, zero, suc, Bool, false, not, ◌&&◌, ◌||◌, Option, none, some, List, [], ◌∷◌, ◌==◌,
  if◌then◌else◌, length, map,
}
use romarr.Base.Int.{ℤ, ltb_ℤ}
use romarr.Base.Text.{Text, is_empty, trim_space}
use romarr.Base.Dict.{lookup, nat_eq}
use romarr.Base.Sort.{stable_sort}
use romarr.Selection.Model.{
  SearchResult, LibraryItem, QualityProfile, default_quality_profile, CollectionProfile,
  default_collection_profile, RejectReason, not_pinned, Rejection, skip, grab, grab_set,
  nothing_to_repair, already_downloading, no_candidates, best_single, Reason, owned_pin,
  owned_title, owned_identical, pin_not_found, below_min_score, repair_grab, best_set, Grab,
  Decision,
}
use romarr.Selection.Filter.{filter_candidate, Want, enforce_match, nonempty}
use romarr.Selection.Rank.{RankKey, title_tokens, build_rank_key, less}
use romarr.Selection.Groups.{
  SetGroup, split_discs, RepairSet, wanted, Candidate, judge_all, Pool, sorted_groups,
}

pub record SelectOpts : Type 0 where
  pub query : Text
  pub platform_slug : Text
  pub min_score : ℤ
  pub profile : Option QualityProfile
  pub collection : Option CollectionProfile
  pub want : Want
  pub owned : Option (Text → Text → Option LibraryItem)
  pub active_grab : Option (Text → Text → Bool)
  pub owned_by_hash : Option (Text → Text → Option LibraryItem)
  pub owned_by_name : Option (Text → Text → Option LibraryItem)
  pub repair : Option RepairSet

abbrev pub or_default {ℓ} : {A : Type ℓ} → A → Option A → A
or_default d none = d
or_default d (some a) = a

abbrev pub quality : SelectOpts → QualityProfile
quality opts = or_default default_quality_profile opts.profile

abbrev pub collection : SelectOpts → CollectionProfile
collection opts = or_default default_collection_profile opts.collection

abbrev pub skip_with : Reason → List Rejection → Option LibraryItem → Decision
skip_with why rejected owned_by = record {
  action = skip;
  grabs = [];
  reason = why;
  rejected = rejected;
  owned_by = owned_by;
}

-- A call through a func that may be nil.
abbrev pub ask : Option (Text → Text → Option LibraryItem) → Text → Text → Option LibraryItem
ask none a b = none
ask (some f) a b = f a b

abbrev first_hash : Option (Text → Text → Option LibraryItem) → List Text → Option LibraryItem
first_hash f [] = none
first_hash f (h ∷ hashes) =
    let rest = first_hash f hashes in elim (ask f h h) [ none ↦ rest | some item ↦ some item ]

unfoldable pub owned_by_pin : Want → SelectOpts → Option LibraryItem
owned_by_pin want opts =
    if nonempty want.hashes
    then first_hash opts.owned_by_hash want.hashes
    else ask opts.owned_by_name want.dump_name opts.platform_slug

abbrev owned_skip : (LibraryItem → Reason) → Option LibraryItem → Option Decision
owned_skip why none = none
owned_skip why (some item) = some (skip_with (why item) [] (some item))

abbrev is_active : Option (Text → Text → Bool) → Text → Text → Bool
is_active none a b = false
is_active (some f) a b = f a b

abbrev or_else {ℓ} : {A : Type ℓ} → Option A → Option A → Option A
or_else none b = b
or_else (some a) b = some a

-- The checks before any candidate is looked at; a decision ends the selection.
abbrev early : Option RepairSet → SelectOpts → Option Decision
early (some repair) opts =
    if nonempty (wanted repair) then none else some (skip_with nothing_to_repair [] none)
early none opts =
    or_else
      (if opts.want.enforce
        then owned_skip owned_pin (owned_by_pin opts.want opts)
        else owned_skip owned_title (ask opts.owned opts.query opts.platform_slug))
      (if is_active opts.active_grab opts.query opts.platform_slug
        then some (skip_with already_downloading [] none)
        else none)

unfoldable pub early_decision : SelectOpts → Option Decision
unfolding owned_by_pin
early_decision opts = early opts.repair opts

-- Why a candidate does not survive: the hard filters, then the enforced want.
unfoldable pub rejection : SelectOpts → SearchResult → Option RejectReason
rejection opts r = elim (filter_candidate r (collection opts)) [
  | some why ↦ some why
  | none ↦
      if opts.want.enforce && not (enforce_match opts.want r)
      then some (not_pinned opts.want.dump_name)
      else none
]

abbrev sort_out :
    SearchResult
    → Option RejectReason
    → List SearchResult × List Rejection
    → List SearchResult × List Rejection
sort_out r none (survivors, rejected) = (r ∷ survivors, rejected)
sort_out r (some why) (survivors, rejected) =
    (survivors, record { title = r.title; reason = why } ∷ rejected)

-- The survivors and the rejected, both in their order.
unfoldable pub hard_filter : SelectOpts → List SearchResult → List SearchResult × List Rejection
hard_filter opts [] = ([], [])
hard_filter opts (r ∷ rest) = sort_out r (rejection opts r) (hard_filter opts rest)

abbrev pub singles_of : Option RepairSet → List SearchResult → List Candidate
singles_of none singles = map (λ r. record { rep = r; set = none }) singles
singles_of (some repair) singles = []

-- The candidates that compete and everything rejected; `none` after a fault.
unfoldable pub assemble : SelectOpts → List SearchResult → List Rejection → Pool
assemble opts survivors rejected =
    let split = split_discs survivors ([], []) in
    judge_all opts.repair (sorted_groups split.1) (some (singles_of opts.repair split.0, rejected))

unfoldable pub rank_of : SelectOpts → SearchResult → RankKey
rank_of opts r =
    build_rank_key r (quality opts) (collection opts) opts.want (title_tokens opts.query)

unfoldable pub better : SelectOpts → Candidate → Candidate → Bool
unfolding rank_of
better opts c d = less (rank_of opts c.rep) (rank_of opts d.rep)

-- The library item that a winner outside repair mode is byte-identical to.
abbrev identical : Option RepairSet → SelectOpts → SearchResult → Option LibraryItem
identical (some repair) opts r = none
identical none opts r =
    if not (is_empty r.md5) || not (is_empty r.sha1)
    then ask opts.owned_by_hash r.md5 r.sha1
    else none

abbrev grab_with : Grab → Text → ℕ → ℕ → Text → Grab
grab_with g id index total dir = record g {
  disc_set_id = id;
  disc_index = index;
  disc_total = total;
  set_dir = dir;
}

abbrev pub single_grab : Option SearchResult → Grab
single_grab r = record {
  result = r;
  target_file = [];
  disc_set_id = [];
  disc_index = 0;
  disc_total = 0;
  set_dir = [];
}

-- The grab of one disc of a set; a missing disc would be a nil release.
unfoldable pub disc_grab : SetGroup → Text → ℕ → Text → ℕ → Grab
disc_grab g id total dir i = grab_with (single_grab (lookup i g.discs)) id i total dir

-- `from, from + 1, ...`, `n` of them
unfoldable pub indices : ℕ → ℕ → List ℕ
indices from zero = []
indices from (suc n) = from ∷ indices (suc from) n

abbrev safe_code : ℕ → ℕ
safe_code c =
    if c == b'/'
      || c == 92
      || c == b':'
      || c == b'*'
      || c == b'?'
      || c == 34
      || c == b'<'
      || c == b'>'
      || c == b'|'
    then b'_'
    else c

unfoldable pub sanitize_component : Text → Text
sanitize_component s = trim_space (map safe_code s)

module _ (set_id : Text) (strip_disc_token : Text → Text) where
  -- The grabs of a winner that is a set.
  unfoldable pub set_grabs : Option RepairSet → Candidate → SetGroup → List Grab
  unfolding disc_grab indices sanitize_component
  set_grabs none c g =
      let total = length g.discs in
      map (disc_grab g set_id total (sanitize_component (strip_disc_token c.rep.title)))
        (indices 1 total)
  set_grabs (some repair) c g = map (disc_grab g repair.id repair.total repair.dir) (wanted repair)

  abbrev pub set_reason : Option RepairSet → List Grab → SetGroup → Reason
  set_reason none grabs g = best_set (length g.discs)
  set_reason (some repair) grabs g = repair_grab (length grabs)

  abbrev pub grab_winner :
      Option RepairSet → Candidate → Option SetGroup → List Rejection → Decision
  grab_winner repair c none rejected = record {
    action = grab;
    grabs = single_grab (some c.rep) ∷ [];
    reason = best_single;
    rejected = rejected;
    owned_by = none;
  }
  grab_winner repair c (some g) rejected =
      let grabs = set_grabs repair c g in
      record {
        action = grab_set;
        grabs = grabs;
        reason = set_reason repair grabs g;
        rejected = rejected;
        owned_by = none;
      }

  abbrev score_gate : SelectOpts → Candidate → List Rejection → Decision
  score_gate opts c rejected =
      if ltb_ℤ c.rep.score opts.min_score
      then skip_with (below_min_score c.rep.score opts.min_score) rejected none
      else grab_winner opts.repair c c.set rejected

  abbrev settle_owned : SelectOpts → Candidate → List Rejection → Option LibraryItem → Decision
  settle_owned opts c rejected (some item) = skip_with (owned_identical item) rejected (some item)
  settle_owned opts c rejected none = score_gate opts c rejected

  -- From the ranked candidates to the decision.
  unfoldable pub settle : SelectOpts → List Rejection → List Candidate → Decision
  unfolding set_grabs
  settle opts rejected [] = skip_with no_candidates rejected none
  settle opts rejected (c ∷ rest) = settle_owned opts c rejected (identical opts.repair opts c.rep)

  abbrev decide_pool : SelectOpts → Pool → Option Decision
  decide_pool opts none = none
  decide_pool opts (some (cs, rejected)) =
      some (settle opts rejected (stable_sort (better opts) cs))

  unfoldable pub choose : SelectOpts → List SearchResult → List Rejection → Option Decision
  unfolding assemble better settle
  choose opts survivors rejected =
      if opts.want.enforce && not (nonempty survivors)
      then some (skip_with (pin_not_found opts.want.dump_name) rejected none)
      else decide_pool opts (assemble opts survivors rejected)

  unfoldable pub select : List SearchResult → SelectOpts → Option Decision
  unfolding early_decision hard_filter choose
  select cands opts = elim (early_decision opts) [
    | some d ↦ some d
    | none ↦ let found = hard_filter opts cands in choose opts found.0 found.1
  ]
