-- ===== src/Selection/Filter/Laws.antt =====
-- What the hard filters keep, with the region test read as a test for a common region.
use romarr.Base.{
  ℕ, suc, ◌+◌, ◌≤◌, ◌<◌, ◌≡◌, refl, ◌↔◌, Bool, true, false, not, ◌&&◌, none, some, List, [], ◌∷◌,
  arith, ltb, ◌==◌, if◌then◌else◌, length, any,
}
use romarr.Base.Text.{Text, equal_fold}
use romarr.Selection.Model.{SearchResult, ReleaseAttrs, CollectionProfile}
use romarr.Selection.Filter.{
  rank_one, rank_each, region_rank, nonempty, filter_attrs, filter_candidate,
}

rank_one_bounds :
    (reg : Text) (i : ℕ) (priority : List Text) (best : ℕ)
    → (rank_one reg i priority best ≤ best)
      × (any (λ p. equal_fold reg p) priority ≡ true
          → rank_one reg i priority best < i + length priority)
      × (any (λ p. equal_fold reg p) priority ≡ false → rank_one reg i priority best ≡ best)
unfolding rank_one
rank_one_bounds reg i [] best = ground arith
rank_one_bounds reg i (p ∷ priority) best = ground (
  arith,
  rank_one_bounds reg (suc i) priority (if ltb i best && equal_fold reg p then i else best),
)

-- Some region of the list stands in the priority list.
abbrev pub meets : List Text → List Text → Bool
meets regions priority = any (λ reg. any (λ p. equal_fold reg p) priority) regions

rank_each_bounds :
    (regions priority : List Text) (best : ℕ)
    → (rank_each regions priority best ≤ best)
      × (meets regions priority ≡ true → rank_each regions priority best < length priority)
      × (meets regions priority ≡ false → rank_each regions priority best ≡ best)
unfolding rank_each
rank_each_bounds [] priority best = ground arith
rank_each_bounds (reg ∷ regions) priority best = ground (
  arith,
  rank_one_bounds reg 0 priority best,
  rank_each_bounds regions priority (rank_one reg 0 priority best),
)

region_rank-meets :
    (regions priority : List Text)
    → (region_rank regions priority == length priority) ≡ not (meets regions priority)
unfolding region_rank
region_rank-meets regions priority =
    ground (arith, rank_each_bounds regions priority (length priority))

-- A tagged release is allowed: its tag is absent or the profile admits it.
abbrev Allowed : Bool → Bool → Type 0
Allowed tagged allow = tagged ≡ true → allow ≡ true

abbrev pub IsKept : ReleaseAttrs → CollectionProfile → Type 0
IsKept a cp =
    (a.bad_dump ≡ false)
    × Allowed a.is_bios cp.allow_bios
    × Allowed a.is_proto cp.allow_proto
    × Allowed a.is_demo cp.allow_demo
    × Allowed a.is_unlicensed cp.allow_unlicensed
    × Allowed a.is_aftermarket cp.allow_aftermarket
    × Allowed a.is_pirate cp.allow_pirate
    × (nonempty cp.region_priority && nonempty a.regions ≡ true
        → meets a.regions cp.region_priority ≡ true)

filter_attrs-IsKept :
    (a : ReleaseAttrs) (cp : CollectionProfile) → (filter_attrs a cp ≡ none) ↔ IsKept a cp
unfolding filter_attrs
filter_attrs-IsKept a cp = (
  λ h. ground (arith, region_rank-meets a.regions cp.region_priority),
  λ k. ground (arith, region_rank-meets a.regions cp.region_priority),
)

-- The hard filters keep a parsed release exactly if it is no bad dump, the profile admits each tag
-- that it carries, and, where both have regions, it has a region of the profile's priority list;
-- and they keep every unparsed release.
pub filter_candidate-IsKept :
    (r : SearchResult) (cp : CollectionProfile)
    → (r.attrs ≡ none → filter_candidate r cp ≡ none)
      × ((a : ReleaseAttrs) → r.attrs ≡ some a → (filter_candidate r cp ≡ none) ↔ IsKept a cp)
unfolding filter_candidate
filter_candidate-IsKept r cp =
    (λ e. rw e refl, λ a e. rw (e, filter_candidate) (filter_attrs-IsKept a cp))
