-- ===== src/Selection/Filter.antt =====
-- internal/selection/rank.go, the hard filters: `filterCandidate`, `regionRank` and the wanted dump.
pub mod Laws
use romarr.Base.{
  ℕ, suc, Bool, true, false, not, ◌&&◌, ◌||◌, Option, none, some, List, [], ◌∷◌, ltb, ◌==◌,
  if◌then◌else◌, length, any,
}
use romarr.Base.Text.{Text, text_eq, is_empty, to_lower, equal_fold, trim_space}
use romarr.Selection.Model.{
  SearchResult, ReleaseAttrs, CollectionProfile, RejectReason, bad_dump, bios, proto, demo,
  unlicensed, aftermarket, pirate, region,
}

-- The inner loop over the priority list, from index `i` on.
rank_one : Text → ℕ → List Text → ℕ → ℕ
rank_one reg i [] best = best
rank_one reg i (p ∷ priority) best =
    rank_one reg (suc i) priority (if ltb i best && equal_fold reg p then i else best)

rank_each : List Text → List Text → ℕ → ℕ
unfolding rank_one
rank_each [] priority best = best
rank_each (reg ∷ regions) priority best = rank_each regions priority (rank_one reg 0 priority best)

unfoldable pub region_rank : List Text → List Text → ℕ
unfolding rank_each
region_rank regions priority = rank_each regions priority (length priority)

abbrev pub nonempty {ℓ} : {A : Type ℓ} → List A → Bool
nonempty [] = false
nonempty (x ∷ xs) = true

filter_attrs : ReleaseAttrs → CollectionProfile → Option RejectReason
filter_attrs a cp =
    if a.bad_dump
    then some bad_dump
    else if a.is_bios && not cp.allow_bios
    then some bios
    else if a.is_proto && not cp.allow_proto
    then some proto
    else if a.is_demo && not cp.allow_demo
    then some demo
    else if a.is_unlicensed && not cp.allow_unlicensed
    then some unlicensed
    else if a.is_aftermarket && not cp.allow_aftermarket
    then some aftermarket
    else if a.is_pirate && not cp.allow_pirate
    then some pirate
    else if nonempty cp.region_priority
        && nonempty a.regions
        && (region_rank a.regions cp.region_priority == length cp.region_priority)
    then some (region a.regions)
    else none

unfoldable pub filter_candidate : SearchResult → CollectionProfile → Option RejectReason
unfolding filter_attrs
filter_candidate r cp = elim r.attrs [ none ↦ none | some a ↦ filter_attrs a cp ]

-- The exact dump that a fill is after.
pub record Want : Type 0 where
  pub dump_name : Text
  pub hashes : List Text
  pub enforce : Bool

abbrev one_hash : List Text → Text → Bool
one_hash hashes h = if is_empty h then false else any (λ want. text_eq h want) hashes

unfoldable pub hash_match : Want → SearchResult → Bool
hash_match w r =
    nonempty w.hashes && (one_hash w.hashes (to_lower r.md5) || one_hash w.hashes (to_lower r.sha1))

unfoldable pub enforce_match : Want → SearchResult → Bool
unfolding hash_match
enforce_match w r =
    if hash_match w r
    then true
    else not (is_empty w.dump_name) && equal_fold (trim_space r.title) w.dump_name
