-- ===== src/Selection/Rank.antt =====
-- internal/selection/rank.go, the order of the candidates: `titleTokens`, `titleSlop`, `rankKey`,
-- `buildRankKey`, `less` and `sourceRank`. A Go `int` is a ℤ where it is negated or subtracted.
pub mod Order
use romarr.Base.{
  ℕ, suc, Bool, true, false, not, ◌&&◌, ◌||◌, Option, none, some, List, [], ◌∷◌, leb, if◌then◌else◌,
  length, any, all,
}
use romarr.Base.Int.{ℤ, pos, neg, sub_ℕ, ltb_ℤ, eqb_ℤ}
use romarr.Base.Text.{Text, text_eq, is_empty, to_lower, trim_space, contains, split_at}
use romarr.Selection.Model.{SearchResult, ReleaseAttrs, QualityProfile, CollectionProfile}
use romarr.Selection.Filter.{Want, hash_match, region_rank, nonempty}

pub record RankKey : Type 0 where
  pub title_slop : ℤ
  pub want_miss : ℤ
  pub no_hash : ℤ
  pub region_rank : ℤ
  pub format_rank : ℤ
  pub not_verified : ℤ
  pub neg_revision : ℤ
  pub source_rank : ℤ
  pub neg_score : ℤ

abbrev pub title_no_cover : ℤ
title_no_cover = pos 1048576

abbrev is_digit : ℕ → Bool
is_digit c = leb b'0' c && leb c b'9'

abbrev is_alnum : ℕ → Bool
is_alnum c = (leb b'a' c && leb c b'z') || is_digit c

-- `len(w) > 1 || (len(w) == 1 && '0' <= w[0] && w[0] <= '9')`
abbrev is_token : Text → Bool
is_token [] = false
is_token (c ∷ []) = is_digit c
is_token (c ∷ d ∷ w) = true

abbrev has : List Text → Text → Bool
has out w = any (λ v. text_eq v w) out

-- `out[w] = true` for each word that counts; `out` has no word twice.
collect : List Text → List Text → List Text
collect [] out = out
collect (w ∷ words) out = collect words (if is_token w && not (has out w) then w ∷ out else out)

-- The pattern splits at runs of other characters; the empty pieces that a split at each of them
-- leaves are no tokens.
unfoldable pub title_tokens : Text → List Text
unfolding collect
title_tokens s = collect (split_at (λ c. not (is_alnum c)) (to_lower s)) []

abbrev slop_name : SearchResult → Option ReleaseAttrs → Text
slop_name r none = r.title
slop_name r (some a) = if is_empty a.clean_title then r.title else a.clean_title

unfoldable pub title_slop : SearchResult → List Text → ℤ
title_slop r query =
    let cand = title_tokens (slop_name r r.attrs) in
    if not (nonempty query)
    then pos 0
    else if all (has cand) query
    then sub_ℕ (length cand) (length query)
    else title_no_cover

abbrev source_from : Text → ℕ → List Text → ℕ
source_from li i [] = i
source_from li i (entry ∷ ranking) =
    let e = to_lower (trim_space entry) in
    let rest = source_from li (suc i) ranking in
    if not (is_empty e) && contains li e then i else rest

unfoldable pub source_rank : Text → List Text → ℕ
source_rank indexer ranking = source_from (to_lower indexer) 0 ranking

abbrev format_from : Text → ℕ → List Text → ℕ
format_from hint i [] = i
format_from hint i (f ∷ preference) =
    let rest = format_from hint (suc i) preference in if text_eq f hint then i else rest

unfoldable pub want_miss_of : Want → SearchResult → ℤ
want_miss_of want r = if nonempty want.hashes && not (hash_match want r) then pos 1 else pos 0

abbrev region_of : Option ReleaseAttrs → List Text → ℕ
region_of none priority = length priority
region_of (some a) priority =
    if nonempty a.regions then region_rank a.regions priority else length priority

abbrev format_of : Option ReleaseAttrs → List Text → ℕ
format_of none preference = length preference
format_of (some a) preference =
    if is_empty a.format_hint then length preference else format_from a.format_hint 0 preference

abbrev not_verified_of : Option ReleaseAttrs → ℤ
not_verified_of none = pos 0
not_verified_of (some a) = if a.verified_dump then pos 0 else pos 1

abbrev neg_revision_of : Option ReleaseAttrs → ℤ
neg_revision_of none = pos 0
neg_revision_of (some a) = neg (pos a.revision)

unfoldable pub build_rank_key :
    SearchResult → QualityProfile → CollectionProfile → Want → List Text → RankKey
build_rank_key r prof cp want query = record {
  title_slop = title_slop r query;
  want_miss = want_miss_of want r;
  no_hash = if is_empty r.md5 && is_empty r.sha1 then pos 1 else pos 0;
  region_rank =
      pos (if nonempty cp.region_priority then region_of r.attrs cp.region_priority else 0);
  format_rank =
      pos (if nonempty prof.format_preference then format_of r.attrs prof.format_preference else 0);
  not_verified = if prof.prefer_1g1r then not_verified_of r.attrs else pos 0;
  neg_revision = if prof.prefer_1g1r then neg_revision_of r.attrs else pos 0;
  source_rank = pos (source_rank r.indexer prof.source_ranking);
  neg_score = neg r.score;
}

-- `if a != b { return a < b }`, and on with `rest`
unfoldable pub tier : ℤ → ℤ → Bool → Bool
tier a b rest = if eqb_ℤ a b then rest else ltb_ℤ a b

unfoldable pub less : RankKey → RankKey → Bool
less k o = tier k.title_slop o.title_slop (
    tier k.want_miss o.want_miss (
      tier k.no_hash o.no_hash (
        tier k.region_rank o.region_rank (
          tier k.format_rank o.format_rank (
            tier k.not_verified o.not_verified (
              tier k.neg_revision o.neg_revision
                (tier k.source_rank o.source_rank (ltb_ℤ k.neg_score o.neg_score))))))))
