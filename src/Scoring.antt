-- ===== src/Scoring.antt =====
-- internal/search/scoring.go: the score of a search result, with the words of internal/search/filter.go.
-- The arithmetic of Go's float64 is a parameter.
pub mod Laws
pub mod Tests
use romarr.Base.{
  ℕ, ◌+◌, ◌*◌, ◌/◌, Bool, false, not, ◌&&◌, ◌||◌, List, [], ◌∷◌, if◌then◌else◌, any, keep, tally,
  length, leb, ltb, ◌==◌,
}
use romarr.Base.Int.{ℤ, pos, negsuc}
use romarr.Base.Text.{Text, codes, is_empty, text_eq, to_lower, contains, split_at}

-- Go's float64: conversions from and to int, division and multiplication.
pub record Floats : Type 1 where
  pub Float : Type 0
  pub of : ℕ → Float
  pub div : Float → Float → Float
  pub mul : Float → Float → Float
  pub trunc : Float → ℕ

pub record Scored : Type 0 where
  pub title : Text
  pub platform_slug : Text
  pub source_type : Text
  pub download_protocol : Text
  pub seeders : ℤ
  pub safety_score : ℤ

pub data Confidence : Type 0 where
  high medium low : Confidence

pub record ScoreBreakdown : Type 0 where
  pub title_match : ℕ
  pub platform_match : ℕ
  pub seeder_score : ℕ
  pub safety_score : ℕ
  pub total : ℕ
  pub confidence : Confidence

abbrev pub stopwords : List Text
stopwords =
    codes "the"
    ∷ codes "a"
    ∷ codes "an"
    ∷ codes "of"
    ∷ codes "in"
    ∷ codes "on"
    ∷ codes "at"
    ∷ codes "to"
    ∷ codes "for"
    ∷ codes "and"
    ∷ codes "or"
    ∷ codes "is"
    ∷ codes "it"
    ∷ codes "by"
    ∷ []

-- `\w`
abbrev pub is_word_code : ℕ → Bool
is_word_code c =
    leb b'0' c && leb c b'9' || leb b'A' c && leb c b'Z' || leb b'a' c && leb c b'z' || c == b'_'

-- Each word once.
unfoldable pub once : List Text → List Text
once [] = []
once (w ∷ ws) = let rest = once ws in if any (text_eq w) rest then rest else w ∷ rest

unfoldable pub extract_words : Text → List Text
unfolding once
extract_words s = once (
    keep (λ w. not (is_empty w) && not (any (text_eq w) stopwords))
      (split_at (λ c. not (is_word_code c)) (to_lower s)))

-- `seeders >= k`
abbrev pub at_least : ℤ → ℕ → Bool
at_least (pos n) k = leb k n
at_least (negsuc n) k = false

unfoldable pub score_platform_match : Text → Text → ℕ
score_platform_match slug filter =
    if is_empty filter || text_eq filter (codes "all")
    then 8
    else if text_eq slug filter
    then 15
    else if text_eq filter (codes "pc") && (text_eq slug (codes "pc") || is_empty slug)
    then 15
    else 0

unfoldable pub score_seeder_count : ℤ → Text → Text → ℕ
score_seeder_count seeders source_type protocol =
    if text_eq source_type (codes "ddl")
    then 20
    else if text_eq protocol (codes "nzb")
    then 16
    else if at_least seeders 50
    then 10
    else if at_least seeders 20
    then 8
    else if at_least seeders 10
    then 6
    else if at_least seeders 5
    then 4
    else if at_least seeders 2
    then 2
    else 0

unfoldable pub score_safety : ℤ → ℕ
score_safety (negsuc n) = 0
score_safety (pos n) = if ltb 20 (n * 20 / 100) then 20 else n * 20 / 100

abbrev pub confidence_of : ℕ → Confidence
confidence_of total =
    if leb 70 total
    then Confidence.high
    else if leb 40 total
    then Confidence.medium
    else Confidence.low

-- The words of the query that the title has.
unfoldable pub overlap : List Text → List Text → ℕ
overlap query title = tally (λ w. any (text_eq w) title) query

module _ (floats : Floats) where
  unfoldable pub score_title_match : Text → Text → ℕ
  unfolding extract_words overlap
  score_title_match title query =
      if is_empty query
      then 22
      else if text_eq (to_lower title) (to_lower query)
      then 45
      else if contains (to_lower title) (to_lower query)
      then 39
      else if length (extract_words query) == 0
      then 22
      else floats.trunc (
          floats.mul
            (floats.div (floats.of (overlap (extract_words query) (extract_words title)))
              (floats.of (length (extract_words query))))
            (floats.of 45))

  -- The sum of the tiers, which is not below 0, cut at 100.
  unfoldable pub score_result : Scored → Text → Text → ScoreBreakdown
  unfolding score_title_match score_platform_match score_seeder_count score_safety
  score_result r query platform_filter =
      let title = score_title_match r.title query in
      let platform = score_platform_match r.platform_slug platform_filter in
      let seeders = score_seeder_count r.seeders r.source_type r.download_protocol in
      let safety = score_safety r.safety_score in
      let sum = title + platform + seeders + safety in
      let total = if ltb 100 sum then 100 else sum in
      record {
        title_match = title;
        platform_match = platform;
        seeder_score = seeders;
        safety_score = safety;
        total = total;
        confidence = confidence_of total;
      }

  -- `ScoreResults`: each result with the score that it gets.
  unfoldable pub score_results : List Scored → Text → Text → List (Scored × ScoreBreakdown)
  unfolding score_result
  score_results [] query platform_filter = []
  score_results (r ∷ rs) query platform_filter =
      (r, score_result r query platform_filter) ∷ score_results rs query platform_filter
