-- ===== src/Scoring/Laws.antt =====
-- internal/search/scoring.go: the tiers of a score and their sum.
use romarr.Base.{
  ℕ, ◌+◌, ◌^◌, ◌≤◌, ◌≡◌, ◌==◌, inl, inr, false, Bool-cases, Bool, List, [], ◌∷◌, if◌then◌else◌, any,
  tally, length, ltb, arith,
}
use romarr.Base.Int.{ℤ, pos, negsuc}
use romarr.Base.Text.{Text, text_eq}
use romarr.Scoring.{
  Floats, Scored, extract_words, overlap, score_platform_match, score_seeder_count, score_safety,
  score_title_match, score_result,
}

tally-length : (p : Text → Bool) (ws : List Text) → tally p ws ≤ length ws
unfolding tally
tally-length p [] = omega arith
tally-length p (w ∷ ws) = ground (arith, tally-length p ws)

platform-bound : (slug filter : Text) → score_platform_match slug filter ≤ 15
unfolding score_platform_match
platform-bound slug filter = ground arith

seeders-bound :
    (seeders : ℤ) (source protocol : Text) → score_seeder_count seeders source protocol ≤ 20
unfolding score_seeder_count
seeders-bound seeders source protocol = ground arith

safety-bound : (score : ℤ) → score_safety score ≤ 20
unfolding score_safety
safety-bound (negsuc n) = omega arith
safety-bound (pos n) = ground arith

-- What IEEE 754 arithmetic, which rounds without changing the order, promises: a fraction of natural
-- numbers not above 1 is not, a part of a whole number of points is not more than these, and cutting
-- off the fraction does not go above a whole number.
pub record IsRounding (floats : Floats) : Type 1 where
  pub le : floats.Float → floats.Float → Type 0
  pub div_le : (a n : ℕ) → a ≤ n → 1 ≤ n → le (floats.div (floats.of a) (floats.of n)) (floats.of 1)
  pub mul_le :
      (x : floats.Float) (m : ℕ)
      → m ≤ 2 ^ 53
      → le x (floats.of 1)
      → le (floats.mul x (floats.of m)) (floats.of m)
  pub trunc_le : (x : floats.Float) (m : ℕ) → m ≤ 2 ^ 53 → le x (floats.of m) → floats.trunc x ≤ m

some_word : (n : ℕ) → (n == 0) ≡ false → 1 ≤ n
some_word n h = ground arith

module _ (floats : Floats) (rounding : IsRounding floats) where
  -- The points for `a` words out of `n`.
  share-bound :
      (a n : ℕ)
      → a ≤ n
      → 1 ≤ n
      → floats.trunc (floats.mul (floats.div (floats.of a) (floats.of n)) (floats.of 45)) ≤ 45
  share-bound a n h p =
      let x = floats.div (floats.of a) (floats.of n) in
      let few : 45 ≤ 2 ^ 53 = omega arith in
      rounding.trunc_le (floats.mul x (floats.of 45)) 45 few
        (rounding.mul_le x 45 few (rounding.div_le a n h p))

  title-bound : (title query : Text) → score_title_match floats title query ≤ 45
  unfolding score_title_match overlap
  title-bound title query = elim (Bool-cases (length (extract_words query) == 0)) [
    | inl e ↦ ground arith
    | inr e ↦ ground (
      arith,
      share-bound (overlap (extract_words query) (extract_words title))
          (length (extract_words query))
          (tally-length (λ w. any (text_eq w) (extract_words title)) (extract_words query))
          (some_word (length (extract_words query)) e),
    )
  ]

  -- Where floating-point division, multiplication and truncation round as IEEE 754 says, the tiers of
  -- a score are at most 45, 15, 20 and 20, and the total is their sum, which is never cut.
  pub score_result-adds :
      (r : Scored) (query platform_filter : Text)
      → ((score_result floats r query platform_filter).title_match ≤ 45)
        × ((score_result floats r query platform_filter).platform_match ≤ 15)
        × ((score_result floats r query platform_filter).seeder_score ≤ 20)
        × ((score_result floats r query platform_filter).safety_score ≤ 20)
        × ((score_result floats r query platform_filter).total
            ≡ (score_result floats r query platform_filter).title_match
              + (score_result floats r query platform_filter).platform_match
              + (score_result floats r query platform_filter).seeder_score
              + (score_result floats r query platform_filter).safety_score)
  unfolding score_result
  score_result-adds r query platform_filter =
      let t = title-bound r.title query in
      let p = platform-bound r.platform_slug platform_filter in
      let s = seeders-bound r.seeders r.source_type r.download_protocol in
      let f = safety-bound r.safety_score in (t, p, s, f, uncut _ (omega (arith, t, p, s, f)))
    where
      uncut : (n : ℕ) → n ≤ 100 → (if ltb 100 n then 100 else n) ≡ n
      uncut n h = ground arith
