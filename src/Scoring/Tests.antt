-- ===== src/Scoring/Tests.antt =====
-- internal/search/scoring.go: a score computed, and the example of the theorem.
use romarr.Base.{refl, keep, tally, ℕ, ◌+◌, ◌*◌, ◌/◌, ◌≤◌, ◌≡◌, [], arith}
use romarr.Base.Int.{pos}
use romarr.Base.Text.{codes, to_lower, contains, split_at}
use romarr.Scoring.{Floats, Scored, score_result}
use romarr.Scoring.Laws.{IsRounding, score_result-adds}

-- Exact fractions.
abbrev fractions : Floats
fractions = record {
  Float = ℕ × ℕ;
  of = λ n. (n, 1);
  div = λ x y. (x.0 * y.1, x.1 * y.0);
  mul = λ x y. (x.0 * y.0, x.1 * y.1);
  trunc = λ x. x.0 / x.1;
}

div-bound : (a b m : ℕ) → 1 ≤ b → a ≤ m * b → a / b ≤ m
div-bound a b m p h = grind arith

fractions-IsRounding : IsRounding fractions
fractions-IsRounding = record {
  le = λ x y. (1 ≤ x.1) × (x.0 * y.1 ≤ y.0 * x.1);
  div_le = λ a n h p. grind arith;
  mul_le = λ x m few h. grind arith;
  trunc_le = λ x m few h. div-bound x.0 x.1 m h.0 (grind arith);
}

abbrev found : Scored
found = record {
  title = codes "Ace (USA)";
  platform_slug = codes "nes";
  source_type = codes "ddl";
  download_protocol = [];
  seeders = pos 0;
  safety_score = pos 50;
}

score_result-adds_example :
    ((score_result fractions found (codes "ace") (codes "nes")).title_match ≤ 45)
    × ((score_result fractions found (codes "ace") (codes "nes")).platform_match ≤ 15)
    × ((score_result fractions found (codes "ace") (codes "nes")).seeder_score ≤ 20)
    × ((score_result fractions found (codes "ace") (codes "nes")).safety_score ≤ 20)
    × ((score_result fractions found (codes "ace") (codes "nes")).total
        ≡ (score_result fractions found (codes "ace") (codes "nes")).title_match
          + (score_result fractions found (codes "ace") (codes "nes")).platform_match
          + (score_result fractions found (codes "ace") (codes "nes")).seeder_score
          + (score_result fractions found (codes "ace") (codes "nes")).safety_score)
score_result-adds_example =
    score_result-adds fractions fractions-IsRounding found (codes "ace") (codes "nes")

-- One of three words found, a third of 45 points.
third : (score_result fractions found (codes "ace pilot wing") (codes "nes")).title_match ≡ 15
unfolding score_result to_lower contains keep split_at tally
third = refl
