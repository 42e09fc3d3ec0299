-- ===== src/Collection/Keeper.antt =====
-- internal/collection/set.go: the order of the dumps of a group and the choice of its keeper.
pub mod Order
pub mod Best
use romarr.Base.{
  ℕ, suc, Bool, true, false, not, ◌&&◌, ◌||◌, Option, none, some, List, [], ◌∷◌, ◌++◌, ◌==◌, ltb,
  if◌then◌else◌, length, map, any, tally,
}
use romarr.Base.Int.{pos, negsuc}
use romarr.Base.Text.{Text, codes, is_empty, text_ltb, trim_space}
use romarr.Base.Dict.{lookup, text_key, nat_eq}
use romarr.Selection.Model.{ReleaseAttrs}
use romarr.Collection.Model.{Candidate, Group}
use romarr.Collection.Policy.{Policy, classify, region_rank, english_rank, is_re_release}

-- `if a != b { return a < b }`, and on with `rest`.
unfoldable pub before : ℕ → ℕ → Bool → Bool
before a b rest = if a == b then rest else ltb a b

-- `if a != b { return a }`, and on with `rest`.
unfoldable pub prefer : Bool → Bool → Bool → Bool
prefer true true rest = rest
prefer true false rest = true
prefer false true rest = false
prefer false false rest = rest

abbrev or_zero : Option ℕ → ℕ
or_zero none = 0
or_zero (some n) = n

abbrev pub Priorities : Type 0
Priorities = List (ℕ × ℕ)

abbrev display_region : Text → Text
display_region region = if is_empty (trim_space region) then codes "unknown region" else region

-- The keeper is flagged and says why; the other dumps in the set say what is kept instead.
unfoldable pub mark : ℕ → Text → Text → ℕ → List Candidate → List Candidate
mark best why name i [] = []
mark best why name i (c ∷ members) =
    (if i == best
      then record c { keeper = true; reason = why }
      else if c.excluded
      then c
      else record c { reason = codes "surplus: the set keeps " ++ name })
    ∷ mark best why name (suc i) members

abbrev pub drop_member : Candidate → Candidate
drop_member c =
    if c.excluded
    then c
    else record c { excluded = true; reason = codes "no English release"; keeper = false }

unfoldable pub require_english : Group → Policy → Group
require_english g p =
    if not p.require_english || any (λ c. not c.excluded && english_rank c == 0) g.members
    then g
    else record g {
      members = map drop_member g.members;
      keeper_index = negsuc 0;
      reason = codes "no English release";
    }

-- The index and the dump that is best so far.
abbrev pub Leader : Type 0
Leader = Option (ℕ × Candidate)

module _ (parse : Text → ReleaseAttrs) where
  unfoldable pub less : Candidate → Candidate → Priorities → Policy → Bool
  less a b prio p =
      let later = before b.member.revision a.member.revision (
        prefer (classify parse a.member).verified (classify parse b.member).verified (
          prefer (not (is_re_release a.member.name p.re_release_tags))
            (not (is_re_release b.member.name p.re_release_tags))
            (text_ltb a.member.name b.member.name))) in
      before (or_zero (lookup a.member.game_id prio)) (or_zero (lookup b.member.game_id prio)) (
        before (region_rank a.member.region p.region_priority)
          (region_rank b.member.region p.region_priority)
          (if p.no_english_preference
            then later
            else before (english_rank a) (english_rank b) later))

  unfoldable pub keeper_reason : Candidate → List Candidate → Policy → Text
  keeper_reason k all p =
      if ltb (length p.region_priority) (region_rank k.member.region p.region_priority)
      then codes "no preferred-region dump exists; kept " ++ display_region k.member.region
      else if tally (λ c. not c.excluded) all == 1
      then codes "only catalogued dump in the set"
      else codes "preferred region: " ++ display_region k.member.region

  abbrev pub challenge : Priorities → Policy → ℕ → Candidate → Leader → Leader
  challenge prio p i c none = some (i, c)
  challenge prio p i c (some (j, b)) = if less c b prio p then some (i, c) else some (j, b)

  unfoldable pub best_of : Priorities → Policy → ℕ → List Candidate → Leader → Leader
  best_of prio p i [] best = best
  best_of prio p i (c ∷ members) best =
      best_of prio p (suc i) members (if c.excluded then best else challenge prio p i c best)

  abbrev pub keep_best : Group → Policy → Leader → Group
  keep_best g p none = record g { reason = codes "every catalogued dump is excluded by policy" }
  keep_best g p (some (i, k)) = record g {
    keeper_index = pos i;
    members = mark i (keeper_reason k g.members p) k.member.name 0 g.members;
  }

  unfoldable pub choose_keeper : Group → Priorities → Policy → Group
  choose_keeper g prio p = keep_best g p (best_of prio p 0 g.members none)
