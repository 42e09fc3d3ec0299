-- ===== src/Collection/Build/Tests.antt =====
-- A platform of four dumps, two of them one game, and each theorem at a concrete input.
use Prim.Native.String.{String}
use romarr.Base.{ℕ, ◌≡◌, refl, Bool, true, false, none, List, [], ◌∷◌, map, tally, sum, All}
use romarr.Base.Int.{pos, negsuc}
use romarr.Base.Text.{Text, codes, text_eq, contains}
use romarr.Selection.Model.{ReleaseAttrs}
use romarr.Collection.Model.{Member, Candidate, Group}
use romarr.Collection.Policy.{Policy, classify, excluded_by}
use romarr.Collection.Keeper.{less, choose_keeper, require_english}
use romarr.Collection.Keeper.Best.{IsChosen, choose_keeper-IsChosen}
use romarr.Collection.Build.{group_of, build, fill, judged, group_from}
use romarr.Collection.Build.Partition.{dumps, build-tally}
use romarr.Collection.Build.Keyed.{build-Keyed}
use romarr.Collection.Build.Settled.{IsSettled, build-AllSettled}
use romarr.Base.Sort.{stable_sort}
use romarr.Base.Dict.{text_key, nat_eq}
use romarr.Base.Text.{to_lower, trim_space, contains, split_commas, equal_fold, text_ltb}
use romarr.Base.Dict.{insert, lookup}
use romarr.Collection.Build.{group_of}
use romarr.Collection.Keeper.{best_of, mark, before}
use romarr.Collection.Policy.{english_rank, region_rank}

abbrev plain : ReleaseAttrs
plain = record {
  clean_title = [];
  set_key = [];
  regions = [];
  languages = [];
  revision = 0;
  disc_index = 0;
  disc_total = 0;
  is_proto = false;
  is_demo = false;
  is_bios = false;
  is_unlicensed = false;
  is_aftermarket = false;
  is_pirate = false;
  bad_dump = false;
  verified_dump = false;
  format_hint = [];
}

-- A parser that knows one tag.
abbrev parse : Text → ReleaseAttrs
parse n = record plain { is_pirate = contains n (codes "(Pirate)") }

abbrev dump : ℕ → String → String → String → String → Member
dump i n bare region languages = record {
  game_id = i;
  name = codes n;
  bare_title = codes bare;
  region = codes region;
  languages = codes languages;
  revision = 0;
  flags = codes "verified";
  total_size = 0;
  roms = [];
}

abbrev members : List Member
members =
    dump 1 "Ace (Japan)" "Ace" "Japan" "Ja"
    ∷ dump 2 "Bee (Pirate)" "Bee" "World" ""
    ∷ dump 3 "Ace (USA)" "Ace" "USA" "En"
    ∷ dump 4 "Cow (Japan)" "Cow" "Japan" "Ja"
    ∷ []

abbrev policy : Policy
policy = record {
  region_priority = codes "USA" ∷ codes "Japan" ∷ [];
  allow_proto = false;
  allow_demo = false;
  allow_bios = false;
  allow_unlicensed = true;
  allow_aftermarket = false;
  allow_pirate = false;
  verified_only = false;
  no_english_preference = false;
  require_english = true;
  exclude_categories = [];
  re_release_tags = codes "Virtual Console" ∷ [];
}

abbrev platform : List Group
platform = build parse members none policy

-- Ace keeps its USA dump, Bee and Cow have no keeper.
platform_keepers : map (λ g. g.keeper_index) platform ≡ pos 1 ∷ negsuc 0 ∷ negsuc 0 ∷ []
unfolding build fill group_from judged choose_keeper require_english excluded_by classify less
    stable_sort insert group_of to_lower trim_space best_of lookup contains split_commas mark
    english_rank equal_fold text_ltb before region_rank
platform_keepers = refl

abbrev is_ace : Member → Bool
is_ace m = text_eq m.bare_title (codes "Ace")

build-tally_example :
    sum (λ g. tally is_ace (dumps g)) (build parse members none policy) ≡ tally is_ace members
build-tally_example = build-tally parse policy none is_ace members

build-Keyed_example :
    All (λ g. All (λ m. (group_of m none).key ≡ g.key) (dumps g)) (build parse members none policy)
build-Keyed_example = build-Keyed parse policy none members

build-AllSettled_example : All (IsSettled policy) (build parse members none policy)
build-AllSettled_example = build-AllSettled parse policy none members

abbrev in_set : Bool → Member → Candidate
in_set out m = record { member = m; excluded = out; reason = []; keeper = false; owned = none }

abbrev aces : Group
aces = record {
  key = codes "title:ace";
  title = codes "Ace";
  source = codes "title";
  categories = [];
  members =
      in_set false (dump 1 "Ace (Japan)" "Ace" "Japan" "Ja")
      ∷ in_set true (dump 5 "Ace (World)" "Ace" "World" "En")
      ∷ in_set false (dump 3 "Ace (USA)" "Ace" "USA" "En")
      ∷ [];
  keeper_index = negsuc 0;
  reason = [];
}

choose_keeper-IsChosen_example : IsChosen parse [] policy aces (choose_keeper parse aces [] policy)
choose_keeper-IsChosen_example =
    choose_keeper-IsChosen parse [] policy aces refl (refl, (refl, (refl, tt)))
