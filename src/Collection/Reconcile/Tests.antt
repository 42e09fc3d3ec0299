-- ===== src/Collection/Reconcile/Tests.antt =====
-- A platform of two games against a small library, and each theorem at a concrete input.
use Prim.Native.String.{String}
use romarr.Base.{
  ℕ, ◌≤◌, ◌≡◌, refl, Bool, true, false, Option, none, some, List, [], ◌∷◌, tally, ◌==◌, All, keep,
  length, map,
}
use romarr.Base.Int.{pos}
use romarr.Base.Text.{Text, codes, text_eq, to_lower}
use romarr.Collection.Model.{Match, Candidate, Group, keeper_of}
use romarr.Collection.Reconcile.{
  Index, Entry, owned, gap, indices, member_order, lookup_tier, claim, claim_members, claim_groups,
  claim_tiers, any_eligible_owned, entry_of, reconcile, member_ids, claimed_library_ids, Unowned,
  summarise, gaps,
}
use romarr.Collection.Reconcile.Claims.{reconcile_once}
use romarr.Collection.Reconcile.Sound.{IsAnswered, reconcile-IsAnswered}
use romarr.Collection.Reconcile.Summary.{AddsUp, surplus_total, summarise-AddsUp}

abbrev file : ℕ → String → Match
file i t = record { library_id = i; title = codes t; file_path = codes t; matched_by = none }

abbrev dump : ℕ → String → String → Bool → Candidate
dump i n sha keeps = record {
  member = record {
    game_id = i;
    name = codes n;
    bare_title = codes n;
    region = [];
    languages = [];
    revision = 0;
    flags = [];
    total_size = 0;
    roms = record { name = codes n; size = 0; crc = []; md5 = []; sha1 = codes sha } ∷ [];
  };
  excluded = false;
  reason = [];
  keeper = keeps;
  owned = none;
}

abbrev game : String → List Candidate → Group
game t ms = record {
  key = codes t;
  title = codes t;
  source = codes "title";
  categories = [];
  members = ms;
  keeper_index = pos 1;
  reason = [];
}

abbrev games : List Group
games =
    game "Ace" (dump 1 "Ace (Europe)" "aa" false ∷ dump 2 "Ace (USA)" "bb" true ∷ [])
    ∷ game "Bee" (dump 3 "Bee (Europe)" "cc" false ∷ dump 4 "Bee (USA)" "dd" true ∷ [])
    ∷ []

-- One file, found by the keeper's hash and by every title.
abbrev answer_hash : Bool → Option Match
answer_hash true = some (file 7 "Ace")
answer_hash false = none

abbrev library : Index
library = record {
  by_hash = λ md5 sha1. answer_hash (text_eq sha1 (codes "bb"));
  by_name = λ n. none;
  by_title = λ keys. some (file 7 "Ace");
}

abbrev keys : Text → List Text
keys n = n ∷ []

program : Unit {0}
unfolding reconcile member_order indices lookup_tier claim claim_members claim_groups claim_tiers
    any_eligible_owned entry_of member_ids claimed_library_ids to_lower keep summarise gaps
    keeper_of
program = tt

none_yet : Unowned games
none_yet = ((refl, (refl, tt)), ((refl, (refl, tt)), tt))

-- The single file lands on the keeper of the first game; the second game is a gap.
statuses : map (λ e. e.status) (reconcile keys games (some library)) ≡ owned ∷ gap ∷ []
unfolding program
statuses = refl

claimed : claimed_library_ids (reconcile keys games (some library)) ≡ 7 ∷ []
unfolding program
claimed = refl

reconcile_once_example :
    tally (λ j. j == 7) (claimed_library_ids (reconcile keys games (some library))) ≤ 1
reconcile_once_example = reconcile_once keys (some library) games 7 none_yet

reconcile-IsAnswered_example :
    All
      (λ (e : Entry). All (IsAnswered keys (some library)) e.group.members)
      (reconcile keys games (some library))
reconcile-IsAnswered_example = reconcile-IsAnswered keys (some library) games none_yet

summarise-AddsUp_example :
    let entries = reconcile keys games (some library) in
    AddsUp (summarise entries) (length entries) (length (gaps entries)) (surplus_total entries)
summarise-AddsUp_example = summarise-AddsUp (reconcile keys games (some library))
