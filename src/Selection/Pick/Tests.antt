-- ===== src/Selection/Pick/Tests.antt =====
-- Selections of a single release and of a disc set, and each theorem at a concrete input.
use romarr.Base.{ℕ, ◌≡◌, refl, ◌↔◌, ◌⊎◌, true, false, keep, none, some, [], ◌∷◌}
use Prim.Native.String.{String}
use romarr.Base.Int.{pos, ltb_ℤ}
use romarr.Base.Text.{Text, codes, to_lower, equal_fold, trim_space, contains, split_at, text_ltb}
use romarr.Base.Dict.{lookup, insert, text_key, nat_eq}
use romarr.Base.Sort.{stable_sort}
use romarr.Selection.Model.{
  SearchResult, ReleaseAttrs, LibraryItem, skip, grab, grab_set, Grab, Decision, bad_dump,
  default_collection_profile, best_single, best_set, owned_title, incomplete,
}
use romarr.Selection.Filter.{filter_candidate, region_rank, enforce_match, hash_match}
use romarr.Selection.Filter.Laws.{IsKept, filter_candidate-IsKept}
use romarr.Selection.Rank.{
  title_tokens, title_slop, source_rank, want_miss_of, build_rank_key, tier, less,
}
use romarr.Selection.Groups.{
  group_key, add_disc, add_to_group, disc_attrs, split_discs, wanted, judge_all, sorted_groups,
}
use romarr.Selection.Pick.{SelectOpts, rejection, rank_of, select, single_grab}
use romarr.Selection.Pick.Pooling.{Survives}
use romarr.Selection.Pick.Laws.{Decides, select-Settled}
use romarr.Selection.Pick.Sets.{IsSound, IsStamped, select-IsSound}
use romarr.Selection.Pick.Best.{select-leader, select-action}
use romarr.Selection.Pick.Owned.{OwnedSkip, select-owned}

abbrev plain_attrs : ReleaseAttrs
plain_attrs = record {
  clean_title = [];
  set_key = [];
  regions = codes "usa" ∷ [];
  languages = [];
  revision = 0;
  disc_index = 0;
  disc_total = 0;
  is_proto = false;
  is_demo = false;
  is_bios = false;
  is_unlicensed = false;
  is_aftermarket = false;
  is_pirate = false;
  bad_dump = false;
  verified_dump = false;
  format_hint = [];
}

abbrev release : String → ℕ → ReleaseAttrs → SearchResult
release t score a = record {
  title = codes t;
  indexer = codes "Vimm";
  download_url = [];
  info_hash = [];
  platform_slug = codes "ps1";
  md5 = [];
  sha1 = [];
  score = pos score;
  attrs = some a;
}

abbrev single : SearchResult
single = release "Rayman" 80 plain_attrs

abbrev bad : SearchResult
bad = release "Rayman" 95 (record plain_attrs { bad_dump = true })

abbrev disc : ℕ → SearchResult
disc i =
    release "Rayman" 90
      (record plain_attrs { set_key = codes "rayman"; disc_index = i; disc_total = 2 })

abbrev opts : SelectOpts
opts = record {
  query = codes "Rayman";
  platform_slug = codes "ps1";
  min_score = pos 70;
  profile = none;
  collection = none;
  want = record { dump_name = []; hashes = []; enforce = false };
  owned = none;
  active_grab = none;
  owned_by_hash = none;
  owned_by_name = none;
  repair = none;
}

abbrev strip : Text → Text
strip t = t

program : Unit {0}
unfolding select rejection filter_candidate region_rank enforce_match hash_match title_tokens
    title_slop source_rank want_miss_of build_rank_key tier less group_key add_disc add_to_group
    split_discs wanted judge_all sorted_groups stable_sort lookup insert to_lower equal_fold
    trim_space contains split_at text_ltb keep
program = tt

abbrev one_release : Decision
one_release = record {
  action = grab;
  grabs = single_grab (some single) ∷ [];
  reason = best_single;
  rejected = record { title = codes "Rayman"; reason = bad_dump } ∷ [];
  owned_by = none;
}

select-single : select (codes "set-1") strip (bad ∷ single ∷ []) opts ≡ some one_release
unfolding program
select-single = refl

abbrev disc_of : ℕ → Grab
disc_of i = record (single_grab (some (disc i))) {
  disc_set_id = codes "set-1";
  disc_index = i;
  disc_total = 2;
  set_dir = codes "Rayman";
}

abbrev whole_set : Decision
whole_set = record {
  action = grab_set;
  grabs = disc_of 1 ∷ disc_of 2 ∷ [];
  reason = best_set 2;
  rejected = [];
  owned_by = none;
}

-- The better-scored set wins over the single release.
select-set : select (codes "set-1") strip (single ∷ disc 2 ∷ disc 1 ∷ []) opts ≡ some whole_set
unfolding program
select-set = refl

-- A lone second disc is never grabbed.
select-incomplete :
    select (codes "set-1") strip (single ∷ disc 2 ∷ []) opts
    ≡ some (record one_release {
      rejected = record { title = codes "Rayman"; reason = incomplete 1 2 } ∷ [];
    })
unfolding program
select-incomplete = refl

abbrev shelf : LibraryItem
shelf = record { id = 7; title = codes "Rayman (Europe)" }

abbrev owning : SelectOpts
owning = record opts { owned = some (λ t slug. some shelf) }

abbrev owned_already : Decision
owned_already = record {
  action = skip;
  grabs = [];
  reason = owned_title shelf;
  rejected = [];
  owned_by = some shelf;
}

select-owned_title : select (codes "set-1") strip (single ∷ []) owning ≡ some owned_already
unfolding program
select-owned_title = refl

select-Settled_example :
    Decides
      (codes "set-1")
      strip
      (bad ∷ single ∷ [])
      opts
      (select (codes "set-1") strip (bad ∷ single ∷ []) opts)
select-Settled_example = select-Settled (codes "set-1") strip (bad ∷ single ∷ []) opts

select-IsSound_example :
    (whole_set.grabs ≡ []) ⊎ IsSound (Survives (single ∷ disc 2 ∷ disc 1 ∷ []) opts) whole_set.grabs
select-IsSound_example =
    select-IsSound (codes "set-1") strip (single ∷ disc 2 ∷ disc 1 ∷ []) opts whole_set select-set

select-leader_example :
    (ltb_ℤ (disc 1).score opts.min_score ≡ false)
    × (opts.repair ≡ none
        → (r : SearchResult) → Survives (single ∷ disc 2 ∷ disc 1 ∷ []) opts r
        → disc_attrs r ≡ none
        → less (rank_of opts r) (rank_of opts (disc 1)) ≡ false)
select-leader_example =
    select-leader (codes "set-1") strip (single ∷ disc 2 ∷ disc 1 ∷ []) opts whole_set select-set
      (disc 1) refl

select-action_example :
    (whole_set.action ≡ skip → whole_set.grabs ≡ [])
    × (whole_set.action ≡ grab → (r : SearchResult) × (whole_set.grabs ≡ single_grab (some r) ∷ []))
    × (whole_set.action ≡ grab_set → IsStamped (codes "set-1") strip none whole_set.grabs)
select-action_example =
    select-action (codes "set-1") strip (single ∷ disc 2 ∷ disc 1 ∷ []) opts whole_set select-set

select-owned_example : OwnedSkip (single ∷ []) owning owned_already shelf
select-owned_example =
    select-owned (codes "set-1") strip (single ∷ []) owning owned_already shelf select-owned_title
      refl

filter_candidate-IsKept_example :
    (single.attrs ≡ none → filter_candidate single default_collection_profile ≡ none)
    × ((a : ReleaseAttrs)
        → single.attrs ≡ some a
        → (filter_candidate single default_collection_profile ≡ none)
          ↔ IsKept a default_collection_profile)
filter_candidate-IsKept_example = filter_candidate-IsKept single default_collection_profile
