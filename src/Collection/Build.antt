-- ===== src/Collection/Build.antt =====
-- internal/collection/set.go: a platform's dumps grouped into games, each with its keeper.
-- `parse` stands for selection.Parse, the parser of release names, and `overlay` for
-- Overlay.Match, `none` for a nil overlay.
pub mod Partition
pub mod Keyed
pub mod Settled
pub mod Tests
use romarr.Base.{
  ℕ, Bool, true, false, not, ◌&&◌, Option, none, some, List, [], ◌∷◌, ◌++◌, if◌then◌else◌, map,
}
use romarr.Base.Int.{negsuc}
use romarr.Base.Text.{Text, codes, is_empty, text_eq, text_ltb, to_lower, trim_space}
use romarr.Base.Dict.{lookup, insert, text_key, nat_eq}
use romarr.Base.Sort.{stable_sort}
use romarr.Selection.Model.{ReleaseAttrs}
use romarr.Collection.Model.{Member, Candidate, Group}
use romarr.Collection.Policy.{Policy, excluded_by}
use romarr.Collection.Keeper.{Priorities, choose_keeper, require_english}

pub record Hit : Type 0 where
  pub group : Text
  pub categories : List Text
  pub priority : ℕ

-- What decides the group of a dump: key, title, whether a clone list said so, categories, priority.
pub record Place : Type 0 where
  pub key : Text
  pub title : Text
  pub source : Text
  pub categories : List Text
  pub priority : ℕ

abbrev group_title : Member → Text
group_title m =
    if is_empty (trim_space m.bare_title) then trim_space m.name else trim_space m.bare_title

abbrev title_place : Member → Place
title_place m = record {
  key = codes "title:" ++ to_lower (group_title m);
  title = group_title m;
  source = codes "title";
  categories = [];
  priority = 1;
}

abbrev hit_place : Member → Option Hit → Place
hit_place m none = title_place m
hit_place m (some hit) = record {
  key = codes "clone:" ++ to_lower hit.group;
  title = hit.group;
  source = codes "clone-list";
  categories = hit.categories;
  priority = hit.priority;
}

abbrev ask_overlay : Option (Member → Option Hit) → Member → Option Hit
ask_overlay none m = none
ask_overlay (some f) m = f m

unfoldable pub group_of : Member → Option (Member → Option Hit) → Place
group_of m overlay = hit_place m (ask_overlay overlay m)

pub record Bucket : Type 0 where
  pub key : Text
  pub title : Text
  pub source : Text
  pub categories : List Text
  pub members : List Member
  pub title_priority : Priorities

abbrev pub or_new_bucket : Place → Option Bucket → Bucket
or_new_bucket p none = record {
  key = p.key;
  title = p.title;
  source = p.source;
  categories = p.categories;
  members = [];
  title_priority = [];
}
or_new_bucket p (some b) = b

-- A clone list's opinion replaces that of the titles.
abbrev pub adopt : Place → Bucket → Bucket
adopt p b =
    if text_eq p.source (codes "clone-list") && not (text_eq b.source (codes "clone-list"))
    then record b { source = p.source; title = p.title; categories = p.categories }
    else b

unfoldable pub add_member : Member → Place → Bucket → Bucket
add_member m p b =
    let b' = adopt p b in
    record b' {
      members = b'.members ++ m ∷ [];
      title_priority = insert m.game_id p.priority b'.title_priority;
    }

-- The buckets in the order in which their keys first come.
unfoldable pub fill :
    Option (Member → Option Hit) → List Member → List (Text × Bucket) → List (Text × Bucket)
unfolding add_member
fill overlay [] buckets = buckets
fill overlay (m ∷ members) buckets =
    let p = group_of m overlay in
    fill overlay members
      (insert p.key (add_member m p (or_new_bucket p (lookup p.key buckets))) buckets)

abbrev pub exclude : Member → Option Text → Candidate
exclude m none = record { member = m; excluded = false; reason = []; keeper = false; owned = none }
exclude m (some why) = record {
  member = m;
  excluded = true;
  reason = why;
  keeper = false;
  owned = none;
}

abbrev pub title_first : Group → Group → Bool
title_first g h = if text_eq g.title h.title then text_ltb g.key h.key else text_ltb g.title h.title

module _ (parse : Text → ReleaseAttrs) where
  unfoldable pub judged : Bucket → Policy → Group
  unfolding excluded_by
  judged b p = record {
    key = b.key;
    title = b.title;
    source = b.source;
    categories = b.categories;
    members = map (λ m. exclude m (excluded_by parse m b.categories p)) b.members;
    keeper_index = negsuc 0;
    reason = [];
  }

  unfoldable pub group_from : Policy → Bucket → Group
  unfolding judged choose_keeper require_english
  group_from p b = require_english (choose_keeper parse (judged b p) b.title_priority p) p

  unfoldable pub build : List Member → Option (Member → Option Hit) → Policy → List Group
  unfolding fill group_from
  build members overlay p =
      stable_sort title_first (map (λ e. group_from p e.1) (fill overlay members []))
