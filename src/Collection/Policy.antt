-- ===== src/Collection/Policy.antt =====
-- internal/collection/set.go: what a policy admits and how it reads a dump's names and flags.
-- `parse` stands for selection.Parse, the parser of release names.
use romarr.Base.{
  ℕ, suc, ◌+◌, Bool, true, false, not, ◌&&◌, ◌||◌, Option, none, some, List, [], ◌∷◌, ◌++◌, ltb,
  if◌then◌else◌, length, any,
}
use romarr.Base.Text.{
  Text, codes, is_empty, text_eq, to_lower, trim_space, equal_fold, contains, split_commas,
}
use romarr.Base.Dict.{text_key, nat_eq}
use romarr.Selection.Model.{ReleaseAttrs}
use romarr.Collection.Model.{Rom, Member, Candidate}

pub record Policy : Type 0 where
  pub region_priority : List Text
  pub allow_proto : Bool
  pub allow_demo : Bool
  pub allow_bios : Bool
  pub allow_unlicensed : Bool
  pub allow_aftermarket : Bool
  pub allow_pirate : Bool
  pub verified_only : Bool
  pub no_english_preference : Bool
  pub require_english : Bool
  pub exclude_categories : List Text
  pub re_release_tags : List Text

pub record Flags : Type 0 where
  pub bios : Bool
  pub proto : Bool
  pub demo : Bool
  pub unlicensed : Bool
  pub aftermarket : Bool
  pub pirate : Bool
  pub bad : Bool
  pub verified : Bool

abbrev no_flags : Flags
no_flags = record {
  bios = false;
  proto = false;
  demo = false;
  unlicensed = false;
  aftermarket = false;
  pirate = false;
  bad = false;
  verified = false;
}

-- One token of the catalog's own flags.
flag_token : Text → Flags → Flags
flag_token tok f =
    if text_eq tok (codes "bios")
    then record f { bios = true }
    else if text_eq tok (codes "proto")
    then record f { proto = true }
    else if text_eq tok (codes "demo")
    then record f { demo = true }
    else if text_eq tok (codes "unl")
    then record f { unlicensed = true }
    else if text_eq tok (codes "aftermarket")
    then record f { aftermarket = true }
    else if text_eq tok (codes "pirate")
    then record f { pirate = true }
    else if text_eq tok (codes "bad")
    then record f { bad = true }
    else if text_eq tok (codes "verified")
    then record f { verified = true }
    else f

flag_tokens : List Text → Flags → Flags
unfolding flag_token
flag_tokens [] f = f
flag_tokens (tok ∷ toks) f = flag_tokens toks (flag_token (trim_space tok) f)

-- What the name of a rom adds.
merge_attrs : ReleaseAttrs → Flags → Flags
merge_attrs a f = record {
  bios = f.bios || a.is_bios;
  proto = f.proto || a.is_proto;
  demo = f.demo || a.is_demo;
  unlicensed = f.unlicensed || a.is_unlicensed;
  aftermarket = f.aftermarket || a.is_aftermarket;
  pirate = f.pirate || a.is_pirate;
  bad = f.bad || a.bad_dump;
  verified = f.verified || a.verified_dump;
}

-- The position of a region in the priority list, from index `i` on.
region_one : Text → ℕ → List Text → ℕ → ℕ
region_one r i [] best = best
region_one r i (want ∷ priority) best =
    region_one r (suc i) priority
      (if text_eq r (to_lower (trim_space want)) && ltb i best then i else best)

region_each : List Text → List Text → ℕ → ℕ
unfolding region_one
region_each [] priority best = best
region_each (r ∷ regions) priority best =
    region_each regions priority
      (if is_empty (trim_space r) then best else region_one (trim_space r) 0 priority best)

unfoldable pub region_rank : Text → List Text → ℕ
unfolding region_each
region_rank region priority =
    region_each (split_commas (to_lower region)) priority (length priority + 1)

unfoldable pub english_rank : Candidate → ℕ
english_rank c =
    if any (λ l. equal_fold (trim_space l) (codes "En")) (split_commas c.member.languages)
    then 0
    else if is_empty (trim_space c.member.languages)
    then 0
    else 1

abbrev carries_tag : Text → Text → Bool
carries_tag lower tag = not (is_empty tag) && contains lower (b'(' ∷ tag ++ b')' ∷ [])

unfoldable pub is_re_release : Text → List Text → Bool
is_re_release name tags = any (λ tag. carries_tag (to_lower name) (to_lower (trim_space tag))) tags

module _ (parse : Text → ReleaseAttrs) where
  merge_roms : List Rom → Flags → Flags
  unfolding merge_attrs
  merge_roms [] f = f
  merge_roms (r ∷ roms) f = merge_roms roms (merge_attrs (parse r.name) f)

  abbrev merge_game : ReleaseAttrs → Flags → Flags
  merge_game ga f =
      if ga.is_aftermarket || ga.is_pirate
      then record f {
        aftermarket = f.aftermarket || ga.is_aftermarket;
        pirate = f.pirate || ga.is_pirate;
      }
      else f

  unfoldable pub classify : Member → Flags
  unfolding flag_tokens merge_roms
  classify m =
      merge_game (parse m.name) (merge_roms m.roms (flag_tokens (split_commas m.flags) no_flags))

  -- Both trimmed and compared without case; the reason names the category that the list has.
  abbrev find_category : Text → List Text → Option Text
  find_category want [] = none
  find_category want (have ∷ categories) =
      let rest = find_category want categories in
      if equal_fold (trim_space want) (trim_space have)
      then some (codes "excluded category (" ++ have ++ codes ")")
      else rest

  abbrev find_categories : List Text → List Text → Option Text
  find_categories [] categories = none
  find_categories (want ∷ wants) categories =
      let rest = find_categories wants categories in
      elim (find_category want categories) [ none ↦ rest | some why ↦ some why ]

  abbrev gate : Flags → List Text → Policy → Option Text
  gate f categories p =
      if f.bad
      then some (codes "bad dump")
      else if f.bios && not p.allow_bios
      then some (codes "BIOS")
      else if f.proto && not p.allow_proto
      then some (codes "prototype/beta")
      else if f.demo && not p.allow_demo
      then some (codes "demo")
      else if f.unlicensed && not p.allow_unlicensed
      then some (codes "unlicensed")
      else if f.aftermarket && not p.allow_aftermarket
      then some (codes "aftermarket homebrew")
      else if f.pirate && not p.allow_pirate
      then some (codes "pirate")
      else if p.verified_only && not f.verified
      then some (codes "not a verified dump")
      else find_categories p.exclude_categories categories

  unfoldable pub excluded_by : Member → List Text → Policy → Option Text
  unfolding classify
  excluded_by m categories p = gate (classify m) categories p
