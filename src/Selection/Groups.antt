-- ===== src/Selection/Groups.antt =====
-- internal/selection/select.go: disc-set grouping, and which groups may compete.
-- A map from disc index to release is an association list.
pub mod Filed
pub mod Judge
use romarr.Base.{
  ℕ, zero, suc, Bool, true, not, ◌&&◌, ◌||◌, Option, none, some, List, [], ◌∷◌, ◌++◌, ltb, ◌==◌,
  if◌then◌else◌, length, all, is_none, keep, map,
}
use romarr.Base.Text.{Text, text_ltb, to_lower}
use romarr.Base.Dict.{lookup, insert, nat_eq, text_key}
use romarr.Base.Sort.{stable_sort}
use romarr.Selection.Model.{
  SearchResult, ReleaseAttrs, Rejection, RejectReason, total_mismatch, missing_wanted, incomplete,
}

pub record SetGroup : Type 0 where
  pub key : Text
  pub discs : List (ℕ × SearchResult)
  pub total : ℕ

abbrev pub Groups : Type 0
Groups = List (Text × SetGroup)

-- `a.SetKey + "|" + strings.ToLower(r.Indexer)`
unfoldable pub group_key : SearchResult → ReleaseAttrs → Text
group_key r a = a.set_key ++ b'|' ∷ to_lower r.indexer

abbrev pub or_new_group : Text → Option SetGroup → SetGroup
or_new_group k none = record { key = k; discs = []; total = 0 }
or_new_group k (some g) = g

-- The first release of a disc stays; the largest declared total wins.
unfoldable pub add_disc : SearchResult → ReleaseAttrs → SetGroup → SetGroup
add_disc r a g = record g {
  discs = if is_none (lookup a.disc_index g.discs) then insert a.disc_index r g.discs else g.discs;
  total = if ltb g.total a.disc_total then a.disc_total else g.total;
}

unfoldable pub add_to_group : SearchResult → ReleaseAttrs → Groups → Groups
add_to_group r a groups =
    let k = group_key r a in insert k (add_disc r a (or_new_group k (lookup k groups))) groups

-- The attributes of a release that is a disc of a set: `a != nil && a.DiscIndex != 0`.
abbrev pub disc_attrs : SearchResult → Option ReleaseAttrs
disc_attrs r = elim r.attrs [ none ↦ none | some a ↦ if a.disc_index == 0 then none else some a ]

abbrev pub place :
    SearchResult → Option ReleaseAttrs → List SearchResult × Groups → List SearchResult × Groups
place r none (singles, groups) = (singles ++ r ∷ [], groups)
place r (some a) (singles, groups) = (singles, add_to_group r a groups)

-- The loop over the survivors.
unfoldable pub split_discs :
    List SearchResult → List SearchResult × Groups → List SearchResult × Groups
split_discs [] acc = acc
split_discs (r ∷ rest) acc = split_discs rest (place r (disc_attrs r) acc)

-- A disc set to complete: the set on disk and the discs that it misses.
pub record RepairSet : Type 0 where
  pub id : Text
  pub dir : Text
  pub total : ℕ
  pub want : List (ℕ × Bool)

-- The wanted indices, ascending.
unfoldable pub wanted : RepairSet → List ℕ
wanted r = stable_sort ltb (map (λ p. p.0) (keep (λ p. p.1) r.want))

-- The smallest index, `zero` for no discs: as in the source, an index 0 is overwritten.
min_disc_from : ℕ → List (ℕ × SearchResult) → ℕ
min_disc_from least [] = least
min_disc_from least ((i, r) ∷ discs) =
    min_disc_from (if least == 0 || ltb i least then i else least) discs

unfoldable pub min_disc_index : List (ℕ × SearchResult) → ℕ
unfolding min_disc_from
min_disc_index discs = min_disc_from 0 discs

-- A release, or a set that its release `rep` stands for.
pub record Candidate : Type 0 where
  pub rep : SearchResult
  pub set : Option SetGroup

-- What becomes of a group. `fault` is a read through a nil pointer.
pub data Verdict : Type 0 where
  compete : Candidate → Verdict
  reject : Rejection → Verdict
  fault : Verdict

abbrev reject_as : RejectReason → Option SearchResult → Verdict
reject_as why none = fault
reject_as why (some r) = reject (record { title = r.title; reason = why })

abbrev compete_as : SetGroup → Option SearchResult → Verdict
compete_as g none = fault
compete_as g (some r) = compete (record { rep = r; set = some g })

-- `for i := from; ...` over `n` indices: every one is there
unfoldable pub contiguous : ℕ → ℕ → List (ℕ × SearchResult) → Bool
contiguous from zero discs = true
contiguous from (suc n) discs = not (is_none (lookup from discs)) && contiguous (suc from) n discs

unfoldable pub judge_set : SetGroup → Verdict
unfolding contiguous min_disc_index
judge_set g =
    let n = length g.discs in
    if not (contiguous 1 n g.discs) || (not (g.total == 0) && not (n == g.total))
    then reject_as (incomplete n (if g.total == 0 then n else g.total))
        (lookup (min_disc_index g.discs) g.discs)
    else compete_as g (lookup 1 g.discs)

abbrev pub head_or_zero : List ℕ → ℕ
head_or_zero [] = 0
head_or_zero (i ∷ is) = i

unfoldable pub judge_repair : RepairSet → SetGroup → Verdict
unfolding min_disc_index
judge_repair repair g =
    if not (g.total == 0) && not (g.total == repair.total)
    then reject_as (total_mismatch g.total repair.total) (lookup (min_disc_index g.discs) g.discs)
    else if not (all (λ i. not (is_none (lookup i g.discs))) (wanted repair))
    then reject_as (missing_wanted (length g.discs)) (lookup (min_disc_index g.discs) g.discs)
    else compete_as g (lookup (head_or_zero (wanted repair)) g.discs)

abbrev pub judge : Option RepairSet → SetGroup → Verdict
judge none g = judge_set g
judge (some repair) g = judge_repair repair g

-- The candidates and rejections so far; `none` after a fault.
abbrev pub Pool : Type 0
Pool = Option (List Candidate × List Rejection)

abbrev tally_verdict : Verdict → Pool → Pool
tally_verdict (compete c) (some (cs, rs)) = some (cs ++ c ∷ [], rs)
tally_verdict (reject r) (some (cs, rs)) = some (cs, rs ++ r ∷ [])
tally_verdict _ _ = none

unfoldable pub judge_all : Option RepairSet → Groups → Pool → Pool
unfolding judge_set judge_repair
judge_all repair [] pool = pool
judge_all repair ((k, g) ∷ groups) pool =
    judge_all repair groups (tally_verdict (judge repair g) pool)

-- The groups in the order of their keys.
unfoldable pub sorted_groups : Groups → Groups
sorted_groups groups = stable_sort (λ p q. text_ltb p.0 q.0) groups
