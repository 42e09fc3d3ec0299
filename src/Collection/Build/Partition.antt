-- ===== src/Collection/Build/Partition.antt =====
-- Grouping loses no dump and doubles none, and puts a dump where its key says.
use romarr.Base.{
  ℕ, suc, ◌+◌, ◌≡◌, refl, ◌∙◌, ap, inl, inr, Bool, true, false, ◌&&◌, ◌||◌, not, any, Option, none,
  some, List, [], ◌∷◌, ◌++◌, map, All, Bool-cases, tally, tally-append, sum, sum-map, sum-same,
  if◌then◌else◌, ◌==◌, arith,
}
use romarr.Base.Text.{Text, text_eq, codes}
use romarr.Base.Dict.{lookup, insert, insert-sum, text_key}
use romarr.Base.Sort.{stable_sort-sum}
use romarr.Selection.Model.{ReleaseAttrs}
use romarr.Collection.Model.{Member, Candidate, Group}
use romarr.Collection.Policy.{Policy, excluded_by, english_rank}
use romarr.Collection.Keeper.{
  choose_keeper, require_english, mark, best_of, drop_member, Leader, Priorities, keep_best,
  keeper_reason,
}
use romarr.Collection.Build.{
  Hit, Bucket, Place, group_of, add_member, adopt, or_new_bucket, fill, judged, group_from, build,
  exclude,
}

if-member :
    (b : Bool) (x y : Candidate) {m : Member}
    → x.member ≡ m
    → y.member ≡ m
    → (if b then x else y).member ≡ m
if-member true x y h k = h
if-member false x y h k = k

cong_cons : {m n : Member} {ms ns : List Member} → m ≡ n → ms ≡ ns → m ∷ ms ≡ n ∷ ns
cong_cons h k = cc

pub adopt-members : (p : Place) (b : Bucket) → (adopt p b).members ≡ b.members
adopt-members p b =
    elim (Bool-cases
      (text_eq p.source (codes "clone-list") && not (text_eq b.source (codes "clone-list")))) [
        | inl e ↦ rw e refl
        | inr e ↦ rw e refl
      ]

module _ (overlay : Option (Member → Option Hit)) (test : Member → Bool) where
  abbrev in_bucket : Bucket → ℕ
  in_bucket b = tally test b.members

  or_new_bucket-tally :
      (p : Place) (o : Option Bucket)
      → in_bucket (or_new_bucket p o) ≡ elim o [ none ↦ 0 | some w ↦ in_bucket w ]
  unfolding tally
  or_new_bucket-tally p none = refl
  or_new_bucket-tally p (some b) = refl

  add_member-tally :
      (m : Member) (p : Place) (b : Bucket)
      → in_bucket (add_member m p b) ≡ in_bucket b + tally test (m ∷ [])
  unfolding add_member
  add_member-tally m p b = rw (adopt-members p b) (tally-append test b.members (m ∷ []))

  tally_nil : tally test [] ≡ 0
  unfolding tally
  tally_nil = refl

  fill-tally :
      (members : List Member) (buckets : List (Text × Bucket))
      → sum (λ e. in_bucket e.1) (fill overlay members buckets)
        ≡ sum (λ e. in_bucket e.1) buckets + tally test members
  unfolding fill
  fill-tally [] buckets = omega (arith, tally_nil)
  fill-tally (m ∷ members) buckets =
      let p = group_of m overlay in
      let old = lookup p.key buckets in
      let new = add_member m p (or_new_bucket p old) in
      omega (
        arith,
        fill-tally members (insert p.key new buckets),
        insert-sum in_bucket p.key new buckets,
        or_new_bucket-tally p old,
        add_member-tally m p (or_new_bucket p old),
        tally-append test (m ∷ []) members,
      )

mark-members :
    (best : ℕ) (why name : Text) (i : ℕ) (members : List Candidate)
    → map (λ c. c.member) (mark best why name i members) ≡ map (λ c. c.member) members
unfolding mark
mark-members best why name i [] = refl
mark-members best why name i (c ∷ members) =
    cong_cons
      (if-member (i == best) (record c { keeper = true; reason = why })
        (if c.excluded then c else record c { reason = codes "surplus: the set keeps " ++ name })
        refl
        (if-member c.excluded c (record c { reason = codes "surplus: the set keeps " ++ name }) refl
          refl))
      (mark-members best why name (suc i) members)

drop_member-members :
    (members : List Candidate)
    → map (λ c. c.member) (map drop_member members) ≡ map (λ c. c.member) members
drop_member-members [] = refl
drop_member-members (c ∷ members) =
    cong_cons
      (if-member c.excluded c
        (record c { excluded = true; reason = codes "no English release"; keeper = false }) refl
        refl)
      (drop_member-members members)

abbrev pub dumps : Group → List Member
dumps g = map (λ c. c.member) g.members

require_english-dumps : (g : Group) (p : Policy) → dumps (require_english g p) ≡ dumps g
unfolding require_english
require_english-dumps g p =
    elim (Bool-cases
      (not p.require_english || any (λ c. not c.excluded && english_rank c == 0) g.members)) [
        | inl e ↦ rw e refl
        | inr e ↦ rw e (drop_member-members g.members)
      ]

module _ (parse : Text → ReleaseAttrs) (p : Policy) where
  keep_best-dumps : (g : Group) (best : Leader) → dumps (keep_best parse g p best) ≡ dumps g
  keep_best-dumps g none = refl
  keep_best-dumps g (some (i, k)) =
      mark-members i (keeper_reason parse k g.members p) k.member.name 0 g.members

  exclude-members :
      (b : Bucket) (members : List Member)
      → map (λ c. c.member) (map (λ m. exclude m (excluded_by parse m b.categories p)) members)
        ≡ members
  exclude-members b [] = refl
  exclude-members b (m ∷ members) =
      cong_cons (head (excluded_by parse m b.categories p)) (exclude-members b members)
    where
      head : (o : Option Text) → (exclude m o).member ≡ m
      head none = refl
      head (some why) = refl

  choose_keeper-dumps :
      (g : Group) (prio : Priorities) → dumps (choose_keeper parse g prio p) ≡ dumps g
  unfolding choose_keeper
  choose_keeper-dumps g prio = keep_best-dumps g (best_of parse prio p 0 g.members none)

  judged-dumps : (b : Bucket) → dumps (judged parse b p) ≡ b.members
  unfolding judged
  judged-dumps b = exclude-members b b.members

  pub group_from-dumps : (b : Bucket) → dumps (group_from parse p b) ≡ b.members
  unfolding group_from
  group_from-dumps b =
      let g = judged parse b p in
      require_english-dumps (choose_keeper parse g b.title_priority p) p
      ∙ choose_keeper-dumps g b.title_priority
      ∙ judged-dumps b

  -- Every catalogued dump stands in the groups as often as it was given: for each test on dumps,
  -- the groups hold together as many that pass it as the platform's list.
  pub build-tally :
      (overlay : Option (Member → Option Hit)) (test : Member → Bool) (members : List Member)
      → sum (λ g. tally test (dumps g)) (build parse members overlay p) ≡ tally test members
  unfolding build
  build-tally overlay test members =
      let buckets = fill overlay members [] in
      let total : sum (λ e. tally test e.1.members) buckets ≡ tally test members =
        omega (arith, fill-tally overlay test members []) in
      stable_sort-sum _ (λ g. tally test (dumps g)) (map (λ e. group_from parse p e.1) buckets)
      ∙ sum-map (λ g. tally test (dumps g)) (λ e. group_from parse p e.1) buckets
      ∙ sum-same _ (λ e. tally test e.1.members) buckets (always buckets)
      ∙ total
    where
      always :
          (es : List (Text × Bucket))
          → All (λ e. tally test (dumps (group_from parse p e.1)) ≡ tally test e.1.members) es
      always [] = tt
      always (e ∷ es) = (ap (tally test) (group_from-dumps e.1), always es)
