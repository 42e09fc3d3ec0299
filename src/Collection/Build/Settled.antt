-- ===== src/Collection/Build/Settled.antt =====
-- Every built group has either no keeper and no dump in the set, or one flagged keeper.
use romarr.Base.{
  ℕ, zero, suc, ◌+◌, ◌≡◌, refl, sym, subst, ◌⊎◌, inl, inr, Bool, true, false, Option, none, some,
  List, [], ◌∷◌, map, All, All-map, map-All, Bool-cases, ◌&&◌, ◌||◌, not, any, ◌==◌, if◌then◌else◌,
  tally, arith, ◌<◌, some_inj,
}
use romarr.Base.Int.{negsuc}
use romarr.Base.Text.{Text, codes}
use romarr.Base.Sort.{stable_sort-All}
use romarr.Selection.Model.{ReleaseAttrs}
use romarr.Collection.Model.{Member, Candidate, Group, get_elem?, keeper_of}
use romarr.Collection.Policy.{Policy, english_rank, excluded_by}
use romarr.Collection.Keeper.{
  choose_keeper, require_english, Priorities, mark, drop_member, keeper_reason,
}
use romarr.Collection.Keeper.Best.{flagged, IsChosen, choose_keeper-IsChosen, best_of-none}
use romarr.Collection.Build.{Hit, Bucket, fill, exclude, judged, group_from, build, title_first}

abbrev Unflagged : List Candidate → Type 0
Unflagged = All (λ c. c.keeper ≡ false)

-- A group has an eligible dump that is English-capable.
abbrev pub has_english : Group → Bool
has_english g = any (λ c. not c.excluded && english_rank c == 0) g.members

abbrev pub IsSettled : Policy → Group → Type 0
IsSettled p g =
    (keeper_of g ≡ none) × All (λ c. c.excluded ≡ true) g.members × Unflagged g.members
    ⊎ ((k : Candidate) × (keeper_of g ≡ some k)
        × (k.excluded ≡ false)
        × (k.keeper ≡ true)
        × (tally (λ c. c.keeper) g.members ≡ 1)
        × ((p.require_english ≡ false) ⊎ (has_english g ≡ true)))

-- What a group is like before English is required of it.
abbrev IsReady : Group → Type 0
IsReady g =
    (keeper_of g ≡ none) × All (λ c. c.excluded ≡ true) g.members × Unflagged g.members
    ⊎ ((k : Candidate) × (keeper_of g ≡ some k)
        × (k.excluded ≡ false)
        × (k.keeper ≡ true)
        × (tally (λ c. c.keeper) g.members ≡ 1))

-- A flagged dump is in the set.
abbrev FlagFits : List Candidate → Type 0
FlagFits = All (λ c. c.excluded ≡ true → c.keeper ≡ false)

later : (i best : ℕ) → best < i → (i == best) ≡ false
later i best h = ground arith

later_by : (i best o : ℕ) → best ≡ i + suc o → (i == best) ≡ false
later_by i best o h = ground arith

here : (i best : ℕ) → best ≡ i + zero → (i == best) ≡ true
here i best h = ground arith

out : {b : Bool} {A : Type 0} → b ≡ true → b ≡ false → A
out h k = absurd (cc)

unmarked :
    (b : Bool) (c : Candidate) (why : Text)
    → c.keeper ≡ false
    → (if b then c else record c { reason = why }).keeper ≡ false
unmarked true c why h = h
unmarked false c why h = h

mark-FlagFits_past :
    (why name : Text) (best i : ℕ) (members : List Candidate)
    → best < i
    → Unflagged members
    → FlagFits (mark best why name i members)
unfolding mark
mark-FlagFits_past why name best i [] h u = tt
mark-FlagFits_past why name best i (c ∷ members) h u = (
  (λ f. rw (later i best h) (unmarked c.excluded c _ u.0)),
  mark-FlagFits_past why name best (suc i) members (omega (arith, h)) u.1,
)

mark-FlagFits :
    (why name : Text) (i best o : ℕ) (k : Candidate) (members : List Candidate)
    → best ≡ i + o
    → get_elem? members o ≡ some k
    → k.excluded ≡ false
    → Unflagged members
    → FlagFits (mark best why name i members)
unfolding mark
mark-FlagFits why name i best zero k (c ∷ members) e h x u = (
  rw (here i best e) (λ f. out f (subst (λ d. d.excluded ≡ false) (sym (some_inj h)) x)),
  mark-FlagFits_past why name best (suc i) members (omega (arith, e)) u.1,
)
mark-FlagFits why name i best (suc o) k (c ∷ members) e h x u = (
  (λ f. rw (later_by i best o e) (unmarked c.excluded c _ u.0)),
  mark-FlagFits why name (suc i) best o k members (omega (arith, e)) h x u.1,
)
mark-FlagFits why name i best o k [] e h x u = tt

drop_one :
    (b : Bool) (c : Candidate) (why : Text)
    → c.excluded ≡ b
    → (c.excluded ≡ true → c.keeper ≡ false)
    → ((if b then c else record c { excluded = true; reason = why; keeper = false }).excluded
        ≡ true)
      × ((if b then c else record c { excluded = true; reason = why; keeper = false }).keeper
          ≡ false)
drop_one true c why e h = (e, h e)
drop_one false c why e h = (refl, refl)

drop_member-All :
    (members : List Candidate)
    → FlagFits members
    → All (λ c. c.excluded ≡ true) (map drop_member members) × Unflagged (map drop_member members)
drop_member-All [] h = (tt, tt)
drop_member-All (c ∷ members) h =
    let (gone, unflagged) = drop_one c.excluded c (codes "no English release") refl h.0 in
    let (all_gone, all_unflagged) = drop_member-All members h.1 in
    ((gone, all_gone), (unflagged, all_unflagged))

either : (a b : Bool) → (not a || b) ≡ true → (a ≡ false) ⊎ (b ≡ true)
either true b h = inr h
either false b h = inl refl

require_english-IsSettled :
    (p : Policy) (g : Group) → FlagFits g.members → IsReady g → IsSettled p (require_english g p)
unfolding require_english keeper_of
require_english-IsSettled p g fits ready =
    elim (Bool-cases (not p.require_english || has_english g)) [
      | inl e ↦ rw e (elim ready [
        | inl h ↦ inl h
        | inr (k, found, kept, flag, one) ↦
            inr (k, found, kept, flag, one, either p.require_english (has_english g) e)
      ])
      | inr e ↦
          rw e
            (let (gone, unflagged) = drop_member-All g.members fits in inl (refl, gone, unflagged))
    ]

module _ (parse : Text → ReleaseAttrs) (p : Policy) where
  exclude-Unflagged :
      (b : Bucket) (members : List Member)
      → Unflagged (map (λ m. exclude m (excluded_by parse m b.categories p)) members)
  exclude-Unflagged b [] = tt
  exclude-Unflagged b (m ∷ members) =
      (head (excluded_by parse m b.categories p), exclude-Unflagged b members)
    where
      head : (o : Option Text) → (exclude m o).keeper ≡ false
      head none = refl
      head (some why) = refl

  IsChosen-IsReady :
      (g g' : Group) (prio : Priorities)
      → Unflagged g.members
      → IsChosen parse prio p g g'
      → IsReady g'
  IsChosen-IsReady g g' prio u (inl (gone, none_kept, same)) = inl (
    none_kept,
    subst (All (λ c. c.excluded ≡ true)) (sym same) gone,
    subst Unflagged (sym same) u,
  )
  IsChosen-IsReady g g' prio u (inr (i, k, at, best, index, found, one)) =
      inr (flagged k (keeper_reason parse k g.members p), found, at.3, refl, one)

  choose_keeper-FlagFits :
      (g : Group) (prio : Priorities)
      → Unflagged g.members
      → FlagFits (choose_keeper parse g prio p).members
  unfolding choose_keeper
  choose_keeper-FlagFits g prio u = elim (best_of-none parse prio p 0 g.members) [
    | inl (out, e) ↦ rw e (All-map _ _ g.members (λ c h f. h) u)
    | inr (j, k, found, at, best) ↦
        rw found (mark-FlagFits _ _ 0 j at.0 k g.members at.1 at.2 at.3 u)
  ]

  judged-fresh :
      (b : Bucket)
      → ((judged parse b p).keeper_index ≡ negsuc 0) × Unflagged (judged parse b p).members
  unfolding judged
  judged-fresh b = (refl, exclude-Unflagged b b.members)

  group_from-IsSettled : (b : Bucket) → IsSettled p (group_from parse p b)
  unfolding group_from
  group_from-IsSettled b =
      let g = judged parse b p in
      let prio = b.title_priority in
      let (index, u) = judged-fresh b in
      require_english-IsSettled p (choose_keeper parse g prio p) (choose_keeper-FlagFits g prio u) (
        IsChosen-IsReady g (choose_keeper parse g prio p) prio u
          (choose_keeper-IsChosen parse prio p g index u))

  -- Every built group either has no keeper, no flag and only excluded dumps, or has a keeper that
  -- is not excluded and is the one flagged dump; then, where English is required, one of its
  -- eligible dumps is English-capable.
  pub build-AllSettled :
      (overlay : Option (Member → Option Hit)) (members : List Member)
      → All (IsSettled p) (build parse members overlay p)
  unfolding build
  build-AllSettled overlay members =
      stable_sort-All title_first (IsSettled p) _
        (map-All (IsSettled p) (λ e. group_from parse p e.1) buckets (always buckets))
    where
      buckets : List (Text × Bucket)
      buckets = fill overlay members []

      always : (es : List (Text × Bucket)) → All (λ e. IsSettled p (group_from parse p e.1)) es
      always [] = tt
      always (e ∷ es) = (group_from-IsSettled e.1, always es)
