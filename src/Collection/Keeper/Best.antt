-- ===== src/Collection/Keeper/Best.antt =====
-- What choosing a keeper does to a group, and what requiring English does after it.
use romarr.Base.{
  ℕ, zero, suc, ◌+◌, ◌<◌, ◌≡◌, refl, sym, subst, ap, ◌⊎◌, inl, inr, true, false, none, some, List,
  [], ◌∷◌, All, Bool-cases, tally, if◌then◌else◌, arith,
}
use romarr.Base.Int.{pos, negsuc}
use romarr.Base.Text.{Text}
use romarr.Base.Sort.{IsStrictWeak}
use romarr.Selection.Model.{ReleaseAttrs}
use romarr.Collection.Model.{Candidate, Group, get_elem?, keeper_of}
use romarr.Collection.Policy.{Policy}
use romarr.Collection.Keeper.{
  less, best_of, mark, choose_keeper, keeper_reason, challenge, Leader, Priorities,
}
use romarr.Collection.Keeper.Order.{less-IsStrictWeak}

-- `k` stands at index `j` of the members, which begin at index `i`, and is in the set.
abbrev pub StandsAt : ℕ → List Candidate → ℕ → Candidate → Type 0
StandsAt i members j k =
    (o : ℕ) × (j ≡ i + o) × (get_elem? members o ≡ some k) × (k.excluded ≡ false)

later-StandsAt :
    (i : ℕ) {j : ℕ} (c : Candidate) {k : Candidate} (members : List Candidate)
    → StandsAt (suc i) members j k
    → StandsAt i (c ∷ members) j k
later-StandsAt i c members (o, e, at, kept) = (suc o, omega (arith, e), at, kept)

abbrev pub flagged : Candidate → Text → Candidate
flagged k why = record k { keeper = true; reason = why }

mark-get_elem? :
    (why name : Text) (i best o : ℕ) (k : Candidate) (members : List Candidate)
    → best ≡ i + o
    → get_elem? members o ≡ some k
    → get_elem? (mark best why name i members) o ≡ some (flagged k why)
unfolding mark
mark-get_elem? why name i best zero k (c ∷ members) e h = ground arith
mark-get_elem? why name i best (suc o) k (c ∷ members) e h =
    mark-get_elem? why name (suc i) best o k members (omega (arith, e)) h
mark-get_elem? why name i best o k [] e h = absurd (ground arith)

mark-tally_past :
    (why name : Text) (best i : ℕ) (members : List Candidate)
    → best < i
    → All (λ c. c.keeper ≡ false) members
    → tally (λ c. c.keeper) (mark best why name i members) ≡ 0
unfolding mark tally
mark-tally_past why name best i [] h k = refl
mark-tally_past why name best i (c ∷ members) h k =
    ground (arith, mark-tally_past why name best (suc i) members)

mark-tally :
    (why name : Text) (i best o : ℕ) (k : Candidate) (members : List Candidate)
    → best ≡ i + o
    → get_elem? members o ≡ some k
    → All (λ c. c.keeper ≡ false) members
    → tally (λ c. c.keeper) (mark best why name i members) ≡ 1
unfolding mark tally
mark-tally why name i best zero k (c ∷ members) e h u =
    ground (arith, mark-tally_past why name best (suc i) members)
mark-tally why name i best (suc o) k (c ∷ members) e h u =
    ground (arith, mark-tally why name (suc i) best o k members)
mark-tally why name i best o k [] e h u = absurd (ground arith)

module _ (parse : Text → ReleaseAttrs) (prio : Priorities) (p : Policy) where
  -- No dump in the set comes before `k`.
  abbrev pub IsBest : Candidate → List Candidate → Type 0
  IsBest k = All (λ c. c.excluded ≡ false → less parse c k prio p ≡ false)

  abbrev pub IsBestOf : ℕ → List Candidate → ℕ → Candidate → ℕ → Candidate → Type 0
  IsBestOf i members j b j' k =
      ((j' ≡ j) × (k ≡ b) ⊎ StandsAt i members j' k)
      × IsBest k members
      × (less parse b k prio p ≡ false)

  order : IsStrictWeak (λ a b. less parse a b prio p)
  order = less-IsStrictWeak parse prio p

  less_irrefl : (k : Candidate) → less parse k k prio p ≡ false
  less_irrefl k = elim (Bool-cases (less parse k k prio p)) [
    | inl e ↦ order.asymm k k e
    | inr e ↦ e
  ]

  best_of_skip :
      (i : ℕ) (c : Candidate) (members : List Candidate) (best : Leader)
      → c.excluded ≡ true
      → best_of parse prio p i (c ∷ members) best ≡ best_of parse prio p (suc i) members best
  unfolding best_of
  best_of_skip i c members best e =
      ap
        (λ b.
          best_of parse prio p (suc i) members
            (if b then best else challenge parse prio p i c best))
        e

  best_of_take :
      (i : ℕ) (c : Candidate) (members : List Candidate) (best : Leader)
      → c.excluded ≡ false
      → best_of parse prio p i (c ∷ members) best
        ≡ best_of parse prio p (suc i) members (challenge parse prio p i c best)
  unfolding best_of
  best_of_take i c members best e =
      ap
        (λ b.
          best_of parse prio p (suc i) members
            (if b then best else challenge parse prio p i c best))
        e

  best_of_end : (i : ℕ) (best : Leader) → best_of parse prio p i [] best ≡ best
  unfolding best_of
  best_of_end i best = refl

  best_of-some :
      (i : ℕ) (members : List Candidate) (j : ℕ) (b : Candidate)
      → (j' : ℕ) × (k : Candidate) × (best_of parse prio p i members (some (j, b)) ≡ some (j', k))
        × IsBestOf i members j b j' k
  best_of-some i [] j b = (j, b, best_of_end i (some (j, b)), (inl (refl, refl), tt, less_irrefl b))
  best_of-some i (c ∷ members) j b = elim (Bool-cases c.excluded) [
    | inl e ↦ rw (best_of_skip i c members (some (j, b)) e) (
        let (j', k, found, (place, best, beats)) = best_of-some (suc i) members j b in
        (
          j',
          k,
          found,
          (
            elim place [ inl same ↦ inl same | inr h ↦ inr (later-StandsAt i c members h) ],
            (λ f. cc, best),
            beats,
          ),
        ))
    | inr e ↦ elim (Bool-cases (less parse c b prio p)) [
      | inl l ↦
          rw (best_of_take i c members (some (j, b)) e, l)
            (let (j', k, found, (place, best, beats)) = best_of-some (suc i) members i c in
              (
                j',
                k,
                found,
                (
                  elim place [
                    | inl same ↦ inr (
                      0,
                      omega (arith, same.0),
                      ap some (sym same.1),
                      subst (λ d. d.excluded ≡ false) (sym same.1) e,
                    )
                    | inr h ↦ inr (later-StandsAt i c members h)
                  ],
                  (λ f. beats, best),
                  order.negtrans k c b beats (order.asymm c b l),
                ),
              ))
      | inr l ↦
          rw (best_of_take i c members (some (j, b)) e, l)
            (let (j', k, found, (place, best, beats)) = best_of-some (suc i) members j b in
              (
                j',
                k,
                found,
                (
                  elim place [ inl same ↦ inl same | inr h ↦ inr (later-StandsAt i c members h) ],
                  (λ f. order.negtrans k b c beats l, best),
                  beats,
                ),
              ))
    ]
  ]

  pub best_of-none :
      (i : ℕ) (members : List Candidate)
      → All (λ c. c.excluded ≡ true) members × (best_of parse prio p i members none ≡ none)
        ⊎ ((j : ℕ) × (k : Candidate) × (best_of parse prio p i members none ≡ some (j, k))
            × StandsAt i members j k
            × IsBest k members)
  best_of-none i [] = inl (tt, best_of_end i none)
  best_of-none i (c ∷ members) = elim (Bool-cases c.excluded) [
    | inl e ↦ rw (best_of_skip i c members none e) (elim (best_of-none (suc i) members) [
      | inl h ↦ inl ((e, h.0), h.1)
      | inr (j, k, found, at, best) ↦
          inr (j, k, found, later-StandsAt i c members at, (λ f. cc, best))
    ])
    | inr e ↦ rw (best_of_take i c members none e) (
        let (j', k, found, (place, best, beats)) = best_of-some (suc i) members i c in
        inr (
          j',
          k,
          found,
          elim place [
            | inl same ↦ (
              0,
              omega (arith, same.0),
              ap some (sym same.1),
              subst (λ d. d.excluded ≡ false) (sym same.1) e,
            )
            | inr h ↦ later-StandsAt i c members h
          ],
          (λ f. beats, best),
        ))
  ]

  -- What the choice makes of a group without a keeper.
  abbrev pub IsChosen : Group → Group → Type 0
  IsChosen g g' =
      All (λ c. c.excluded ≡ true) g.members × (keeper_of g' ≡ none) × (g'.members ≡ g.members)
      ⊎ ((i : ℕ) × (k : Candidate) × StandsAt 0 g.members i k
          × IsBest k g.members
          × (g'.keeper_index ≡ pos i)
          × (keeper_of g' ≡ some (flagged k (keeper_reason parse k g.members p)))
          × (tally (λ c. c.keeper) g'.members ≡ 1))

  -- For a group without a keeper yet: if policy excludes every dump there is no keeper and the
  -- dumps are as they were; otherwise the keeper is a dump that is not excluded and that no other
  -- such dump comes before, it is the one that carries the flag, and it says why.
  pub choose_keeper-IsChosen :
      (g : Group)
      → g.keeper_index ≡ negsuc 0
      → All (λ c. c.keeper ≡ false) g.members
      → IsChosen g (choose_keeper parse g prio p)
  unfolding choose_keeper keeper_of
  choose_keeper-IsChosen g fresh unflagged = elim (best_of-none 0 g.members) [
    | inl (out, e) ↦ inl (out, rw (e, fresh) refl, rw e refl)
    | inr (j, k, found, at, best) ↦ inr (
      j,
      k,
      at,
      best,
      rw found refl,
      rw found (
          let why = keeper_reason parse k g.members p in
          subst (λ o. get_elem? (mark j why k.member.name 0 g.members) o ≡ some (flagged k why))
            (omega (arith, at.1))
            (mark-get_elem? why k.member.name 0 j at.0 k g.members at.1 at.2)),
      rw found (mark-tally _ _ 0 j at.0 k g.members at.1 at.2 unflagged),
    )
  ]
