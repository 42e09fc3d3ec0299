-- ===== src/Collection/Reconcile/Claims.antt =====
-- A library file satisfies at most one catalogued dump.
use romarr.Base.{
  ℕ, zero, suc, ◌+◌, ◌-◌, ◌≤◌, ◌≡◌, refl, sym, subst, ap, ◌∙◌, false, Option, none, some, List, [],
  ◌∷◌, arith, ◌==◌, ==_iff, if◌then◌else◌, map, is_none, tally, tally-append, Bool-cases,
  Option-cases, some_inj, All, inl, inr,
}
use mathlib.Core.Path.{ap₂}
use romarr.Base.Text.{Text}
use romarr.Collection.Model.{Tier, hash, name, title, Match, Candidate, Group, get_elem?, set}
use romarr.Collection.Reconcile.{
  Index, member_order, lookup_tier, is_claimed, take_answer, claim, claim_found, claim_members,
  claim_groups, claim_tiers, entry_of, reconcile, Unowned, member_ids, claimed_library_ids,
}

zero_add : (n : ℕ) → 0 + n ≡ n
zero_add n = omega arith

-- How many members hold the file `id`.
owns : ℕ → Candidate → ℕ
owns id c = elim c.owned [ none ↦ 0 | some m ↦ if m.library_id == id then 1 else 0 ]

held : ℕ → List Candidate → ℕ
held id [] = 0
held id (c ∷ members) = owns id c + held id members

held_groups : ℕ → List Group → ℕ
held_groups id [] = 0
held_groups id (g ∷ groups) = held id g.members + held_groups id groups

-- At most one member holds the file, and none if it is not claimed.
abbrev Fresh : ℕ → List ℕ → ℕ → Type 0
Fresh id claimed total = (total ≤ 1) × (is_claimed claimed id ≡ false → total ≡ 0)

take_answer-Fresh :
    (id k : ℕ) (tier : Tier) (o : Option Match) (claimed : List ℕ) (c : Candidate)
    → c.owned ≡ none
    → Fresh id claimed (k + owns id c)
    → let turn = take_answer tier o claimed c in Fresh id turn.0 (k + owns id turn.1)
unfolding owns
take_answer-Fresh id k tier none claimed c e h = h
take_answer-Fresh id k tier (some m) claimed c e h =
    elim (Bool-cases (is_claimed claimed m.library_id)) [
      | inl old ↦ rw old h
      | inr new ↦ elim (Bool-cases (m.library_id == id)) [
        | inl same ↦
            let q : m.library_id ≡ id = (==_iff m.library_id id).0 same in
            let free : is_claimed claimed id ≡ false =
              subst (λ j. is_claimed claimed j ≡ false) q new in
            let empty = h.1 free in
            rw (new, same) (omega (arith, empty), λ f. absurd (ground arith))
        | inr other ↦ rw (new, other) (ground arith)
      ]
    ]

module _ (ownership_keys : Text → List Text) where
  claim-Fresh :
      (id k : ℕ) (idx : Option Index) (tier : Tier) (claimed : List ℕ) (c : Candidate)
      → Fresh id claimed (k + owns id c)
      → let turn = claim ownership_keys idx tier claimed c in Fresh id turn.0 (k + owns id turn.1)
  unfolding claim
  claim-Fresh id k idx tier claimed c h = elim (Option-cases c.owned) [
    | inl e ↦
        rw (ap is_none e)
          (take_answer-Fresh id k tier (lookup_tier ownership_keys c.member idx tier) claimed c e h)
    | inr (m, e) ↦ rw (ap is_none e) h
  ]

held-set :
    (id : ℕ) (members : List Candidate) (i : ℕ) (c c' : Candidate)
    → get_elem? members i ≡ some c
    → held id (set members i c') + owns id c ≡ held id members + owns id c'
unfolding held
held-set id [] i c c' h = absurd (cc)
held-set id (d ∷ members) zero c c' h = let e : d ≡ c = some_inj h in omega (arith, ap (owns id) e)
held-set id (d ∷ members) (suc i) c c' h = omega (arith, held-set id members i c c' h)

owns-le-held :
    (id : ℕ) (members : List Candidate) (i : ℕ) (c : Candidate)
    → get_elem? members i ≡ some c
    → owns id c ≤ held id members
unfolding held
owns-le-held id [] i c h = absurd (cc)
owns-le-held id (d ∷ members) zero c h = let e : d ≡ c = some_inj h in omega (arith, ap (owns id) e)
owns-le-held id (d ∷ members) (suc i) c h = omega (arith, owns-le-held id members i c h)

module _ (ownership_keys : Text → List Text) (id : ℕ) (idx : Option Index) where
  claim_found-Fresh :
      (k : ℕ) (tier : Tier) (i : ℕ) (o : Option Candidate) (state : List ℕ × List Candidate)
      → get_elem? state.1 i ≡ o
      → Fresh id state.0 (k + held id state.1)
      → let next = claim_found ownership_keys idx tier i o state in
        Fresh id next.0 (k + held id next.1)
  claim_found-Fresh k tier i none state e h = h
  claim_found-Fresh k tier i (some c) (claimed, members) e h =
      let c' = (claim ownership_keys idx tier claimed c).1 in
      let swap : held id (set members i c') + owns id c ≡ held id members + owns id c' =
        held-set id members i c c' e in
      let below : owns id c ≤ held id members = owns-le-held id members i c e in
      let k' = k + held id members - owns id c in
      let turn =
        claim-Fresh ownership_keys id k' idx tier claimed c
          (subst (Fresh id claimed) (regroup k (held id members) (owns id c) below) h) in
      subst (Fresh id (claim ownership_keys idx tier claimed c).0)
        (swapped k (held id members) (owns id c) (owns id c') (held id (set members i c')) below
          swap)
        turn
    where
      regroup : (k a b : ℕ) → b ≤ a → k + a ≡ k + a - b + b
      regroup k a b l = omega arith

      swapped : (k a b b' a' : ℕ) → b ≤ a → a' + b ≡ a + b' → k + a - b + b' ≡ k + a'
      swapped k a b b' a' l e = omega arith

  claim_members-Fresh :
      (k : ℕ) (tier : Tier) (order : List ℕ) (state : List ℕ × List Candidate)
      → Fresh id state.0 (k + held id state.1)
      → let next = claim_members ownership_keys idx tier order state in
        Fresh id next.0 (k + held id next.1)
  unfolding claim_members
  claim_members-Fresh k tier [] state h = h
  claim_members-Fresh k tier (i ∷ order) state h =
      claim_members-Fresh k tier order
        (claim_found ownership_keys idx tier i (get_elem? state.1 i) state)
        (claim_found-Fresh k tier i (get_elem? state.1 i) state refl h)

  claim_groups-Fresh :
      (k : ℕ) (tier : Tier) (claimed : List ℕ) (groups : List Group)
      → Fresh id claimed (k + held_groups id groups)
      → let next = claim_groups ownership_keys idx tier claimed groups in
        Fresh id next.0 (k + held_groups id next.1)
  unfolding claim_groups held_groups
  claim_groups-Fresh k tier claimed [] h = h
  claim_groups-Fresh k tier claimed (g ∷ groups) h =
      let others = held_groups id groups in
      let here = claim_members ownership_keys idx tier (member_order g) (claimed, g.members) in
      let first : Fresh id here.0 (k + others + held id here.1) =
        claim_members-Fresh (k + others) tier (member_order g) (claimed, g.members)
          (subst (Fresh id claimed) (omega arith) h) in
      let rest =
        claim_groups-Fresh (k + held id here.1) tier here.0 groups
          (subst (Fresh id here.0) (omega arith) first) in
      subst (Fresh id (claim_groups ownership_keys idx tier here.0 groups).0) (omega arith) rest

  claim_tiers-Fresh :
      (tiers : List Tier) (state : List ℕ × List Group)
      → Fresh id state.0 (held_groups id state.1)
      → let next = claim_tiers ownership_keys idx tiers state in
        Fresh id next.0 (held_groups id next.1)
  unfolding claim_tiers
  claim_tiers-Fresh [] state h = h
  claim_tiers-Fresh (tier ∷ tiers) state h =
      let next = claim_groups ownership_keys idx tier state.0 state.1 in
      claim_tiers-Fresh tiers next (
        subst (Fresh id next.0) (zero_add (held_groups id next.1)) (
          claim_groups-Fresh 0 tier state.0 state.1
            (subst (Fresh id state.0) (sym (zero_add (held_groups id state.1))) h)))

tally-member_ids :
    (id : ℕ) (members : List Candidate)
    → tally (λ j. j == id) (member_ids members) ≡ held id members
unfolding tally member_ids held owns
tally-member_ids id [] = refl
tally-member_ids id (c ∷ members) = ground (arith, tally-member_ids id members)

tally-claimed_library_ids :
    (id : ℕ) (groups : List Group)
    → tally (λ j. j == id) (claimed_library_ids (map entry_of groups)) ≡ held_groups id groups
unfolding claimed_library_ids held_groups entry_of
tally-claimed_library_ids id [] = unfold tally in refl
tally-claimed_library_ids id (g ∷ groups) =
    tally-append (λ j. j == id) (member_ids g.members) (claimed_library_ids (map entry_of groups))
    ∙ ap₂ ◌+◌ (tally-member_ids id g.members) (tally-claimed_library_ids id groups)

held_of_unowned :
    (id : ℕ) (members : List Candidate)
    → All (λ (c : Candidate). c.owned ≡ none) members
    → held id members ≡ 0
unfolding held owns
held_of_unowned id [] h = refl
held_of_unowned id (c ∷ members) h = rw (h.0) (omega (arith, held_of_unowned id members h.1))

held_groups_of_Unowned : (id : ℕ) (groups : List Group) → Unowned groups → held_groups id groups ≡ 0
unfolding held_groups
held_groups_of_Unowned id [] h = refl
held_groups_of_Unowned id (g ∷ groups) h =
    omega (arith, held_of_unowned id g.members h.0, held_groups_of_Unowned id groups h.1)

-- Starting from groups in which no dump has a file, every library file is the file of at most one
-- dump after `Reconcile`, over all the groups and all three tiers.
pub reconcile_once :
    (ownership_keys : Text → List Text) (idx : Option Index) (groups : List Group) (id : ℕ)
    → Unowned groups
    → tally (λ j. j == id) (claimed_library_ids (reconcile ownership_keys groups idx)) ≤ 1
unfolding reconcile
reconcile_once ownership_keys idx groups id unowned =
    let none_held = held_groups_of_Unowned id groups unowned in
    let fresh =
      claim_tiers-Fresh ownership_keys id idx (hash ∷ name ∷ title ∷ []) ([], groups)
        (omega (arith, none_held), λ _. none_held) in
    subst (λ n. n ≤ 1)
      (sym (
        tally-claimed_library_ids id
          (claim_tiers ownership_keys idx (hash ∷ name ∷ title ∷ []) ([], groups)).1))
      fresh.0
