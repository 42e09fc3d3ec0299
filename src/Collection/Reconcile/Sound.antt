-- ===== src/Collection/Reconcile/Sound.antt =====
-- Every file that a dump is given is an answer of the library to that dump's own question.
use romarr.Base.{
  ℕ, zero, suc, ◌∙◌, ◌≡◌, refl, inl, inr, Option, none, some, List, [], ◌∷◌, map-All, All-map,
  is_none, Bool-cases, All, some_inj, subst, sym,
}
use romarr.Base.Text.{Text}
use romarr.Collection.Model.{Tier, hash, name, title, Match, Candidate, Group, get_elem?, set}
use romarr.Collection.Reconcile.{
  Index, Entry, member_order, lookup_tier, is_claimed, take_answer, claim, claim_found,
  claim_members, claim_groups, claim_tiers, entry_of, reconcile, Unowned,
}

module _ (ownership_keys : Text → List Text) (idx : Option Index) where
  -- The dump's file is what the library answered for it in the tier that is stamped on it.
  pub record IsAnswer (c : Candidate) (m : Match) : Type 0 where
    pub tier : Tier
    pub answer : Match
    pub asked : lookup_tier ownership_keys c.member idx tier ≡ some answer
    pub stamped : m ≡ record answer { matched_by = some tier }

  abbrev pub IsAnswered : Candidate → Type 0
  IsAnswered c = (m : Match) → c.owned ≡ some m → IsAnswer c m

  claim-IsAnswered :
      (tier : Tier) (claimed : List ℕ) (c : Candidate)
      → IsAnswered c
      → IsAnswered (claim ownership_keys idx tier claimed c).1
  unfolding claim
  claim-IsAnswered tier claimed c h = elim (Bool-cases (is_none c.owned)) [
    | inr old ↦ rw old h
    | inl new ↦ rw new (answered (lookup_tier ownership_keys c.member idx tier) refl)
  ]
    where
      answered :
          (o : Option Match)
          → lookup_tier ownership_keys c.member idx tier ≡ o
          → IsAnswered (take_answer tier o claimed c).1
      answered none e = h
      answered (some m) e = elim (Bool-cases (is_claimed claimed m.library_id)) [
        | inl taken ↦ rw taken h
        | inr free ↦
            rw free
              λ m' q. record { tier = tier; answer = m; asked = e; stamped = sym (some_inj q) }
      ]

  get-All :
      (P : Candidate → Type 0) (members : List Candidate) (i : ℕ) (c : Candidate)
      → All P members
      → get_elem? members i ≡ some c
      → P c
  get-All P [] i c h e = absurd (cc)
  get-All P (d ∷ members) zero c h e = subst P (some_inj e) h.0
  get-All P (d ∷ members) (suc i) c h e = get-All P members i c h.1 e

  set-All :
      (P : Candidate → Type 0) (members : List Candidate) (i : ℕ) (c : Candidate)
      → All P members
      → P c
      → All P (set members i c)
  set-All P [] i c h p = tt
  set-All P (d ∷ members) zero c h p = (p, h.1)
  set-All P (d ∷ members) (suc i) c h p = (h.0, set-All P members i c h.1 p)

  claim_found-IsAnswered :
      (tier : Tier) (i : ℕ) (o : Option Candidate) (state : List ℕ × List Candidate)
      → get_elem? state.1 i ≡ o
      → All IsAnswered state.1
      → All IsAnswered (claim_found ownership_keys idx tier i o state).1
  claim_found-IsAnswered tier i none state e h = h
  claim_found-IsAnswered tier i (some c) (claimed, members) e h =
      set-All IsAnswered members i _ h
        (claim-IsAnswered tier claimed c (get-All IsAnswered members i c h e))

  claim_members-IsAnswered :
      (tier : Tier) (order : List ℕ) (state : List ℕ × List Candidate)
      → All IsAnswered state.1
      → All IsAnswered (claim_members ownership_keys idx tier order state).1
  unfolding claim_members
  claim_members-IsAnswered tier [] state h = h
  claim_members-IsAnswered tier (i ∷ order) state h =
      claim_members-IsAnswered tier order
        (claim_found ownership_keys idx tier i (get_elem? state.1 i) state)
        (claim_found-IsAnswered tier i (get_elem? state.1 i) state refl h)

  abbrev AllAnswered : List Group → Type 0
  AllAnswered = All (λ g. All IsAnswered g.members)

  claim_groups-IsAnswered :
      (tier : Tier) (claimed : List ℕ) (groups : List Group)
      → AllAnswered groups
      → AllAnswered (claim_groups ownership_keys idx tier claimed groups).1
  unfolding claim_groups
  claim_groups-IsAnswered tier claimed [] h = tt
  claim_groups-IsAnswered tier claimed (g ∷ groups) h =
      let here = claim_members ownership_keys idx tier (member_order g) (claimed, g.members) in
      (
        claim_members-IsAnswered tier (member_order g) (claimed, g.members) h.0,
        claim_groups-IsAnswered tier here.0 groups h.1,
      )

  claim_tiers-IsAnswered :
      (tiers : List Tier) (state : List ℕ × List Group)
      → AllAnswered state.1
      → AllAnswered (claim_tiers ownership_keys idx tiers state).1
  unfolding claim_tiers
  claim_tiers-IsAnswered [] state h = h
  claim_tiers-IsAnswered (tier ∷ tiers) state h =
      claim_tiers-IsAnswered tiers (claim_groups ownership_keys idx tier state.0 state.1)
        (claim_groups-IsAnswered tier state.0 state.1 h)

  -- Starting from groups in which no dump has a file, every file that `Reconcile` gives a dump is
  -- the library's answer about that very dump, in the tier that the match is stamped with.
  pub reconcile-IsAnswered :
      (groups : List Group)
      → Unowned groups
      → All (λ (e : Entry). All IsAnswered e.group.members) (reconcile ownership_keys groups idx)
  unfolding reconcile entry_of
  reconcile-IsAnswered groups h =
      map-All (λ (e : Entry). All IsAnswered e.group.members) entry_of _
        (claim_tiers-IsAnswered (hash ∷ name ∷ title ∷ []) ([], groups)
          (All-map _ _ groups
            (λ g.
              All-map (λ (c : Candidate). c.owned ≡ none) IsAnswered g.members
                λ c e m q. absurd (none_some (sym e ∙ q)))
            h))
    where
      none_some : {m : Match} → none ≡ some m → ⊥
      none_some q = cc
