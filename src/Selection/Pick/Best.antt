-- ===== src/Selection/Pick/Best.antt =====
-- The winner's rank and score, the stamps of a set, and who owns a title.
use romarr.Base.{
  ℕ, ◌≡◌, refl, sym, subst, ap, ◌∙◌, inl, inr, false, Option, none, some, List, [], ◌∷◌, length,
  map, some_inj,
}
use romarr.Base.Int.{ltb_ℤ}
use romarr.Base.Text.{Text}
use romarr.Base.Dict.{lookup, nat_eq}
use romarr.Selection.Model.{SearchResult, Rejection, skip, grab, grab_set, Grab, Decision}
use romarr.Selection.Rank.{less}
use romarr.Selection.Groups.{SetGroup, disc_attrs, RepairSet, wanted, Candidate, head_or_zero}
use romarr.Selection.Groups.Judge.{IsEligible}
use romarr.Selection.Pick.{
  SelectOpts, rank_of, single_grab, disc_grab, indices, set_grabs, grab_winner, select,
}
use romarr.Selection.Pick.Pooling.{Survives}
use romarr.Selection.Pick.Sets.{settled, set_grabs-IsStamped, IsStamped}

-- The release of the first grab.
abbrev pub leader : List Grab → Option SearchResult
leader [] = none
leader (g ∷ grabs) = g.result

module _ (set_id : Text) (strip_disc_token : Text → Text) where
  leader-map-indices :
      (f : ℕ → Grab) (m : List (ℕ × SearchResult)) (r : SearchResult)
      → lookup 1 m ≡ some r
      → (f 1).result ≡ lookup 1 m
      → leader (map f (indices 1 (length m))) ≡ some r
  unfolding indices lookup
  leader-map-indices f [] r h q = cc
  leader-map-indices f (p ∷ m) r h q = q ∙ h

  leader-map-wanted :
      (f : ℕ → Grab) (is : List ℕ) (w : SearchResult)
      → leader (map f is) ≡ some w
      → (f (head_or_zero is)).result ≡ some w
  leader-map-wanted f [] w q = cc
  leader-map-wanted f (i ∷ is) w q = q

  -- The first grab of a winner is the release that was ranked.
  leader-grab_winner :
      (P : SearchResult → Type 0) (repair : Option RepairSet) (c : Candidate) (o : Option SetGroup)
      (rejected : List Rejection) (w : SearchResult)
      → IsEligible P repair c.rep o
      → leader (grab_winner set_id strip_disc_token repair c o rejected).grabs ≡ some w
      → c.rep ≡ w
  unfolding set_grabs disc_grab
  leader-grab_winner P repair c none rejected w e h = some_inj h
  leader-grab_winner P none c (some g) rejected w e h =
      some_inj (sym (leader-map-indices _ g.discs c.rep e.1.2 refl) ∙ h)
  leader-grab_winner P (some repair) c (some g) rejected w e h =
      some_inj (sym e.1.2 ∙ leader-map-wanted _ (wanted repair) w h)

  module _ (cands : List SearchResult) (opts : SelectOpts) (d : Decision)
      (decided : select set_id strip_disc_token cands opts ≡ some d) where
    -- The release that is grabbed first reaches the minimum score and, outside repair mode, no
    -- surviving release that is not a disc of a set ranks above it.
    pub select-leader :
        (w : SearchResult)
        → leader d.grabs ≡ some w
        → (ltb_ℤ w.score opts.min_score ≡ false)
          × (opts.repair ≡ none
              → (r : SearchResult) → Survives cands opts r
              → disc_attrs r ≡ none
              → less (rank_of opts r) (rank_of opts w) ≡ false)
    select-leader w h = elim (settled set_id strip_disc_token cands opts d decided) [
      | inl skips ↦ absurd (no_leader d.grabs skips.1 h)
      | inr v ↦
          subst
            (λ w.
              (ltb_ℤ w.score opts.min_score ≡ false)
              × (opts.repair ≡ none
                  → (r : SearchResult) → Survives cands opts r
                  → disc_attrs r ≡ none
                  → less (rank_of opts r) (rank_of opts w) ≡ false))
            (leader-grab_winner (Survives cands opts) opts.repair v.winner v.winner.set v.rejected w
              v.eligible (sym (ap (λ e. leader e.grabs) v.grabs_it) ∙ h))
            (v.passes, v.best)
    ]
      where
        no_leader : (gs : List Grab) → gs ≡ [] → leader gs ≡ some w → ⊥
        no_leader [] q l = cc
        no_leader (g ∷ gs) q l = cc

    -- The action says what the grabs are: a skip has none, a single grab has one that belongs to no
    -- set, and a set's grabs are numbered and stamped as one set.
    pub select-action :
        (d.action ≡ skip → d.grabs ≡ [])
        × (d.action ≡ grab → (r : SearchResult) × (d.grabs ≡ single_grab (some r) ∷ []))
        × (d.action ≡ grab_set → IsStamped set_id strip_disc_token opts.repair d.grabs)
    select-action = elim (settled set_id strip_disc_token cands opts d decided) [
      | inl skips ↦ (λ _. skips.1, λ q. absurd (cc), λ q. absurd (cc))
      | inr v ↦ subst Acts (sym v.grabs_it) (acts v.winner v.winner.set v.rejected)
    ]
      where
        Acts : Decision → Type 0
        Acts d =
            (d.action ≡ skip → d.grabs ≡ [])
            × (d.action ≡ grab → (r : SearchResult) × (d.grabs ≡ single_grab (some r) ∷ []))
            × (d.action ≡ grab_set → IsStamped set_id strip_disc_token opts.repair d.grabs)

        acts :
            (c : Candidate) (o : Option SetGroup) (rejected : List Rejection)
            → Acts (grab_winner set_id strip_disc_token opts.repair c o rejected)
        acts c none rejected = (λ q. absurd (cc), λ q. (c.rep, refl), λ q. absurd (cc))
        acts c (some g) rejected = (
          λ q. absurd (cc),
          λ q. absurd (cc),
          λ q. set_grabs-IsStamped set_id strip_disc_token opts.repair c g,
        )
