-- ===== src/Selection/Pick/Pooling.antt =====
-- What the filters and the pool of candidates keep of the candidates that were offered.
use romarr.Base.{
  ℕ, ◌≡◌, refl, subst, inl, inr, Option, none, some, List, [], ◌∷◌, arith, All, All-append_left,
  All-append_right, map-All, map-All_inv, Member, Option-cases,
}
use romarr.Base.Text.{text_ltb}
use romarr.Base.Sort.{IsStrictWeak, stable_sort-All}
use romarr.Selection.Model.{SearchResult, ReleaseAttrs, Rejection}
use romarr.Selection.Rank.Order.{less-IsStrictWeak}
use romarr.Selection.Groups.{Groups, disc_attrs, place, split_discs, RepairSet, sorted_groups}
use romarr.Selection.Groups.Filed.{IsGroup, AllGroups, split_discs-AllSplit}
use romarr.Selection.Groups.Judge.{
  HasWork, IsEligible, AllEligible, IsPool, judge_all-IsPool, OnPool, judge_all_kept,
}
use romarr.Selection.Pick.{
  SelectOpts, early, rejection, hard_filter, singles_of, assemble, rank_of, better,
}

-- A candidate that was offered and that nothing rejects.
abbrev pub Survives : List SearchResult → SelectOpts → SearchResult → Type 0
Survives cands opts r = Member r cands × (rejection opts r ≡ none)

pub hard_filter-Survives :
    (opts : SelectOpts) (all cands : List SearchResult)
    → ((r : SearchResult) → Member r cands → Member r all)
    → All (Survives all opts) (hard_filter opts cands).0
unfolding hard_filter
hard_filter-Survives opts all [] f = tt
hard_filter-Survives opts all (r ∷ cands) f = elim (Option-cases (rejection opts r)) [
  | inl e ↦ rw e ((f r (inl refl), e), hard_filter-Survives opts all cands (λ s m. f s (inr m)))
  | inr (why, e) ↦ rw e (hard_filter-Survives opts all cands (λ s m. f s (inr m)))
]

-- What it takes for a property of all candidates to hold of a surviving single release.
abbrev pub Covers : List SearchResult → SelectOpts → ((SearchResult → Type 0) → Type 0) → Type 1
Covers cands opts Holds =
    opts.repair ≡ none
    → (Q : SearchResult → Type 0) → Holds Q
    → (r : SearchResult) → Survives cands opts r
    → disc_attrs r ≡ none
    → Q r

pub better-IsStrictWeak : (opts : SelectOpts) → IsStrictWeak (better opts)
unfolding better
better-IsStrictWeak opts = record {
  asymm = λ c d. less-IsStrictWeak.asymm (rank_of opts c.rep) (rank_of opts d.rep);
  negtrans = λ c d e.
      less-IsStrictWeak.negtrans (rank_of opts c.rep) (rank_of opts d.rep) (rank_of opts e.rep);
}

pub hard_filter_inv :
    (Q : SearchResult → Type 0) (opts : SelectOpts) (cands : List SearchResult)
    → All Q (hard_filter opts cands).0
    → All (λ r. rejection opts r ≡ none → Q r) cands
unfolding hard_filter
hard_filter_inv Q opts [] h = tt
hard_filter_inv Q opts (r ∷ cands) h = elim (Option-cases (rejection opts r)) [
  | inl e ↦
      let h' : All Q (r ∷ (hard_filter opts cands).0) = rw e at h in
      (λ _. h'.0, hard_filter_inv Q opts cands h'.1)
  | inr (why, e) ↦ (λ e'. absurd (cc), hard_filter_inv Q opts cands (rw e at h))
]

place_inv :
    (Q : SearchResult → Type 0) (r : SearchResult) (o : Option ReleaseAttrs)
    (acc : List SearchResult × Groups)
    → All Q (place r o acc).0
    → All Q acc.0 × (o ≡ none → Q r)
place_inv Q r none acc h =
    (All-append_left Q acc.0 (r ∷ []) h, λ _. (All-append_right Q acc.0 (r ∷ []) h).0)
place_inv Q r (some a) acc h = (h, λ e. absurd (cc))

split_discs_inv :
    (Q : SearchResult → Type 0) (rs : List SearchResult) (acc : List SearchResult × Groups)
    → All Q (split_discs rs acc).0
    → All Q acc.0 × All (λ r. disc_attrs r ≡ none → Q r) rs
unfolding split_discs
split_discs_inv Q [] acc h = (h, tt)
split_discs_inv Q (r ∷ rs) acc h =
    let (before, later) = split_discs_inv Q rs (place r (disc_attrs r) acc) h in
    let (kept, placed) = place_inv Q r (disc_attrs r) acc before in (kept, (placed, later))

pub early-HasWork :
    (repair : Option RepairSet) (opts : SelectOpts) → early repair opts ≡ none → HasWork repair
early-HasWork none opts h = tt
early-HasWork (some repair) opts h = λ q. absurd (ground arith)

pub assemble-IsPool :
    (P : SearchResult → Type 0) (opts : SelectOpts) (work : HasWork opts.repair)
    (survivors : List SearchResult) (rejected : List Rejection)
    → All P survivors
    → (n : ℕ) × IsPool P opts.repair work (assemble opts survivors rejected) n
unfolding assemble sorted_groups
assemble-IsPool P opts work survivors rejected h =
    let split = split_discs survivors ([], []) in
    let found : All P split.0 × AllGroups P split.1 =
      split_discs-AllSplit P survivors ([], []) h (tt, tt) in
    (
      _,
      judge_all-IsPool P opts.repair work (sorted_groups split.1)
          (some (singles_of opts.repair split.0, rejected)) _
          (stable_sort-All (λ p q. text_ltb p.0 q.0) (λ p. IsGroup P p.0 p.1) split.1 found.1)
          (singles-AllEligible opts.repair split.0 work found.0, refl),
    )
  where
    singles-AllEligible :
        (repair : Option RepairSet) (singles : List SearchResult) (w : HasWork repair)
        → All P singles
        → AllEligible P repair w (singles_of repair singles)
    singles-AllEligible none singles w all =
        map-All (λ c. IsEligible P none c.rep c.set) (λ r. record { rep = r; set = none }) singles
          all
    singles-AllEligible (some repair) singles w all = tt

pub assemble_inv :
    (Q : SearchResult → Type 0) (opts : SelectOpts) (survivors : List SearchResult)
    (rejected : List Rejection)
    → opts.repair ≡ none
    → OnPool (λ c. Q c.rep) (assemble opts survivors rejected)
    → All (λ r. disc_attrs r ≡ none → Q r) survivors
unfolding assemble
assemble_inv Q opts survivors rejected plain h =
    let split = split_discs survivors ([], []) in
    let kept : All (λ c. Q c.rep) (singles_of opts.repair split.0) =
      judge_all_kept (λ c. Q c.rep) opts.repair (sorted_groups split.1)
        (some (singles_of opts.repair split.0, rejected)) h in
    let singles : All Q split.0 =
      map-All_inv (λ c. Q c.rep) (λ r. record { rep = r; set = none }) split.0
        (subst (λ repair. All (λ c. Q c.rep) (singles_of repair split.0)) plain kept) in
    (split_discs_inv Q survivors ([], []) singles).1
