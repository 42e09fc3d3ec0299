-- ===== src/Selection/Pick/Laws.antt =====
-- What every decision of `select` satisfies.
use romarr.Base.{
  ℕ, ◌≡◌, refl, ◌⊎◌, inl, inr, false, not, ◌&&◌, Option, none, some, List, [], ◌∷◌, arith, All,
  Member-All, Bool-cases, Option-cases,
}
use romarr.Base.Int.{ltb_ℤ}
use romarr.Base.Text.{Text}
use romarr.Base.Sort.{stable_sort, stable_sort-All, stable_sort-head}
use romarr.Selection.Model.{SearchResult, LibraryItem, Rejection, skip, Decision}
use romarr.Selection.Filter.{nonempty}
use romarr.Selection.Rank.{less}
use romarr.Selection.Groups.{disc_attrs, RepairSet, Candidate, Pool}
use romarr.Selection.Groups.Judge.{HasWork, IsEligible, IsPool, OnPool}
use romarr.Selection.Pick.{
  SelectOpts, early, early_decision, rejection, hard_filter, assemble, rank_of, better, identical,
  grab_winner, score_gate, settle_owned, settle, decide_pool, choose, select,
}
use romarr.Selection.Pick.Pooling.{
  Covers, Survives, hard_filter-Survives, better-IsStrictWeak, hard_filter_inv, early-HasWork,
  assemble-IsPool, assemble_inv,
}

module _ (set_id : Text) (strip_disc_token : Text → Text) (cands : List SearchResult)
    (opts : SelectOpts) where
  -- The decision `d` grabs the winner, which is eligible and passes the score gate. Outside repair
  -- mode no surviving single release ranks above it.
  pub record Wins (d : Decision) : Type 0 where
    pub winner : Candidate
    pub rejected : List Rejection
    pub eligible : IsEligible (Survives cands opts) opts.repair winner.rep winner.set
    pub grabs_it : d ≡ grab_winner set_id strip_disc_token opts.repair winner winner.set rejected
    pub passes : ltb_ℤ winner.rep.score opts.min_score ≡ false
    pub best :
        opts.repair ≡ none
        → (r : SearchResult) → Survives cands opts r
        → disc_attrs r ≡ none
        → less (rank_of opts r) (rank_of opts winner.rep) ≡ false

  -- The two kinds of decision.
  abbrev pub Skips : Decision → Type 0
  Skips d = (d.action ≡ skip) × (d.grabs ≡ [])

  abbrev pub Settled : Decision → Type 0
  Settled d = Skips d ⊎ Wins d

  score_gate-Settled :
      (c : Candidate) (rejected : List Rejection)
      → IsEligible (Survives cands opts) opts.repair c.rep c.set
      → (opts.repair ≡ none
          → (r : SearchResult) → Survives cands opts r
          → disc_attrs r ≡ none
          → less (rank_of opts r) (rank_of opts c.rep) ≡ false)
      → Settled (score_gate set_id strip_disc_token opts c rejected)
  score_gate-Settled c rejected e best = elim (Bool-cases (ltb_ℤ c.rep.score opts.min_score)) [
    | inl low ↦ rw low (inl (refl, refl))
    | inr high ↦ inr (record {
      winner = c;
      rejected = rejected;
      eligible = e;
      grabs_it = rw high refl;
      passes = high;
      best = best;
    })
  ]

  settle_owned-Settled :
      (c : Candidate) (rejected : List Rejection) (o : Option LibraryItem)
      → IsEligible (Survives cands opts) opts.repair c.rep c.set
      → (opts.repair ≡ none
          → (r : SearchResult) → Survives cands opts r
          → disc_attrs r ≡ none
          → less (rank_of opts r) (rank_of opts c.rep) ≡ false)
      → Settled (settle_owned set_id strip_disc_token opts c rejected o)
  settle_owned-Settled c rejected (some item) e best = inl (refl, refl)
  settle_owned-Settled c rejected none e best = score_gate-Settled c rejected e best

  settle-Settled :
      (cs : List Candidate) (rejected : List Rejection)
      → All (λ c. IsEligible (Survives cands opts) opts.repair c.rep c.set) cs
      → (opts.repair ≡ none
          → (Q : SearchResult → Type 0) → All (λ c. Q c.rep) cs
          → (r : SearchResult) → Survives cands opts r
          → disc_attrs r ≡ none
          → Q r)
      → Settled (settle set_id strip_disc_token opts rejected (stable_sort (better opts) cs))
  unfolding settle better
  settle-Settled cs rejected e kept = settle_sorted (stable_sort (better opts) cs) refl (
      stable_sort-All (better opts) (λ c. IsEligible (Survives cands opts) opts.repair c.rep c.set)
        cs e)
    where
      settle_sorted :
          (sorted : List Candidate)
          → stable_sort (better opts) cs ≡ sorted
          → All (λ c. IsEligible (Survives cands opts) opts.repair c.rep c.set) sorted
          → Settled (settle set_id strip_disc_token opts rejected sorted)
      settle_sorted [] q h = inl (refl, refl)
      settle_sorted (c ∷ rest) q h =
          settle_owned-Settled c rejected (identical opts.repair opts c.rep) h.0 λ plain r s single.
            kept plain (λ r. less (rank_of opts r) (rank_of opts c.rep) ≡ false)
              (stable_sort-head (better opts) (better-IsStrictWeak opts) cs q) r s single

  abbrev pub Decides : Option Decision → Type 0
  Decides o = (d : Decision) × (o ≡ some d) × Settled d

  decide_pool-Settled :
      (work : HasWork opts.repair) (pool : Pool) (n : ℕ)
      → IsPool (Survives cands opts) opts.repair work pool n
      → Covers cands opts (λ Q. OnPool (λ c. Q c.rep) pool)
      → Decides (decide_pool set_id strip_disc_token opts pool)
  decide_pool-Settled work none n h kept = absurd h
  decide_pool-Settled work (some (cs, rs)) n h kept = (_, refl, settle-Settled cs rs h.0 kept)

  choose-Settled :
      (survivors : List SearchResult) (rejected : List Rejection)
      → HasWork opts.repair
      → All (Survives cands opts) survivors
      → ((Q : SearchResult → Type 0)
          → All Q survivors
          → (r : SearchResult) → Survives cands opts r
          → Q r)
      → Decides (choose set_id strip_disc_token opts survivors rejected)
  unfolding choose
  choose-Settled survivors rejected work sound complete =
      elim (Bool-cases (opts.want.enforce && not (nonempty survivors))) [
        | inl q ↦ rw q (_, refl, inl (refl, refl))
        | inr q ↦
            let (n, h) = assemble-IsPool (Survives cands opts) opts work survivors rejected sound in
            rw q (
              decide_pool-Settled work (assemble opts survivors rejected) n h
                λ plain Q on r s single.
                  complete (λ r. disc_attrs r ≡ none → Q r)
                    (assemble_inv Q opts survivors rejected plain on) r s single)
      ]

  early-Skips : (repair : Option RepairSet) {d : Decision} → early repair opts ≡ some d → Skips d
  early-Skips none h = ground arith
  early-Skips (some repair) h = ground arith

  -- `select` always decides: whatever the candidates and the options, no nil pointer is read. It
  -- either skips and grabs nothing, or grabs a winner that was offered, that nothing rejects, that
  -- reaches the minimum score and that, outside repair mode, no surviving single release outranks.
  pub select-Settled : Decides (select set_id strip_disc_token cands opts)
  unfolding select early_decision
  select-Settled = elim (Option-cases (early opts.repair opts)) [
    | inr (d, e) ↦ (d, rw (e, select) refl, inl (early-Skips opts.repair e))
    | inl e ↦
        let found = hard_filter opts cands in
        rw (e, select)
          (choose-Settled found.0 found.1 (early-HasWork opts.repair opts e)
            (hard_filter-Survives opts cands cands (λ r m. m))
            λ Q on r s.
              Member-All (λ r. rejection opts r ≡ none → Q r) cands
                (hard_filter_inv Q opts cands on) s.0 s.1)
  ]
