-- ===== src/Selection/Pick/Owned.antt =====
-- Which decisions name an owner, and on whose word.
use romarr.Base.{
  ◌≡◌, refl, ◌⊎◌, inl, inr, true, false, not, ◌&&◌, Option, none, some, List, [], ◌∷◌, arith,
  Bool-cases, Option-cases, All, All-map, Member-All, ℕ, ◌≢◌, ◌||◌, some_inj, sym, subst, ◌∙◌,
}
use romarr.Base.Int.{ltb_ℤ}
use romarr.Base.Text.{Text, is_empty}
use romarr.Base.Dict.{lookup-All, nat_eq}
use romarr.Base.Sort.{stable_sort, stable_sort-All, stable_sort-head}
use romarr.Selection.Model.{SearchResult, Rejection, LibraryItem, skip, Decision}
use romarr.Selection.Filter.{nonempty}
use romarr.Selection.Rank.{less}
use romarr.Selection.Groups.{disc_attrs, RepairSet, SetGroup, Candidate, Pool}
use romarr.Selection.Groups.Filed.{IsFiled}
use romarr.Selection.Groups.Judge.{HasWork, IsEligible, IsPool, OnPool}
use romarr.Selection.Pick.Pooling.{
  Covers, Survives, hard_filter-Survives, early-HasWork, assemble-IsPool, assemble_inv,
  hard_filter_inv, better-IsStrictWeak,
}
use romarr.Selection.Pick.{
  SelectOpts, ask, owned_by_pin, early, early_decision, hard_filter, assemble, rejection, rank_of,
  better, identical, grab_winner, score_gate, settle_owned, settle, decide_pool, choose, select,
}

-- No surviving single release ranks above `r`.
abbrev pub IsUnbeaten : List SearchResult → SelectOpts → SearchResult → Type 0
IsUnbeaten cands opts r =
    (s : SearchResult)
    → Survives cands opts s
    → disc_attrs s ≡ none
    → less (rank_of opts s) (rank_of opts r) ≡ false

-- Whose word the ownership rests on: for an enforced pin the pinned dump's, otherwise the title's;
-- or that of the hashes, not both empty, of a candidate that was offered, that nothing rejects and
-- that no surviving single release outranks.
abbrev pub IsOwner : List SearchResult → SelectOpts → LibraryItem → Type 0
IsOwner cands opts item =
    ((opts.want.enforce ≡ true) × (owned_by_pin opts.want opts ≡ some item))
    ⊎ ((opts.want.enforce ≡ false) × (ask opts.owned opts.query opts.platform_slug ≡ some item))
    ⊎ ((r : SearchResult) × Survives cands opts r
        × IsUnbeaten cands opts r
        × ((r.md5 ≢ []) ⊎ (r.sha1 ≢ []))
        × (ask opts.owned_by_hash r.md5 r.sha1 ≡ some item))

-- An owner is named only by a skip outside repair mode, on one of those words.
abbrev pub OwnedSkip : List SearchResult → SelectOpts → Decision → LibraryItem → Type 0
OwnedSkip cands opts d item = (d.action ≡ skip) × (opts.repair ≡ none) × IsOwner cands opts item

some_hash :
    (md5 sha1 : Text)
    → (not (is_empty md5) || not (is_empty sha1)) ≡ true
    → (md5 ≢ []) ⊎ (sha1 ≢ [])
some_hash [] [] h = absurd (cc)
some_hash [] (c ∷ sha1) h = inr (λ q. cc)
some_hash (c ∷ md5) sha1 h = inl (λ q. cc)

-- What holds of the releases behind a candidate holds of the one that stands for it.
eligible-rep :
    (P : SearchResult → Type 0) (repair : Option RepairSet) (rep : SearchResult)
    (o : Option SetGroup)
    → IsEligible P repair rep o
    → P rep
eligible-rep P repair rep none h = h
eligible-rep P none rep (some g) h = (lookup-All (IsFiled P g.key) _ g.discs h.0.filed h.1.2).sound
eligible-rep P (some repair) rep (some g) h =
    (lookup-All (IsFiled P g.key) _ g.discs h.0.filed h.1.2).sound

early-owned :
    (cands : List SearchResult) (repair : Option RepairSet) (opts : SelectOpts) (d : Decision)
    (item : LibraryItem)
    → opts.repair ≡ repair
    → early repair opts ≡ some d
    → d.owned_by ≡ some item
    → OwnedSkip cands opts d item
early-owned cands (some repair) opts d item q e h = absurd (ground arith)
early-owned cands none opts d item q e h = elim (Bool-cases opts.want.enforce) [
  | inl pinned ↦ ground arith
  | inr plain ↦ ground arith
]

identical-owned :
    (repair : Option RepairSet) (opts : SelectOpts) (r : SearchResult) (item : LibraryItem)
    → identical repair opts r ≡ some item
    → (repair ≡ none)
      × ((r.md5 ≢ []) ⊎ (r.sha1 ≢ []))
      × (ask opts.owned_by_hash r.md5 r.sha1 ≡ some item)
identical-owned none opts r item h =
    elim (Bool-cases (not (is_empty r.md5) || not (is_empty r.sha1))) [
      | inl e ↦ (refl, some_hash r.md5 r.sha1 e, rw e at h)
      | inr e ↦ absurd (none_some (rw e at h))
    ]
  where
    none_some : none ≡ some item → ⊥
    none_some q = cc
identical-owned (some repair) opts r item h = absurd (cc)

module _ (set_id : Text) (strip_disc_token : Text → Text) where
  grab_winner-owned :
      (repair : Option RepairSet) (c : Candidate) (o : Option SetGroup) (rejected : List Rejection)
      → (grab_winner set_id strip_disc_token repair c o rejected).owned_by ≡ none
  grab_winner-owned repair c none rejected = refl
  grab_winner-owned repair c (some g) rejected = refl

  score_gate-owned :
      (opts : SelectOpts) (c : Candidate) (rejected : List Rejection)
      → (score_gate set_id strip_disc_token opts c rejected).owned_by ≡ none
  score_gate-owned opts c rejected = elim (Bool-cases (ltb_ℤ c.rep.score opts.min_score)) [
    | inl low ↦ rw low refl
    | inr high ↦ rw high (grab_winner-owned opts.repair c c.set rejected)
  ]

  settle_owned-owned :
      (cands : List SearchResult) (opts : SelectOpts) (c : Candidate) (rejected : List Rejection)
      (o : Option LibraryItem) (item : LibraryItem)
      → Survives cands opts c.rep
      → (opts.repair ≡ none → IsUnbeaten cands opts c.rep)
      → identical opts.repair opts c.rep ≡ o
      → (settle_owned set_id strip_disc_token opts c rejected o).owned_by ≡ some item
      → OwnedSkip cands opts (settle_owned set_id strip_disc_token opts c rejected o) item
  settle_owned-owned cands opts c rejected none item offered best e h =
      absurd (none_some (sym (score_gate-owned opts c rejected) ∙ h))
    where
      none_some : none ≡ some item → ⊥
      none_some q = cc
  settle_owned-owned cands opts c rejected (some i) item offered best e h =
      let (plain, hashed, word) = identical-owned opts.repair opts c.rep item (e ∙ h) in
      (refl, plain, inr (inr (c.rep, offered, best plain, hashed, word)))

  settle-owned :
      (cands : List SearchResult) (opts : SelectOpts) (rejected : List Rejection)
      (cs sorted : List Candidate) (item : LibraryItem)
      → stable_sort (better opts) cs ≡ sorted
      → All (λ c. Survives cands opts c.rep) sorted
      → Covers cands opts (λ Q. All (λ c. Q c.rep) cs)
      → (settle set_id strip_disc_token opts rejected sorted).owned_by ≡ some item
      → OwnedSkip cands opts (settle set_id strip_disc_token opts rejected sorted) item
  unfolding settle better
  settle-owned cands opts rejected cs [] item q offered kept h = absurd (cc)
  settle-owned cands opts rejected cs (c ∷ rest) item q offered kept h =
      settle_owned-owned cands opts c rejected (identical opts.repair opts c.rep) item offered.0
        (λ plain.
          kept plain (λ r. less (rank_of opts r) (rank_of opts c.rep) ≡ false)
            (stable_sort-head (better opts) (better-IsStrictWeak opts) cs q))
        refl h

  decide_pool-owned :
      (cands : List SearchResult) (opts : SelectOpts) (work : HasWork opts.repair) (pool : Pool)
      (n : ℕ) (d : Decision) (item : LibraryItem)
      → IsPool (Survives cands opts) opts.repair work pool n
      → Covers cands opts (λ Q. OnPool (λ c. Q c.rep) pool)
      → decide_pool set_id strip_disc_token opts pool ≡ some d
      → d.owned_by ≡ some item
      → OwnedSkip cands opts d item
  decide_pool-owned cands opts work none n d item offered kept e h = absurd offered
  decide_pool-owned cands opts work (some (cs, rejected)) n d item offered kept e h =
      let sorted = stable_sort (better opts) cs in
      let q : settle set_id strip_disc_token opts rejected sorted ≡ d = some_inj e in
      subst (λ d. OwnedSkip cands opts d item) q
        (settle-owned cands opts rejected cs sorted item refl
          (stable_sort-All (better opts) (λ c. Survives cands opts c.rep) cs
            (All-map (λ c. IsEligible (Survives cands opts) opts.repair c.rep c.set)
              (λ c. Survives cands opts c.rep) cs
              (λ c. eligible-rep (Survives cands opts) opts.repair c.rep c.set) offered.0))
          kept (subst (λ d. d.owned_by ≡ some item) (sym q) h))

  choose-owned :
      (cands : List SearchResult) (opts : SelectOpts) (work : HasWork opts.repair)
      (survivors : List SearchResult) (rejected : List Rejection) (d : Decision)
      (item : LibraryItem)
      → All (Survives cands opts) survivors
      → ((Q : SearchResult → Type 0)
          → All Q survivors
          → (r : SearchResult) → Survives cands opts r
          → Q r)
      → choose set_id strip_disc_token opts survivors rejected ≡ some d
      → d.owned_by ≡ some item
      → OwnedSkip cands opts d item
  unfolding choose
  choose-owned cands opts work survivors rejected d item offered complete e h =
      elim (Bool-cases (opts.want.enforce && not (nonempty survivors))) [
        | inl q ↦ absurd (waits (some_inj (rw q at e)))
        | inr q ↦
            let (n, pool) =
              assemble-IsPool (Survives cands opts) opts work survivors rejected offered in
            decide_pool-owned cands opts work (assemble opts survivors rejected) n d item pool
              (λ plain Q on r s single.
                complete (λ r. disc_attrs r ≡ none → Q r)
                  (assemble_inv Q opts survivors rejected plain on) r s single)
              (rw q at e) h
      ]
    where
      waits :
          {why : _}
          → record { action = skip; grabs = []; reason = why; rejected = rejected; owned_by = none }
            ≡ d
          → ⊥
      waits q = cc

  -- A decision names an owner only when it skips, outside repair mode, and on one of these words:
  -- for an enforced want the library's answer about the pinned dump, for any other want its answer
  -- about the title, or its answer about the hashes, not both empty, of a candidate that was
  -- offered, that nothing rejects and that no surviving single release outranks. So a title match
  -- alone never consumes a pinned row.
  pub select-owned :
      (cands : List SearchResult) (opts : SelectOpts) (d : Decision) (item : LibraryItem)
      → select set_id strip_disc_token cands opts ≡ some d
      → d.owned_by ≡ some item
      → OwnedSkip cands opts d item
  unfolding select early_decision
  select-owned cands opts d item e h = elim (Option-cases (early opts.repair opts)) [
    | inr (d', q) ↦ early-owned cands opts.repair opts d item refl (q ∙ (rw (q, select) at e)) h
    | inl q ↦
        let found = hard_filter opts cands in
        choose-owned cands opts (early-HasWork opts.repair opts q) found.0 found.1 d item
          (hard_filter-Survives opts cands cands (λ r m. m))
          (λ Q on r s.
            Member-All (λ r. rejection opts r ≡ none → Q r) cands (hard_filter_inv Q opts cands on)
              s.0 s.1)
          (rw (q, select) at e) h
  ]
