-- ===== src/Selection/Pick/Sets.antt =====
-- What the grabs of a decision are: releases that were offered and survived, and whole disc sets.
use romarr.Base.{
  ℕ, zero, suc, ◌≡◌, refl, sym, subst, ap, ◌∙◌, ◌⊎◌, inl, inr, Bool, true, false, not, Option, none,
  some, List, [], ◌∷◌, arith, length, length-map, All, all-All, All-map, map, map-All, is_none,
  some_inj,
}
use romarr.Base.Text.{Text}
use romarr.Base.Dict.{lookup, lookup-All, HasKey, HasKey-value, nat_eq}
use romarr.Selection.Model.{SearchResult, Rejection, Grab, Decision}
use romarr.Selection.Groups.{SetGroup, RepairSet, wanted, Candidate, contiguous}
use romarr.Selection.Groups.Filed.{IsFiled, IsGroup}
use romarr.Selection.Groups.Judge.{Competes, IsEligible}
use romarr.Selection.Pick.{
  SelectOpts, disc_grab, indices, sanitize_component, set_grabs, grab_winner, select,
}
use romarr.Selection.Pick.Pooling.{Survives}
use romarr.Selection.Pick.Laws.{Settled, select-Settled}

-- A grab of a release that satisfies `P` and, for a disc of a set, is that disc of the set `k`.
pub record IsDiscOf (P : SearchResult → Type 0) (k : Text) (g : Grab) : Type 0 where
  pub release : SearchResult
  pub present : g.result ≡ some release
  pub filed : IsFiled P k g.disc_index release

pub record IsSingle (P : SearchResult → Type 0) (g : Grab) : Type 0 where
  pub release : SearchResult
  pub present : g.result ≡ some release
  pub sound : P release
  pub unset : g.disc_index ≡ 0

-- One release, or discs of one set.
pub data IsSound (P : SearchResult → Type 0) : List Grab → Type 0 where
  one : {g : Grab} → IsSingle P g → IsSound P (g ∷ [])
  discs : {gs : List Grab} → (k : Text) → All (IsDiscOf P k) gs → IsSound P gs

contiguous-indices :
    (from n : ℕ) (m : List (ℕ × SearchResult))
    → contiguous from n m ≡ true
    → All (λ i. HasKey i m) (indices from n)
unfolding contiguous indices
contiguous-indices from zero m h = tt
contiguous-indices from (suc n) m h =
    (ground arith, contiguous-indices (suc from) n m (ground arith))

not-true : (b : Bool) → not b ≡ true → b ≡ false
not-true b h = ground arith

disc_grab-IsDiscOf :
    (P : SearchResult → Type 0) (g : SetGroup) (id : Text) (total : ℕ) (dir : Text) (i : ℕ)
    → IsGroup P g.key g
    → HasKey i g.discs
    → IsDiscOf P g.key (disc_grab g id total dir i)
unfolding disc_grab
disc_grab-IsDiscOf P g id total dir i group h =
    let (r, found) = HasKey-value i g.discs h in
    record {
      release = r;
      present = found;
      filed = lookup-All (IsFiled P g.key) i g.discs group.filed found;
    }

module _ (set_id : Text) (strip_disc_token : Text → Text) where
  set_grabs-discs :
      (P : SearchResult → Type 0) (repair : Option RepairSet) (c : Candidate) (g : SetGroup)
      → IsGroup P g.key g
      → Competes repair g c.rep
      → All (IsDiscOf P g.key) (set_grabs set_id strip_disc_token repair c g)
  unfolding set_grabs
  set_grabs-discs P none c g group fair =
      map-All (IsDiscOf P g.key) _ (indices 1 (length g.discs)) (
        All-map (λ i. HasKey i g.discs) _ (indices 1 (length g.discs))
          (λ i. disc_grab-IsDiscOf P g set_id (length g.discs) _ i group)
          (contiguous-indices 1 (length g.discs) g.discs fair.0))
  set_grabs-discs P (some repair) c g group fair = map-All (IsDiscOf P g.key) _ (wanted repair) (
      All-map (λ i. not (is_none (lookup i g.discs)) ≡ true) _ (wanted repair)
        (λ i h.
          disc_grab-IsDiscOf P g repair.id repair.total repair.dir i group
            (not-true (is_none (lookup i g.discs)) h))
        (all-All _ (wanted repair) fair.0))

  grab_winner-IsSound :
      (P : SearchResult → Type 0) (repair : Option RepairSet) (c : Candidate) (o : Option SetGroup)
      (rejected : List Rejection)
      → IsEligible P repair c.rep o
      → IsSound P (grab_winner set_id strip_disc_token repair c o rejected).grabs
  grab_winner-IsSound P repair c none rejected e =
      one (record { release = c.rep; present = refl; sound = e; unset = refl })
  grab_winner-IsSound P repair c (some g) rejected e =
      discs g.key (set_grabs-discs P repair c g e.0 e.1)

  -- How the grabs of a set are numbered and stamped: all discs from 1 on with the fresh set's
  -- identity, or in repair mode the wanted discs with the identity of the set on disk.
  abbrev pub IsStamped : Option RepairSet → List Grab → Type 0
  IsStamped none grabs =
      (map (λ g. g.disc_index) grabs ≡ indices 1 (length grabs))
      × All (λ g. (g.disc_set_id ≡ set_id) × (g.disc_total ≡ length grabs)) grabs
  IsStamped (some repair) grabs =
      (map (λ g. g.disc_index) grabs ≡ wanted repair)
      × All
          (λ g.
            (g.disc_set_id ≡ repair.id) × (g.disc_total ≡ repair.total) × (g.set_dir ≡ repair.dir))
          grabs

  map-index :
      (g : SetGroup) (id : Text) (total : ℕ) (dir : Text) (is : List ℕ)
      → map (λ g. g.disc_index) (map (disc_grab g id total dir) is) ≡ is
  unfolding disc_grab
  map-index g id total dir [] = refl
  map-index g id total dir (i ∷ is) = ap (◌∷◌ i) (map-index g id total dir is)

  stamps :
      (g : SetGroup) (id : Text) (total : ℕ) (dir : Text) (is : List ℕ)
      → All
          (λ g. (g.disc_set_id ≡ id) × (g.disc_total ≡ total) × (g.set_dir ≡ dir))
          (map (disc_grab g id total dir) is)
  unfolding disc_grab
  stamps g id total dir [] = tt
  stamps g id total dir (i ∷ is) = ((refl, refl, refl), stamps g id total dir is)

  length-indices : (from n : ℕ) → length (indices from n) ≡ n
  unfolding indices
  length-indices from zero = refl
  length-indices from (suc n) = ap suc (length-indices (suc from) n)

  pub set_grabs-IsStamped :
      (repair : Option RepairSet) (c : Candidate) (g : SetGroup)
      → IsStamped repair (set_grabs set_id strip_disc_token repair c g)
  unfolding set_grabs
  set_grabs-IsStamped none c g =
      let n = length g.discs in
      let made = λ (dir : Text). map (disc_grab g set_id n dir) (indices 1 n) in
      let dir : Text = sanitize_component (strip_disc_token c.rep.title) in
      let e : length (made dir) ≡ n = length-map _ (indices 1 n) ∙ length-indices 1 n in
      (
        map-index g set_id n dir (indices 1 n) ∙ ap (indices 1) (sym e),
        All-map _ _ (made dir) (λ d s. (s.0, s.1 ∙ sym e)) (stamps g set_id n dir (indices 1 n)),
      )
  set_grabs-IsStamped (some repair) c g = (
    map-index g repair.id repair.total repair.dir (wanted repair),
    stamps g repair.id repair.total repair.dir (wanted repair),
  )

  module _ (cands : List SearchResult) (opts : SelectOpts) (d : Decision)
      (decided : select set_id strip_disc_token cands opts ≡ some d) where
    pub settled : Settled set_id strip_disc_token cands opts d
    settled =
        let (d', e, s) = select-Settled set_id strip_disc_token cands opts in
        subst (Settled set_id strip_disc_token cands opts) (some_inj (sym e ∙ decided)) s

    -- A decision grabs nothing, or one release, or discs of one set that each say which disc they
    -- are; and each release grabbed is present, was offered and is rejected by nothing.
    pub select-IsSound : (d.grabs ≡ []) ⊎ IsSound (Survives cands opts) d.grabs
    select-IsSound = elim settled [
      | inl skips ↦ inl skips.1
      | inr w ↦ inr (
          subst (λ e. IsSound (Survives cands opts) e.grabs) (sym w.grabs_it)
            (grab_winner-IsSound (Survives cands opts) opts.repair w.winner w.winner.set w.rejected
              w.eligible))
    ]
