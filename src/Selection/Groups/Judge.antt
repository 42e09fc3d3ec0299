-- ===== src/Selection/Groups/Judge.antt =====
-- What becomes of a group: it never faults, and competes only on its terms.
use romarr.Base.{
  ℕ, suc, ◌+◌, ◌≡◌, refl, sym, subst, ◌≢◌, ◌⊎◌, inl, inr, Bool, true, false, not, ◌&&◌, ◌||◌,
  Option, none, some, List, [], ◌∷◌, arith, ◌==◌, length, all, is_none, All, All-append,
  All-append_left, Bool-cases, length-append,
}
use romarr.Base.Dict.{lookup, HasKey, HasKey-value, nat_eq, text_key}
use romarr.Selection.Model.{SearchResult, RejectReason}
use romarr.Selection.Groups.{
  SetGroup, Groups, RepairSet, wanted, min_disc_index, Candidate, Verdict, compete, reject, fault,
  reject_as, contiguous, judge_set, judge_repair, head_or_zero, judge, Pool, tally_verdict,
  judge_all,
}
use romarr.Selection.Groups.Filed.{IsGroup, AllGroups, min_disc_index-HasKey}

contiguous-head :
    (from n : ℕ) (discs : List (ℕ × SearchResult))
    → contiguous from (suc n) discs ≡ true
    → HasKey from discs
unfolding contiguous
contiguous-head from n discs h = ground arith

-- On what terms a group may compete with `rep` standing for it.
abbrev pub Competes : Option RepairSet → SetGroup → SearchResult → Type 0
Competes none g rep =
    (contiguous 1 (length g.discs) g.discs ≡ true)
    × ((g.total ≡ 0) ⊎ (length g.discs ≡ g.total))
    × (lookup 1 g.discs ≡ some rep)
Competes (some repair) g rep =
    (all (λ i. not (is_none (lookup i g.discs))) (wanted repair) ≡ true)
    × ((g.total ≡ 0) ⊎ (g.total ≡ repair.total))
    × (lookup (head_or_zero (wanted repair)) g.discs ≡ some rep)

-- A group becomes a candidate on those terms, or is rejected; it never faults.
abbrev IsFair : Option RepairSet → SetGroup → Verdict → Type 0
IsFair repair g (compete c) = Competes repair g c.rep × (c.set ≡ some g)
IsFair repair g (reject r) = Unit
IsFair repair g fault = ⊥

reject_as-IsFair :
    (repair : Option RepairSet) (g : SetGroup) (why : RejectReason)
    → g.discs ≢ []
    → IsFair repair g (reject_as why (lookup (min_disc_index g.discs) g.discs))
reject_as-IsFair repair g why h =
    let (r, found) = HasKey-value _ g.discs (min_disc_index-HasKey g.discs h) in rw found tt

-- `judge_set`'s test.
abbrev unfit : SetGroup → Bool
unfit g =
    let n = length g.discs in
    not (contiguous 1 n g.discs) || (not (g.total == 0) && not (n == g.total))

fit :
    (g : SetGroup)
    → unfit g ≡ false
    → (contiguous 1 (length g.discs) g.discs ≡ true) × ((g.total ≡ 0) ⊎ (length g.discs ≡ g.total))
fit g q = ground arith

nonempty_length : (m : List (ℕ × SearchResult)) → m ≢ [] → (n : ℕ) × (length m ≡ suc n)
nonempty_length [] ne = absurd (ne refl)
nonempty_length (p ∷ m) ne = (length m, refl)

first_disc : (g : SetGroup) → unfit g ≡ false → g.discs ≢ [] → HasKey 1 g.discs
first_disc g q ne =
    let (n, e) = nonempty_length g.discs ne in
    contiguous-head 1 n g.discs (subst (λ k. contiguous 1 k g.discs ≡ true) e (fit g q).0)

judge_set-IsFair : (g : SetGroup) → g.discs ≢ [] → IsFair none g (judge_set g)
unfolding judge_set
judge_set-IsFair g h = elim (Bool-cases (unfit g)) [
  | inl q ↦ rw q (reject_as-IsFair none g _ h)
  | inr q ↦
      let (r, found) = HasKey-value 1 g.discs (first_disc g q h) in
      rw (q, found) (((fit g q).0, (fit g q).1, found), refl)
]

all-head : (p : ℕ → Bool) (is : List ℕ) → is ≢ [] → all p is ≡ true → p (head_or_zero is) ≡ true
all-head p [] ne h = absurd (ne refl)
all-head p (i ∷ is) ne h = ground arith

judge_repair-IsFair :
    (repair : RepairSet) (g : SetGroup)
    → wanted repair ≢ []
    → g.discs ≢ []
    → IsFair (some repair) g (judge_repair repair g)
unfolding judge_repair
judge_repair-IsFair repair g want h =
    elim (Bool-cases (not (g.total == 0) && not (g.total == repair.total))) [
      | inl q ↦ rw q (reject_as-IsFair (some repair) g _ h)
      | inr q ↦ elim (Bool-cases covered) [
        | inr c ↦ rw (q, c) (reject_as-IsFair (some repair) g _ h)
        | inl c ↦
            let (r, found) = HasKey-value _ g.discs (not_not (all-head _ (wanted repair) want c)) in
            rw (q, c, found) ((c, agrees q, found), refl)
      ]
    ]
  where
    covered : Bool
    covered = all (λ i. not (is_none (lookup i g.discs))) (wanted repair)

    not_not : {b : Bool} → not b ≡ true → b ≡ false
    not_not e = ground arith

    agrees :
        not (g.total == 0) && not (g.total == repair.total) ≡ false
        → (g.total ≡ 0) ⊎ (g.total ≡ repair.total)
    agrees q = ground arith

-- In repair mode there is something to repair.
abbrev pub HasWork : Option RepairSet → Type 0
HasWork none = Unit
HasWork (some repair) = wanted repair ≢ []

judge-IsFair :
    (repair : Option RepairSet) (g : SetGroup)
    → HasWork repair
    → g.discs ≢ []
    → IsFair repair g (judge repair g)
judge-IsFair none g work h = judge_set-IsFair g h
judge-IsFair (some repair) g work h = judge_repair-IsFair repair g work h

-- A candidate from singles that satisfy `P`, or from a group whose releases do.
abbrev pub IsEligible :
    (P : SearchResult → Type 0) (repair : Option RepairSet)
    → SearchResult
    → Option SetGroup
    → Type 0
IsEligible P repair rep none = P rep
IsEligible P repair rep (some g) = IsGroup P g.key g × Competes repair g rep

module _ (P : SearchResult → Type 0) (repair : Option RepairSet) (work : HasWork repair) where
  abbrev pub AllEligible : List Candidate → Type 0
  AllEligible = All (λ c. IsEligible P repair c.rep c.set)

  -- A pool with no fault in it, whose candidates are eligible and which accounts for `n` inputs.
  abbrev pub IsPool : Pool → ℕ → Type 0
  IsPool none n = ⊥
  IsPool (some (cs, rs)) n = AllEligible cs × (length cs + length rs ≡ n)

  tally_verdict-IsPool :
      (v : Verdict) (g : SetGroup) (pool : Pool) (n : ℕ)
      → IsGroup P g.key g
      → IsFair repair g v
      → IsPool pool n
      → IsPool (tally_verdict v pool) (suc n)
  tally_verdict-IsPool (compete c) g (some (cs, rs)) n group fair h = (
    All-append (λ c. IsEligible P repair c.rep c.set) cs (c ∷ []) h.0
        (subst (IsEligible P repair c.rep) (sym fair.1) (group, fair.0), tt),
    omega (arith, length-append {0} cs (c ∷ []), h.1),
  )
  tally_verdict-IsPool (reject r) g (some (cs, rs)) n group fair h =
      (h.0, omega (arith, length-append {0} rs (r ∷ []), h.1))
  tally_verdict-IsPool fault g pool n group fair h = absurd fair
  tally_verdict-IsPool v g none n group fair h = absurd h

  pub judge_all-IsPool :
      (groups : Groups) (pool : Pool) (n : ℕ)
      → AllGroups P groups
      → IsPool pool n
      → IsPool (judge_all repair groups pool) (n + length groups)
  unfolding judge_all
  judge_all-IsPool [] pool n v h = subst (IsPool pool) (omega arith) h
  judge_all-IsPool ((k, g) ∷ groups) pool n v h =
      let group = subst (λ j. IsGroup P j g) (sym v.0.named) v.0 in
      subst (IsPool (judge_all repair groups (tally_verdict (judge repair g) pool))) (omega arith) (
        judge_all-IsPool groups (tally_verdict (judge repair g) pool) (suc n) v.1 (
          tally_verdict-IsPool (judge repair g) g pool n group
            (judge-IsFair repair g work group.some_disc) h))

-- A pool without a fault whose candidates satisfy `Q`.
abbrev pub OnPool : (Candidate → Type 0) → Pool → Type 0
OnPool Q none = ⊥
OnPool Q (some (cs, rs)) = All Q cs

tally_verdict_kept :
    (Q : Candidate → Type 0) (v : Verdict) (pool : Pool)
    → OnPool Q (tally_verdict v pool)
    → OnPool Q pool
tally_verdict_kept Q (compete c) (some (cs, rs)) h = All-append_left Q cs (c ∷ []) h
tally_verdict_kept Q (reject r) (some (cs, rs)) h = h
tally_verdict_kept Q (compete c) none h = absurd h
tally_verdict_kept Q (reject r) none h = absurd h
tally_verdict_kept Q fault pool h = absurd h

-- Judging the groups keeps the candidates that are there.
pub judge_all_kept :
    (Q : Candidate → Type 0) (repair : Option RepairSet) (groups : Groups) (pool : Pool)
    → OnPool Q (judge_all repair groups pool)
    → OnPool Q pool
unfolding judge_all
judge_all_kept Q repair [] pool h = h
judge_all_kept Q repair ((k, g) ∷ groups) pool h =
    tally_verdict_kept Q (judge repair g) pool (judge_all_kept Q repair groups _ h)
