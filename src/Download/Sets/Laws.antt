-- ===== src/Download/Sets/Laws.antt =====
-- internal/download/discset.go: a disc set is finalized once, and none waits for ever.
use romarr.Base.{
  ◌≡◌, refl, sym, ap, ◌∙◌, ◌⊎◌, inl, inr, Bool, true, false, ◌||◌, List, [], ◌∷◌, any, tally,
  Bool-cases, ◌==◌, leb, ltb, arith,
}
use romarr.Base.Text.{Text, is_empty}
use romarr.Download.Model.{JobStore}
use romarr.Download.Sets.{
  DiscSetMember, is_done, is_finalized, disc_set_members, total_of, Tail, finalize_members,
  finalize_disc_set, maybe_finalize_disc_set,
}
use romarr.Download.Sets.Updates.{IsKeyed}
use romarr.Download.Sets.Marks.{finalize_disc_set-marks}

finalized_stays :
    (tail : Tail) (id : Text) (degraded : Bool) (s : JobStore)
    → any is_finalized (disc_set_members id s.jobs) ≡ true
    → finalize_disc_set tail id degraded s ≡ s
unfolding finalize_disc_set
finalized_stays tail id degraded s h = among (disc_set_members id s.jobs) h
  where
    among :
        (ms : List DiscSetMember)
        → any is_finalized ms ≡ true
        → finalize_members tail id degraded s ms ≡ s
    among [] q = refl
    among (lead ∷ rest) q = rw q refl

-- A set is finalized at most once: over jobs with ids of their own, finalizing it again, complete or
-- degraded and whatever the run meets, changes nothing.
pub finalize_disc_set-once :
    (tail tail' : Tail) (id : Text) (degraded degraded' : Bool) (s : JobStore)
    → IsKeyed s.jobs
    → finalize_disc_set tail' id degraded' (finalize_disc_set tail id degraded s)
      ≡ finalize_disc_set tail id degraded s
unfolding finalize_disc_set
finalize_disc_set-once tail tail' id degraded degraded' s keyed =
    elim (finalize_disc_set-marks tail id degraded s keyed) [
      | inl (same, none_there) ↦
          ap (finalize_disc_set tail' id degraded') same ∙ empty_stays none_there ∙ sym same
      | inr final ↦ finalized_stays tail' id degraded' (finalize_disc_set tail id degraded s) final
    ]
  where
    empty_stays : disc_set_members id s.jobs ≡ [] → finalize_disc_set tail' id degraded' s ≡ s
    empty_stays e = rw e refl

-- The members of the set that a store has.
abbrev pub is_settled : Text → JobStore → Bool
is_settled id s = any is_finalized (disc_set_members id s.jobs)

pub settles :
    (tail : Tail) (id : Text) (degraded : Bool) (s : JobStore) {m : DiscSetMember}
    {ms : List DiscSetMember}
    → IsKeyed s.jobs
    → disc_set_members id s.jobs ≡ m ∷ ms
    → is_settled id (finalize_disc_set tail id degraded s) ≡ true
settles tail id degraded s keyed e = elim (finalize_disc_set-marks tail id degraded s keyed) [
  | inl (same, none_there) ↦ absurd (cons_nil (sym e ∙ none_there))
  | inr final ↦ final
]
  where
    cons_nil : {m : DiscSetMember} {ms : List DiscSetMember} → m ∷ ms ≡ [] → ⊥
    cons_nil q = cc

-- The barrier of a set all of whose discs have landed settles it; as long as one is missing, the
-- store stays as it is.
maybe_finalize-barrier :
    (tail : Tail) (id : Text) (s : JobStore) {m : DiscSetMember} {ms : List DiscSetMember}
    → is_empty id ≡ false
    → IsKeyed s.jobs
    → disc_set_members id s.jobs ≡ m ∷ ms
    → ((is_settled id (maybe_finalize_disc_set tail id s) ≡ true)
        × ((is_settled id s || leb (total_of (m ∷ ms)) (tally is_done (m ∷ ms))) ≡ true))
      ⊎ ((maybe_finalize_disc_set tail id s ≡ s)
          × ((total_of (m ∷ ms) == 0 || ltb (tally is_done (m ∷ ms)) (total_of (m ∷ ms))) ≡ true))
unfolding maybe_finalize_disc_set
maybe_finalize-barrier tail id s {m} {ms} named keyed e =
    rw (named, e)
      (elim (Bool-cases (any is_finalized (m ∷ ms))) [
        | inl f ↦ inl (rw f (ap (any is_finalized) e ∙ f, refl))
        | inr f ↦
            elim (Bool-cases
              (total_of (m ∷ ms) == 0 || ltb (tally is_done (m ∷ ms)) (total_of (m ∷ ms)))) [
                | inl c ↦ inr (rw (f, c) (refl, refl))
                | inr c ↦ inl (rw (f, c) (settles tail id false s keyed e, all_there c))
              ]
      ])
  where
    all_there :
        (total_of (m ∷ ms) == 0 || ltb (tally is_done (m ∷ ms)) (total_of (m ∷ ms))) ≡ false
        → leb (total_of (m ∷ ms)) (tally is_done (m ∷ ms)) ≡ true
    all_there c = ground arith
