-- ===== src/Download/Sets/Sweep.antt =====
-- internal/download/discset.go: which sets a sweep leaves as they are.
use romarr.Base.{
  ℕ, ◌+◌, ◌-◌, ◌≤◌, ◌≡◌, ◌≢◌, refl, sym, ◌∙◌, ◌⊎◌, inl, inr, true, false, ◌&&◌, ◌||◌, List, [], ◌∷◌,
  if◌then◌else◌, any, tally, Bool-cases, ◌==◌, ==_iff, leb, ltb, All, All-map, Member, arith,
}
use romarr.Base.Text.{Text, codes, text_eq, text_eq_iff}
use romarr.Download.Model.{JobStore}
use romarr.Download.Sets.{
  DiscSetMember, is_done, is_finalized, is_pending, disc_set_members, total_of, oldest_from, Tail,
  sweep_set,
}
use romarr.Download.Sets.Updates.{IsKeyed}
use romarr.Download.Sets.Laws.{is_settled, settles}

-- A disc that has not landed, whose job neither failed nor was interrupted.
abbrev pub IsWaiting : DiscSetMember → Type 0
IsWaiting m =
    (m.job.set_member_done ≡ false)
    × (m.job.status ≢ codes "error")
    × (m.job.status ≢ codes "interrupted")

-- A job that says no start time, or one that is not longer ago than the time allowed.
abbrev pub IsYoung : ℕ → ℕ → DiscSetMember → Type 0
IsYoung now timeout m = (m.job.set_started_at ≡ 0) ⊎ (now ≤ m.job.set_started_at + timeout)

pending-IsWaiting : (m : DiscSetMember) → is_pending m ≡ true → IsWaiting m
pending-IsWaiting m h = (
  ground arith,
  λ e. other (codes "error") e (ground arith),
  λ e. other (codes "interrupted") e (ground arith),
)
  where
    other : (word : Text) → m.job.status ≡ word → text_eq m.job.status word ≡ false → ⊥
    other word e d = true_false (sym ((text_eq_iff m.job.status word).1 e) ∙ d)
      where
        true_false : true ≡ false → ⊥
        true_false q = cc

some-IsWaiting :
    (ms : List DiscSetMember)
    → (tally is_pending ms == 0) ≡ false
    → (m : DiscSetMember) × Member m ms × IsWaiting m
unfolding tally
some-IsWaiting [] h = absurd (cc)
some-IsWaiting (m ∷ ms) h = elim (Bool-cases (is_pending m)) [
  | inl e ↦ (m, inl refl, pending-IsWaiting m e)
  | inr e ↦ let (w, at, k) = some-IsWaiting ms (rw e at h) in (w, inr at, k)
]

abbrev next : ℕ → ℕ → ℕ
next oldest t = if oldest == 0 || ltb 0 t && ltb t oldest then t else oldest

next_least :
    (oldest t : ℕ)
    → (1 ≤ oldest → (next oldest t ≤ oldest) × (1 ≤ next oldest t))
      × ((t ≡ 0) ⊎ ((next oldest t ≤ t) × (1 ≤ next oldest t)))
next_least oldest t = (
  λ h. (ground arith, ground arith),
  elim (Bool-cases (t == 0)) [
    | inl e ↦ inl ((==_iff t 0).0 e)
    | inr e ↦ inr (ground arith, ground arith)
  ],
)

-- The earliest start is no later than any that is said, and not zero if one is.
oldest_from-least :
    (oldest : ℕ) (ms : List DiscSetMember)
    → ((1 ≤ oldest) → (oldest_from oldest ms ≤ oldest) × (1 ≤ oldest_from oldest ms))
      × All
          (λ m.
            (m.job.set_started_at ≡ 0)
            ⊎ ((oldest_from oldest ms ≤ m.job.set_started_at) × (1 ≤ oldest_from oldest ms)))
          ms
oldest_from-least oldest [] = (λ h. (omega arith, h), tt)
oldest_from-least oldest (m ∷ ms) =
    let t = m.job.set_started_at in
    let (kept, said) = next_least oldest t in
    let (later, each) = oldest_from-least (next oldest t) ms in
    (
      λ h. let (le, one) = kept h in let (le', one') = later one in (omega (arith, le, le'), one'),
      (
        elim said [
          | inl z ↦ inl z
          | inr (le, one) ↦ let (le', one') = later one in inr (omega (arith, le, le'), one')
        ],
        each,
      ),
    )

all-IsYoung :
    (now timeout : ℕ) (ms : List DiscSetMember)
    → (ltb 0 (oldest_from 0 ms) && ltb timeout (now - oldest_from 0 ms)) ≡ false
    → All (IsYoung now timeout) ms
all-IsYoung now timeout ms h =
    All-map _ (IsYoung now timeout) ms (λ m k. young m k) (oldest_from-least 0 ms).1
  where
    in_time :
        (now timeout r t : ℕ)
        → (ltb 0 r && ltb timeout (now - r)) ≡ false
        → r ≤ t
        → 1 ≤ r
        → now ≤ t + timeout
    in_time now timeout r t e le one = ground arith

    young :
        (m : DiscSetMember)
        → (m.job.set_started_at ≡ 0)
          ⊎ ((oldest_from 0 ms ≤ m.job.set_started_at) × (1 ≤ oldest_from 0 ms))
        → IsYoung now timeout m
    young m (inl z) = inl z
    young m (inr (le, one)) =
        inr (in_time now timeout (oldest_from 0 ms) m.job.set_started_at h le one)

-- What a sweep of a set comes to.
abbrev pub IsSwept : ℕ → ℕ → Text → JobStore → List DiscSetMember → JobStore → Type 0
IsSwept now timeout id s ms swept =
    (is_settled id swept ≡ true)
    ⊎ ((swept ≡ s)
        × ((m : DiscSetMember) × Member m ms × IsWaiting m)
        × All (IsYoung now timeout) ms)

-- A sweep over a set that has jobs, each with an id of its own, settles the set; or else the store
-- is as it was, a disc of the set is missing whose job neither failed nor was interrupted, and no job
-- of the set says that it started longer ago than the time allowed. A set none of whose jobs says
-- when it started can so wait for ever.
pub sweep_set-IsSwept :
    (tail : Tail) (now timeout : ℕ) (id : Text) (s : JobStore) {m : DiscSetMember}
    {ms : List DiscSetMember}
    → IsKeyed s.jobs
    → disc_set_members id s.jobs ≡ m ∷ ms
    → IsSwept now timeout id s
        (disc_set_members id s.jobs)
        (sweep_set tail now timeout id (disc_set_members id s.jobs) s)
unfolding sweep_set
sweep_set-IsSwept tail now timeout id s {m} {ms} keyed e = judged (disc_set_members id s.jobs) refl
  where
    judged :
        (seen : List DiscSetMember)
        → any is_finalized seen ≡ is_settled id s
        → IsSwept now timeout id s seen (sweep_set tail now timeout id seen s)
    judged seen same = elim (Bool-cases (any is_finalized seen)) [
      | inl f ↦ inl (rw f (sym same ∙ f))
      | inr f ↦
          elim (Bool-cases (ltb 0 (total_of seen) && leb (total_of seen) (tally is_done seen))) [
            | inl c ↦ inl (rw (f, c) (settles tail id false s keyed e))
            | inr c ↦ elim (Bool-cases (tally is_pending seen == 0)) [
              | inl p ↦ inl (rw (f, c, p) (settles tail id true s keyed e))
              | inr p ↦
                  elim (Bool-cases
                    (ltb 0 (oldest_from 0 seen) && ltb timeout (now - oldest_from 0 seen))) [
                      | inl t ↦ inl (rw (f, c, p, t) (settles tail id true s keyed e))
                      | inr t ↦
                          inr (
                            unchanged f c p t,
                            some-IsWaiting seen p,
                            all-IsYoung now timeout seen t,
                          )
                    ]
            ]
          ]
    ]
      where
        unchanged :
            any is_finalized seen ≡ false
            → (ltb 0 (total_of seen) && leb (total_of seen) (tally is_done seen)) ≡ false
            → (tally is_pending seen == 0) ≡ false
            → (ltb 0 (oldest_from 0 seen) && ltb timeout (now - oldest_from 0 seen)) ≡ false
            → sweep_set tail now timeout id seen s ≡ s
        unchanged f c p t = rw (f, c, p, t) refl
