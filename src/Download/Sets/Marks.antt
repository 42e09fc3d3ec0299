-- ===== src/Download/Sets/Marks.antt =====
-- internal/download/discset.go: a finalized set is marked on the jobs.
use romarr.Base.{
  ◌≡◌, refl, sym, ap, subst, ◌∙◌, ◌⊎◌, inl, inr, Bool, true, Option, none, some, List, [], ◌∷◌, any,
  keep, map, tally, All, Member, Member-All, All-of_Member, Bool-cases, ◌==◌, arith,
}
use romarr.Base.Text.{Text, is_empty, text_eq_iff}
use romarr.Base.Dict.{text_key}
use romarr.Base.Sort.{stable_sort, stable_sort-All, stable_sort-All_inv}
use romarr.Download.Model.{Job, Jobs, JobStore, SetMarker, SetRow}
use romarr.Download.Sets.{
  DiscSetMember, is_done, is_finalized, member_of, earlier, is_of, disc_set_from_job,
  disc_set_members, mark_all, Tail, finish, finalize_members, finalize_disc_set, track_in_library,
  track_row, save_on, failed_detail, missing_detail, detail_of, marker_of,
}
use romarr.Download.Sets.Updates.{IsKeyed, IsMarked, mark_all-IsMarked, update-marks}

-- The members of a set are its jobs.
abbrev IsSource : Text → Jobs → DiscSetMember → Type 0
IsSource id jobs m =
    (job : Job) × (m ≡ member_of (m.job_id, job)) × Member (m.job_id, job) jobs × (m.set.id ≡ id)

each_member :
    (id : Text) (jobs all : Jobs)
    → ((p : Text × Job) → Member p jobs → Member p all)
    → All (IsSource id all) (keep (is_of id) (map member_of jobs))
unfolding keep
each_member id [] all f = tt
each_member id ((k, job) ∷ jobs) all f = elim (Bool-cases (is_of id (member_of (k, job)))) [
  | inl e ↦ rw e (
    (job, refl, f (k, job) (inl refl), (text_eq_iff _ id).0 e),
    each_member id jobs all (λ p m. f p (inr m)),
  )
  | inr e ↦ rw e (each_member id jobs all (λ p m. f p (inr m)))
]

each_of_set : (id : Text) (jobs : Jobs) → All (IsSource id jobs) (disc_set_members id jobs)
unfolding disc_set_members
each_of_set id jobs =
    stable_sort-All earlier (IsSource id jobs) _ (each_member id jobs jobs (λ p m. m))

set_id : (job : Job) → (disc_set_from_job job).id ≡ job.disc_set_id
unfolding disc_set_from_job
set_id job = elim (Bool-cases (is_empty job.disc_set_id)) [
  | inl e ↦ rw e (sym (nothing job.disc_set_id e))
  | inr e ↦ rw e refl
]
  where
    nothing : (t : Text) → is_empty t ≡ true → t ≡ []
    nothing [] h = refl
    nothing (c ∷ t) h = absurd (cc)

Member-map :
    (p : Text × Job) (jobs : Jobs) → Member p jobs → Member (member_of p) (map member_of jobs)
Member-map p [] m = absurd m
Member-map p (q ∷ jobs) (inl e) = inl (ap member_of e)
Member-map p (q ∷ jobs) (inr m) = inr (Member-map p jobs m)

keep-Member :
    (test : DiscSetMember → Bool) (a : DiscSetMember) (ms : List DiscSetMember)
    → test a ≡ true
    → Member a ms
    → Member a (keep test ms)
unfolding keep
keep-Member test a [] h m = absurd m
keep-Member test a (b ∷ ms) h (inl e) = rw (sym (ap test e) ∙ h) (inl e)
keep-Member test a (b ∷ ms) h (inr m) = elim (Bool-cases (test b)) [
  | inl e ↦ rw e (inr (keep-Member test a ms h m))
  | inr e ↦ rw e (keep-Member test a ms h m)
]

Member-any :
    (test : DiscSetMember → Bool) (a : DiscSetMember) (ms : List DiscSetMember)
    → Member a ms
    → test a ≡ true
    → any test ms ≡ true
Member-any test a [] m h = absurd m
Member-any test a (b ∷ ms) (inl e) h = rw (sym (ap test e) ∙ h) refl
Member-any test a (b ∷ ms) (inr m) h = ground (arith, Member-any test a ms m h)

sorted-Member :
    (a : DiscSetMember) (ms : List DiscSetMember) → Member a ms → Member a (stable_sort earlier ms)
sorted-Member a ms m =
    Member-All (λ b. Member b (stable_sort earlier ms)) ms
      (stable_sort-All_inv earlier (λ b. Member b (stable_sort earlier ms)) ms
        (All-of_Member _ (stable_sort earlier ms) (λ b h. h)))
      m

of_IsMarked :
    (id : Text) (jobs : Jobs)
    → IsMarked id jobs
    → (p : Text × Job) × Member p jobs × (p.1.disc_set_id ≡ id) × (p.1.set_finalized ≡ true)
of_IsMarked id [] m = absurd m
of_IsMarked id (p ∷ jobs) (inl h) = (p, inl refl, h.0, h.1)
of_IsMarked id (p ∷ jobs) (inr m) = let (q, at, h, k) = of_IsMarked id jobs m in (q, inr at, h, k)

-- A marked set reads as finalized.
IsMarked-members :
    (id : Text) (jobs : Jobs)
    → IsMarked id jobs
    → any is_finalized (disc_set_members id jobs) ≡ true
unfolding disc_set_members
IsMarked-members id jobs m =
    let (p, at, h, final) = of_IsMarked id jobs m in
    Member-any is_finalized (member_of p) _
      (sorted-Member (member_of p) (keep (is_of id) (map member_of jobs)) (
        keep-Member (is_of id) (member_of p) (map member_of jobs)
          ((text_eq_iff (disc_set_from_job p.1).id id).1 (set_id p.1 ∙ h)) (Member-map p jobs at)))
      final

track-jobs :
    (tail : Tail) (id : Text) (lead : DiscSetMember) (s : JobStore) (row : Option SetRow)
    → (track_row tail id lead s row).jobs ≡ s.jobs
track-jobs tail id lead s none = elim (Bool-cases tail.add_fails) [
  | inl q ↦ rw q refl
  | inr q ↦ rw q refl
]
track-jobs tail id lead s (some row) = refl

save-jobs :
    (id : Text) (change : SetMarker → SetMarker) (s : JobStore) (row : Option SetRow)
    → (save_on id change s row).jobs ≡ s.jobs
save-jobs id change s none = refl
save-jobs id change s (some row) = refl

-- Whatever the tail meets, it marks every member.
finish-jobs :
    (tail : Tail) (id : Text) (degraded : Bool) (lead : DiscSetMember) (ms : List DiscSetMember)
    (s : JobStore)
    → (detail : Text) × ((finish tail id degraded lead ms s).jobs ≡ mark_all detail ms s.jobs)
finish-jobs tail id degraded lead ms s = elim (Bool-cases (tally is_done ms == 0)) [
  | inl e ↦ (failed_detail lead.set.total, rw e refl)
  | inr e ↦ elim (Bool-cases (tail.dir_exists lead.set.dir)) [
    | inl q ↦ (
      detail_of degraded (tally is_done ms) lead.set.total,
      rw (e, q)
          (ap (mark_all (detail_of degraded (tally is_done ms) lead.set.total) ms) (
            save-jobs id (marker_of tail id lead.set.total degraded ms)
              (track_in_library tail id lead s) _
            ∙ track-jobs tail id lead s _)),
    )
    | inr q ↦ (missing_detail, rw (e, q) refl)
  ]
]

finalize_members-IsMarked :
    (tail : Tail) (id : Text) (degraded : Bool) (lead : DiscSetMember) (rest : List DiscSetMember)
    (s : JobStore)
    → IsKeyed s.jobs
    → IsSource id s.jobs lead
    → IsMarked id (finish tail id degraded lead (lead ∷ rest) s).jobs
unfolding mark_all
finalize_members-IsMarked tail id degraded lead rest s keyed (job, e, at, of_set) =
    let (detail, q) = finish-jobs tail id degraded lead (lead ∷ rest) s in
    subst (IsMarked id) (sym q) (
      mark_all-IsMarked id detail rest _ (
        update-marks id lead.job_id detail job s.jobs keyed at
          (sym (set_id job) ∙ sym (ap (λ (m : DiscSetMember). m.set.id) e) ∙ of_set)))

-- A set with members that is finalized reads as finalized.
pub finalize_disc_set-marks :
    (tail : Tail) (id : Text) (degraded : Bool) (s : JobStore)
    → IsKeyed s.jobs
    → ((finalize_disc_set tail id degraded s ≡ s) × (disc_set_members id s.jobs ≡ []))
      ⊎ (any is_finalized (disc_set_members id (finalize_disc_set tail id degraded s).jobs) ≡ true)
unfolding finalize_disc_set
finalize_disc_set-marks tail id degraded s keyed =
    among (disc_set_members id s.jobs) refl (each_of_set id s.jobs)
  where
    among :
        (ms : List DiscSetMember)
        → disc_set_members id s.jobs ≡ ms
        → All (IsSource id s.jobs) ms
        → ((finalize_members tail id degraded s ms ≡ s) × (ms ≡ []))
          ⊎ (any is_finalized (disc_set_members id (finalize_members tail id degraded s ms).jobs)
              ≡ true)
    among [] e sources = inl (refl, refl)
    among (lead ∷ rest) e sources = elim (Bool-cases (any is_finalized (lead ∷ rest))) [
      | inl q ↦ inr (rw q (ap (any is_finalized) e ∙ q))
      | inr q ↦ inr (
          rw q (
            IsMarked-members id _
              (finalize_members-IsMarked tail id degraded lead rest s keyed sources.0)))
    ]
