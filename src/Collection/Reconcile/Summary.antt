-- ===== src/Collection/Reconcile/Summary.antt =====
-- The counts of a reconciled platform add up.
use romarr.Base.{
  ℕ, suc, ◌+◌, ◌≤◌, ◌≡◌, not, List, [], ◌∷◌, arith, if◌then◌else◌, length, any, keep, Bool-cases,
  inl, inr, ap, is_none,
}
use romarr.Collection.Reconcile.{
  Entry, Status, owned, covered, gap, out, is_gap, gaps, Counts, no_counts, count_status,
  count_entry, summarise_from, summarise,
}

abbrev pub surplus_total : List Entry → ℕ
surplus_total [] = 0
surplus_total (e ∷ entries) = length e.surplus + surplus_total entries

-- The counts of `n` entries of which `g` are gaps and which carry `s` surplus dumps.
pub record AddsUp (c : Counts) (n g s : ℕ) : Type 0 where
  pub in_set : c.groups ≡ c.owned + c.covered + c.gaps
  pub all_counted : c.groups + c.out ≡ n
  pub gaps_counted : c.gaps ≡ g
  pub on_disk_within : c.out_on_disk ≤ c.out
  pub surplus_counted : c.surplus ≡ s

gap_one : Entry → ℕ
gap_one e = if is_gap e.status then 1 else 0

count_status-AddsUp :
    (e : Entry) (st : Status) (c : Counts) (n g s : ℕ)
    → AddsUp c n g s
    → AddsUp (count_status e st c) (suc n) (g + (if is_gap st then 1 else 0)) s
count_status-AddsUp e owned c n g s h = omega arith
count_status-AddsUp e covered c n g s h = omega arith
count_status-AddsUp e gap c n g s h = omega arith
count_status-AddsUp e out c n g s h =
    elim (Bool-cases (any (λ m. not (is_none m.owned)) e.group.members)) [
      | inl q ↦ rw q (omega arith)
      | inr q ↦ rw q (omega arith)
    ]

count_entry-AddsUp :
    (e : Entry) (c : Counts) (n g s : ℕ)
    → AddsUp c n g s
    → AddsUp (count_entry e c) (suc n) (g + gap_one e) (s + length e.surplus)
unfolding gap_one
count_entry-AddsUp e c n g s h =
    let v = count_status-AddsUp e e.status c n g s h in
    record {
      in_set = v.in_set;
      all_counted = v.all_counted;
      gaps_counted = v.gaps_counted;
      on_disk_within = v.on_disk_within;
      surplus_counted = ap (λ k. k + length e.surplus) v.surplus_counted;
    }

length-gaps :
    (e : Entry) (entries : List Entry)
    → length (gaps (e ∷ entries)) ≡ gap_one e + length (gaps entries)
unfolding gaps keep gap_one
length-gaps e entries = elim (Bool-cases (is_gap e.status)) [
  | inl q ↦ rw q (omega arith)
  | inr q ↦ rw q (omega arith)
]

summarise_from-AddsUp :
    (c : Counts) (entries : List Entry) (n g s : ℕ)
    → AddsUp c n g s
    → AddsUp
        (summarise_from c entries)
        (n + length entries)
        (g + length (gaps entries))
        (s + surplus_total entries)
unfolding summarise_from
summarise_from-AddsUp c [] n g s h = unfold gaps keep in (omega arith)
summarise_from-AddsUp c (e ∷ entries) n g s h =
    let v =
      summarise_from-AddsUp (count_entry e c) entries (suc n) (g + gap_one e) (s + length e.surplus)
        (count_entry-AddsUp e c n g s h) in
    omega (arith, length-gaps e entries)

-- In the summary of any entries: the groups in the set are those owned, covered and missing;
-- with the groups left out they are all the entries; the gaps are as many as the entries that
-- `Gaps` hands to the fill; the groups left out but on disk are among those left out; and the
-- surplus is that of all entries together.
pub summarise-AddsUp :
    (entries : List Entry)
    → AddsUp (summarise entries) (length entries) (length (gaps entries)) (surplus_total entries)
unfolding summarise
summarise-AddsUp entries =
    omega (arith, summarise_from-AddsUp no_counts entries 0 0 0 (omega arith))
