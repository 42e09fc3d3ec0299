-- ===== src/Prune/Preview/Totals.antt =====
-- The counters of a preview against its rows.
use romarr.Base.{
  ℕ, suc, ◌+◌, ◌≡◌, refl, ap, Bool, true, false, Option, none, some, List, [], ◌∷◌, ◌++◌, tally,
  length, tally-append, length-append, if◌then◌else◌, arith, All-of_Member,
}
use romarr.Base.Text.{Text}
use romarr.Collection.Model.{Match, Candidate, keeper_of}
use romarr.Collection.Reconcile.{Entry}
use romarr.Prune.Model.{Verdict, PreviewRow, Opts, Counts, count, is_planned}
use romarr.Prune.Preview.{
  SetTitle, SetTitles, LibraryRow, PlatformSet, Tally, classify, owned_row, judge_keeper, add_row,
  judge_silent, judge_hit, add_silent, is_silent, preview_platforms, no_tally, total_of,
}
use romarr.Prune.Preview.Loops.{preview_platforms-keeps}

-- What a verdict adds to the total.
abbrev weight : Opts → Verdict → ℕ
weight opts Verdict.archive = 1
weight opts Verdict.review = 0
weight opts Verdict.excluded_group = if opts.include_excluded then 1 else 0
weight opts Verdict.uncatalogued_hack = if opts.include_uncatalogued_hacks then 1 else 0
weight opts Verdict.uncatalogued = 0
weight opts Verdict.uncatalogued_dupe = if opts.include_uncatalogued_dupes then 1 else 0

abbrev pub all_of : Counts → ℕ
all_of c =
    c.archive + c.review + c.excluded_group + c.uncatalogued_hack + c.uncatalogued
    + c.uncatalogued_dupe

abbrev one_if : Bool → ℕ
one_if b = if b then 1 else 0

total_of-count :
    (opts : Opts) (v : Verdict) (c : Counts)
    → total_of opts (count v c) ≡ total_of opts c + weight opts v
unfolding total_of count
total_of-count opts Verdict.archive c = ground arith
total_of-count opts Verdict.review c = ground arith
total_of-count opts Verdict.excluded_group c = ground arith
total_of-count opts Verdict.uncatalogued_hack c = ground arith
total_of-count opts Verdict.uncatalogued c = ground arith
total_of-count opts Verdict.uncatalogued_dupe c = ground arith

all_of-count : (v : Verdict) (c : Counts) → all_of (count v c) ≡ suc (all_of c)
unfolding count
all_of-count Verdict.archive c = omega arith
all_of-count Verdict.review c = omega arith
all_of-count Verdict.excluded_group c = omega arith
all_of-count Verdict.uncatalogued_hack c = omega arith
all_of-count Verdict.uncatalogued c = omega arith
all_of-count Verdict.uncatalogued_dupe c = omega arith

uncatalogued-count :
    (v : Verdict) (c : Counts) → (count v c).uncatalogued ≡ c.uncatalogued + one_if (is_silent v)
unfolding count
uncatalogued-count Verdict.archive c = omega arith
uncatalogued-count Verdict.review c = omega arith
uncatalogued-count Verdict.excluded_group c = omega arith
uncatalogued-count Verdict.uncatalogued_hack c = omega arith
uncatalogued-count Verdict.uncatalogued c = omega arith
uncatalogued-count Verdict.uncatalogued_dupe c = omega arith

-- The counters agree with the rows.
abbrev pub IsTallied : Opts → Tally → Type 0
IsTallied opts t =
    (tally is_planned t.rows ≡ total_of opts t.counts)
    × (length t.rows ≡ all_of t.counts)
    × (t.uncatalogued ≡ t.counts.uncatalogued)

-- A row is planned as its verdict says.
abbrev IsWeighed : Opts → PreviewRow → Type 0
IsWeighed opts row = one_if (is_planned row) ≡ weight opts row.verdict

tally_one : (row : PreviewRow) → tally is_planned (row ∷ []) ≡ one_if (is_planned row)
unfolding tally
tally_one row = ground arith

add_row-counts :
    (opts : Opts) (row : PreviewRow) (t : Tally)
    → IsWeighed opts row
    → IsTallied opts t
    → (tally is_planned (t.rows ++ row ∷ []) ≡ total_of opts (count row.verdict t.counts))
      × (length (t.rows ++ row ∷ []) ≡ all_of (count row.verdict t.counts))
add_row-counts opts row t w h = (
  omega (
    arith,
    tally-append is_planned t.rows (row ∷ []),
    tally_one row,
    total_of-count opts row.verdict t.counts,
  ),
  omega (arith, length-append t.rows (row ∷ []), all_of-count row.verdict t.counts),
)

add_row-IsTallied :
    (opts : Opts) (row : PreviewRow) (t : Tally)
    → IsWeighed opts row
    → is_silent row.verdict ≡ false
    → IsTallied opts t
    → IsTallied opts (add_row row t)
add_row-IsTallied opts row t w s h =
    let (a, b) = add_row-counts opts row t w h in
    (a, b, omega (arith, h.2, uncatalogued-count row.verdict t.counts, ap one_if s))

add_if-IsTallied :
    (opts : Opts) (row : PreviewRow) (t : Tally) (b : Bool)
    → is_silent row.verdict ≡ b
    → IsWeighed opts row
    → IsTallied opts t
    → IsTallied opts
        (if b then record (add_row row t) { uncatalogued = suc t.uncatalogued } else add_row row t)
add_if-IsTallied opts row t true s w h =
    let (a, b) = add_row-counts opts row t w h in
    (a, b, omega (arith, h.2, uncatalogued-count row.verdict t.counts, ap one_if s))
add_if-IsTallied opts row t false s w h = add_row-IsTallied opts row t w s h

add_silent-IsTallied :
    (opts : Opts) (row : PreviewRow) (t : Tally)
    → IsWeighed opts row
    → IsTallied opts t
    → IsTallied opts (add_silent row t)
add_silent-IsTallied opts row t w h = add_if-IsTallied opts row t (is_silent row.verdict) refl w h

judge_keeper-IsWeighed :
    (opts : Opts) (e : Entry) (c : Candidate) (owned : Match) (slug : Text) (k : Option Candidate)
    → IsWeighed opts (judge_keeper e c owned opts.include_excluded (owned_row e c owned slug) k)
      × (is_silent
            (judge_keeper e c owned opts.include_excluded (owned_row e c owned slug) k).verdict
          ≡ false)
judge_keeper-IsWeighed opts e c owned slug none = (ground arith, refl)
judge_keeper-IsWeighed opts e c owned slug (some keeper) = (ground arith, ground arith)

classify-IsWeighed :
    (opts : Opts) (e : Entry) (c : Candidate) (owned : Match) (slug : Text)
    → IsWeighed opts (classify e c owned slug opts.include_excluded)
      × (is_silent (classify e c owned slug opts.include_excluded).verdict ≡ false)
unfolding classify
classify-IsWeighed opts e c owned slug =
    judge_keeper-IsWeighed opts e c owned slug (keeper_of e.group)

module _ (ownership_keys : Text → List Text) (hack_marker : Text → Text) (opts : Opts) where
  judge_hit-IsWeighed :
      (slug : Text) (item : LibraryRow) (o : Option SetTitle)
      → IsWeighed opts (judge_hit ownership_keys hack_marker opts slug item o)
  judge_hit-IsWeighed slug item none = ground arith
  judge_hit-IsWeighed slug item (some hit) = ground arith

  judge_silent-IsWeighed :
      (known : SetTitles) (slug : Text) (item : LibraryRow)
      → IsWeighed opts (judge_silent ownership_keys hack_marker opts known slug item)
  unfolding judge_silent
  judge_silent-IsWeighed known slug item = judge_hit-IsWeighed slug item _

  no_tally-IsTallied : IsTallied opts no_tally
  unfolding tally total_of
  no_tally-IsTallied = ground arith

  -- The counters of a finished preview: the total is the number of planned rows, the counts of the
  -- verdicts add up to the rows, and the uncatalogued ones are those with that verdict.
  pub preview-IsTallied :
      (stopped : ℕ → Bool) (platforms : List PlatformSet) {t : Tally}
      → preview_platforms ownership_keys hack_marker stopped opts 0 platforms no_tally ≡ some t
      → IsTallied opts t
  preview-IsTallied stopped platforms =
      preview_platforms-keeps (IsTallied opts) ownership_keys hack_marker opts stopped 0 platforms
        no_tally
        (All-of_Member _ platforms λ p m. (
          λ e c me mc owned t o n h.
              let (w, s) = classify-IsWeighed opts e c owned p.slug in
              add_row-IsTallied opts (classify e c owned p.slug opts.include_excluded) t w s h,
          λ item i t free h. add_silent-IsTallied opts _ t (judge_silent-IsWeighed _ p.slug item) h,
        ))
        no_tally-IsTallied
