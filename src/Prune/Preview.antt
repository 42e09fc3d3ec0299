-- ===== src/Prune/Preview.antt =====
-- internal/prune/prune.go: the classification of library files. `ownership_keys` stands for
-- selection.OwnershipKeys and `hack_marker` for the match of the marker's regular expression.
pub mod Laws
pub mod Titles
pub mod Loops
pub mod Totals
pub mod Planned
use romarr.Base.{
  ℕ, suc, ◌+◌, Bool, true, false, not, ◌&&◌, ◌||◌, Option, none, some, List, [], ◌∷◌, ◌++◌,
  if◌then◌else◌, any, ◌==◌,
}
use romarr.Base.Text.{Text, codes, is_empty}
use romarr.Base.Dict.{lookup, insert, text_key}
use romarr.Collection.Model.{Tier, Match, Candidate, keeper_of}
use romarr.Collection.Reconcile.{Entry, Status, claimed_library_ids}
use romarr.Prune.Model.{Verdict, RowStatus, PreviewRow, Opts, Counts, no_counts, count, base}

pub record SetTitle : Type 0 where
  pub keeper : Text
  pub title : Text
  pub owned : Bool

abbrev pub SetTitles : Type 0
SetTitles = List (Text × SetTitle)

-- A library row, as the pass over the catalog's silence reads it.
pub record LibraryRow : Type 0 where
  pub id : ℕ
  pub file_path : Text
  pub file_size : ℕ

abbrev pub is_owned : Status → Bool
is_owned Status.owned = true
is_owned _ = false

-- An owned answer beats a missing one for the same key.
abbrev pub yields : Option SetTitle → SetTitle → Bool
yields none hit = true
yields (some prev) hit = not (prev.owned || not hit.owned)

unfoldable pub index_keys : List Text → SetTitle → SetTitles → SetTitles
index_keys [] hit out = out
index_keys (key ∷ keys) hit out =
    index_keys keys hit (if yields (lookup key out) hit then insert key hit out else out)

unfoldable pub lookup_keys : List Text → SetTitles → Option SetTitle
lookup_keys [] known = none
lookup_keys (key ∷ keys) known =
    let rest = lookup_keys keys known in
    elim (lookup key known) [ none ↦ rest | some hit ↦ some hit ]

unfoldable pub first_reason : Candidate → Entry → Text
first_reason c e =
    if not (is_empty c.reason)
    then c.reason
    else if not (is_empty e.group.reason)
    then e.group.reason
    else codes "excluded"

-- The row before its verdict.
abbrev pub owned_row : Entry → Candidate → Match → Text → PreviewRow
owned_row e c owned slug = record {
  library_id = owned.library_id;
  platform_slug = slug;
  path = owned.file_path;
  name = base owned.file_path;
  size = c.member.total_size;
  title = e.group.title;
  keeper = [];
  matched_by = owned.matched_by;
  verdict = Verdict.review;
  status = RowStatus.reported;
  reason = [];
  archived_to = [];
}

abbrev pub is_title : Option Tier → Bool
is_title (some Tier.title) = true
is_title _ = false

abbrev pub judge_with_keeper : Candidate → Match → PreviewRow → Candidate → PreviewRow
judge_with_keeper c owned row keeper =
    let row' : PreviewRow = record row { keeper = keeper.member.name } in
    elim keeper.owned [
      | none ↦ record row' {
        verdict = Verdict.review;
        reason =
            codes "the dump the set keeps ("
            ++ keeper.member.name
            ++ codes ") is not on disk — this is the only copy";
      }
      | some file ↦
          if is_title owned.matched_by
          then record row' {
            verdict = Verdict.review;
            reason = codes "matched by title only — too weak to archive unattended";
          }
          else record row' {
            verdict = Verdict.archive;
            status = RowStatus.planned;
            reason =
                if c.excluded && not (is_empty c.reason)
                then c.reason ++ codes "; the set keeps " ++ keeper.member.name
                else codes "surplus: the set keeps " ++ keeper.member.name;
          }
    ]

abbrev pub judge_keeper :
    Entry → Candidate → Match → Bool → PreviewRow → Option Candidate → PreviewRow
judge_keeper e c owned include_out row (some keeper) = judge_with_keeper c owned row keeper
judge_keeper e c owned include_out row none = record row {
  verdict = Verdict.excluded_group;
  reason = codes "policy excludes this group entirely (" ++ first_reason c e ++ codes ")";
  status = if include_out then RowStatus.planned else RowStatus.reported;
}

-- One owned dump that is not the keeper; the source reads the file through `c.Owned`.
unfoldable pub classify : Entry → Candidate → Match → Text → Bool → PreviewRow
classify e c owned slug include_out =
    judge_keeper e c owned include_out (owned_row e c owned slug) (keeper_of e.group)

-- The rows under way with their counts: `counts` and `uncatalogued` of the source.
pub record Tally : Type 0 where
  pub rows : List PreviewRow
  pub counts : Counts
  pub uncatalogued : ℕ

abbrev pub no_tally : Tally
no_tally = record { rows = []; counts = no_counts; uncatalogued = 0 }

abbrev pub add_row : PreviewRow → Tally → Tally
add_row row t = record t { rows = t.rows ++ row ∷ []; counts = count row.verdict t.counts }

abbrev pub member_row : Entry → Text → Bool → Candidate → Option Match → Tally → Tally
member_row e slug out c none t = t
member_row e slug out c (some owned) t =
    if c.keeper then t else add_row (classify e c owned slug out) t

unfoldable pub classify_members : Entry → Text → Bool → List Candidate → Tally → Tally
unfolding classify
classify_members e slug out [] t = t
classify_members e slug out (c ∷ members) t =
    classify_members e slug out members (member_row e slug out c c.owned t)

unfoldable pub classify_entries : Text → Bool → List Entry → Tally → Tally
unfolding classify_members
classify_entries slug out [] t = t
classify_entries slug out (e ∷ entries) t =
    classify_entries slug out entries (classify_members e slug out e.group.members t)

abbrev pub silent_row : Text → LibraryRow → PreviewRow
silent_row slug item = record {
  library_id = item.id;
  platform_slug = slug;
  path = item.file_path;
  name = base item.file_path;
  size = item.file_size;
  title = [];
  keeper = [];
  matched_by = none;
  verdict = Verdict.uncatalogued;
  status = RowStatus.reported;
  reason =
      codes
        "no catalogued dump matches this file — the catalog's silence is not evidence of redundancy";
  archived_to = [];
}

abbrev pub planned_if : Bool → RowStatus
planned_if b = if b then RowStatus.planned else RowStatus.reported

abbrev pub judge_title : Opts → PreviewRow → SetTitle → PreviewRow
judge_title opts row hit =
    if hit.owned
    then record row {
      verdict = Verdict.uncatalogued_dupe;
      title = hit.title;
      keeper = hit.keeper;
      reason =
          codes "not in the catalog, and the catalogued "
          ++ hit.keeper
          ++ codes " is already on disk";
      status = planned_if opts.include_uncatalogued_dupes;
    }
    else record row {
      verdict = Verdict.review;
      title = hit.title;
      keeper = hit.keeper;
      reason =
          codes "not in the catalog, and the catalogued "
          ++ hit.keeper
          ++ codes " is NOT on disk — this may be the only copy of this game";
    }

abbrev pub judge_marker : Opts → PreviewRow → Text → PreviewRow
judge_marker opts row marker = if is_empty marker then row else record row {
  verdict = Verdict.uncatalogued_hack;
  reason = codes "not in the catalog, and its name declares it non-canonical: " ++ marker;
  status = planned_if opts.include_uncatalogued_hacks;
}

abbrev pub is_silent : Verdict → Bool
is_silent Verdict.uncatalogued = true
is_silent _ = false

abbrev pub add_silent : PreviewRow → Tally → Tally
add_silent row t =
    let t' = add_row row t in
    if is_silent row.verdict then record t' { uncatalogued = suc t'.uncatalogued } else t'

-- What the catalog and the library say of one platform.
pub record PlatformSet : Type 0 where
  pub slug : Text
  pub entries : List Entry
  pub items : List LibraryRow

abbrev pub is_nil : List Entry → Bool
is_nil [] = true
is_nil (e ∷ entries) = false

-- `r.total`: the counts of the verdicts that the options plan.
unfoldable pub total_of : Opts → Counts → ℕ
total_of opts c =
    c.archive
    + (if opts.include_excluded then c.excluded_group else 0)
    + (if opts.include_uncatalogued_dupes then c.uncatalogued_dupe else 0)
    + (if opts.include_uncatalogued_hacks then c.uncatalogued_hack else 0)

module _ (ownership_keys : Text → List Text) (hack_marker : Text → Text) where
  abbrev pub index_entry : Entry → Option Candidate → SetTitles → SetTitles
  index_entry e none out = out
  index_entry e (some keeper) out =
      index_keys (ownership_keys e.group.title)
        (record { keeper = keeper.member.name; title = e.group.title; owned = is_owned e.status })
        out

  unfoldable pub index_set_titles : List Entry → SetTitles → SetTitles
  unfolding index_keys
  index_set_titles [] out = out
  index_set_titles (e ∷ entries) out =
      index_set_titles entries (index_entry e (keeper_of e.group) out)

  abbrev pub judge_hit : Opts → Text → LibraryRow → Option SetTitle → PreviewRow
  judge_hit opts slug item (some hit) = judge_title opts (silent_row slug item) hit
  judge_hit opts slug item none =
      judge_marker opts (silent_row slug item) (hack_marker (base item.file_path))

  -- A library row that no dump of the set claims.
  unfoldable pub judge_silent : Opts → SetTitles → Text → LibraryRow → PreviewRow
  judge_silent opts known slug item =
      judge_hit opts slug item (lookup_keys (ownership_keys (base item.file_path)) known)

  unfoldable pub judge_items : Opts → SetTitles → List ℕ → Text → List LibraryRow → Tally → Tally
  unfolding judge_silent
  judge_items opts known claimed slug [] t = t
  judge_items opts known claimed slug (item ∷ items) t = judge_items opts known claimed slug items (
      if any (λ i. i == item.id) claimed
      then t
      else add_silent (judge_silent opts known slug item) t)

  -- One platform: the owned dumps the set does not keep, then the files no dump claims.
  unfoldable pub preview_platform : Opts → PlatformSet → Tally → Tally
  unfolding judge_items classify_entries
  preview_platform opts p t =
      judge_items opts (index_set_titles p.entries []) (claimed_library_ids p.entries) p.slug
        p.items (classify_entries p.slug opts.include_excluded p.entries t)

  abbrev pub preview_known : Opts → PlatformSet → Tally → Tally
  preview_known opts p t = if is_nil p.entries then t else preview_platform opts p t

  -- `none` when the run is cancelled before the platform at that position.
  unfoldable pub preview_platforms : (ℕ → Bool) → Opts → ℕ → List PlatformSet → Tally → Option Tally
  unfolding preview_platform
  preview_platforms stopped opts i [] t = some t
  preview_platforms stopped opts i (p ∷ platforms) t =
      let rest = preview_platforms stopped opts (suc i) platforms (preview_known opts p t) in
      if stopped i then none else rest
