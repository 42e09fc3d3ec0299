-- ===== src/Prune/Preview/Laws.antt =====
-- What a planned row of a preview rests on.
use romarr.Base.{◌≡◌, refl, ◌⊎◌, inl, inr, true, false, Option, none, some, List, is_none, arith}
use romarr.Base.Text.{Text, is_empty}
use romarr.Collection.Model.{Match, Candidate, keeper_of}
use romarr.Collection.Reconcile.{Entry}
use romarr.Prune.Model.{PreviewRow, Opts, is_planned, base}
use romarr.Prune.Preview.{
  SetTitle, SetTitles, LibraryRow, classify, owned_row, judge_keeper, judge_with_keeper, is_title,
  judge_silent, judge_hit, judge_title, judge_marker, silent_row, lookup_keys,
}

-- The dump behind a planned row of the catalog: no keeper, owned, and in a group whose keeper is
-- on disk, by more than a title; or in a group without a keeper, where those are opted in.
abbrev pub Spare : Opts → Entry → Candidate → PreviewRow → Type 0
Spare opts e c row =
    (owned : Match) × (c.owned ≡ some owned)
    × (c.keeper ≡ false)
    × (row.library_id ≡ owned.library_id)
    × (row.path ≡ owned.file_path)
    × (((keeper : Candidate) × (keeper_of e.group ≡ some keeper)
          × (is_none keeper.owned ≡ false)
          × (is_title owned.matched_by ≡ false))
        ⊎ (keeper_of e.group ≡ none) × (opts.include_excluded ≡ true))

judge_with_keeper-strong :
    (c : Candidate) (owned : Match) (row : PreviewRow) (keeper : Candidate)
    → is_planned row ≡ false
    → is_planned (judge_with_keeper c owned row keeper) ≡ true
    → ((judge_with_keeper c owned row keeper).library_id ≡ row.library_id)
      × ((judge_with_keeper c owned row keeper).path ≡ row.path)
      × (is_none keeper.owned ≡ false)
      × (is_title owned.matched_by ≡ false)
judge_with_keeper-strong c owned row keeper u h =
    (ground arith, ground arith, ground arith, ground arith)

judge_keeper-Spare :
    (opts : Opts) (e : Entry) (c : Candidate) (owned : Match) (slug : Text) (k : Option Candidate)
    → keeper_of e.group ≡ k
    → c.owned ≡ some owned
    → c.keeper ≡ false
    → is_planned (judge_keeper e c owned opts.include_excluded (owned_row e c owned slug) k) ≡ true
    → Spare opts e c (judge_keeper e c owned opts.include_excluded (owned_row e c owned slug) k)
judge_keeper-Spare opts e c owned slug none q o n h =
    (owned, o, n, refl, refl, inr (q, ground arith))
judge_keeper-Spare opts e c owned slug (some keeper) q o n h =
    let (i, p, on_disk, strong) =
      judge_with_keeper-strong c owned (owned_row e c owned slug) keeper refl h in
    (owned, o, n, i, p, inl (keeper, q, on_disk, strong))

module _ (ownership_keys : Text → List Text) (hack_marker : Text → Text) where
  -- A file behind a planned row that no dump claims: its title is a game whose kept dump is on disk,
  -- or it is a game of no title and says itself that it is a hack; each where it is opted in.
  abbrev pub Loose : Opts → SetTitles → LibraryRow → PreviewRow → Type 0
  Loose opts known item row =
      (row.library_id ≡ item.id)
      × (row.path ≡ item.file_path)
      × (((hit : SetTitle) × (lookup_keys (ownership_keys (base item.file_path)) known ≡ some hit)
            × (hit.owned ≡ true)
            × (opts.include_uncatalogued_dupes ≡ true))
          ⊎ (lookup_keys (ownership_keys (base item.file_path)) known ≡ none)
            × (is_empty (hack_marker (base item.file_path)) ≡ false)
            × (opts.include_uncatalogued_hacks ≡ true))

  judge_title-Loose :
      (opts : Opts) (known : SetTitles) (slug : Text) (item : LibraryRow) (hit : SetTitle)
      → lookup_keys (ownership_keys (base item.file_path)) known ≡ some hit
      → is_planned (judge_title opts (silent_row slug item) hit) ≡ true
      → Loose opts known item (judge_title opts (silent_row slug item) hit)
  judge_title-Loose opts known slug item hit q h =
      (ground arith, ground arith, inl (hit, q, ground arith, ground arith))

  judge_marker-Loose :
      (opts : Opts) (known : SetTitles) (slug : Text) (item : LibraryRow)
      → lookup_keys (ownership_keys (base item.file_path)) known ≡ none
      → is_planned (judge_marker opts (silent_row slug item) (hack_marker (base item.file_path)))
        ≡ true
      → Loose opts known item
          (judge_marker opts (silent_row slug item) (hack_marker (base item.file_path)))
  judge_marker-Loose opts known slug item q h =
      (ground arith, ground arith, inr (q, ground arith, ground arith))

  judge_hit-Loose :
      (opts : Opts) (known : SetTitles) (slug : Text) (item : LibraryRow) (o : Option SetTitle)
      → lookup_keys (ownership_keys (base item.file_path)) known ≡ o
      → is_planned (judge_hit ownership_keys hack_marker opts slug item o) ≡ true
      → Loose opts known item (judge_hit ownership_keys hack_marker opts slug item o)
  judge_hit-Loose opts known slug item none q = judge_marker-Loose opts known slug item q
  judge_hit-Loose opts known slug item (some hit) q = judge_title-Loose opts known slug item hit q

  pub judge_silent-Loose :
      (opts : Opts) (known : SetTitles) (slug : Text) (item : LibraryRow)
      → is_planned (judge_silent ownership_keys hack_marker opts known slug item) ≡ true
      → Loose opts known item (judge_silent ownership_keys hack_marker opts known slug item)
  unfolding judge_silent
  judge_silent-Loose opts known slug item = judge_hit-Loose opts known slug item _ refl

pub classify-Spare :
    (opts : Opts) (e : Entry) (c : Candidate) (owned : Match) (slug : Text)
    → c.owned ≡ some owned
    → c.keeper ≡ false
    → is_planned (classify e c owned slug opts.include_excluded) ≡ true
    → Spare opts e c (classify e c owned slug opts.include_excluded)
unfolding classify
classify-Spare opts e c owned slug = judge_keeper-Spare opts e c owned slug (keeper_of e.group) refl
