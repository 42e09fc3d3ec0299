-- ===== src/Prune/Preview/Planned.antt =====
-- Every planned row of a whole preview, back to the dump or the file that it is about.
use romarr.Base.{
  ℕ, ◌≡◌, sym, ◌⊎◌, inl, inr, Bool, true, false, some, List, [], ◌∷◌, All, All-append,
  All-of_Member, Any-of_Member, subst, Any, Member, any, ◌==◌,
}
use romarr.Base.Text.{Text, is_empty}
use romarr.Collection.Reconcile.{Entry, Status, claimed_library_ids}
use romarr.Prune.Model.{PreviewRow, Opts, is_planned, base}
use romarr.Prune.Preview.{
  SetTitles, LibraryRow, PlatformSet, Tally, classify, judge_silent, index_set_titles, add_silent,
  preview_platforms, no_tally,
}
use romarr.Prune.Preview.Laws.{Spare, Loose, classify-Spare, judge_silent-Loose}
use romarr.Prune.Preview.Titles.{Titled, owned_title, no_title}
use romarr.Prune.Preview.Loops.{add_silent-rows, AddsPlatform, preview_platforms-keeps}

module _ (ownership_keys : Text → List Text) (hack_marker : Text → Text) (opts : Opts) where
  -- A file that no dump claims behind a planned row: an owned group's title shares a key with its
  -- name, where those are opted in; or no title of a group with a keeper does, and its name carries a
  -- hack's marker, where those are opted in.
  abbrev pub Stray : List Entry → LibraryRow → PreviewRow → Type 0
  Stray entries item row =
      (row.library_id ≡ item.id)
      × (row.path ≡ item.file_path)
      × ((Any
              (λ e.
                (e.status ≡ Status.owned)
                × Titled ownership_keys hack_marker (base item.file_path) e)
              entries
            × (opts.include_uncatalogued_dupes ≡ true))
          ⊎ (All (λ e. Titled ownership_keys hack_marker (base item.file_path) e → ⊥) entries
              × (is_empty (hack_marker (base item.file_path)) ≡ false)
              × (opts.include_uncatalogued_hacks ≡ true)))

  Loose-Stray :
      (entries : List Entry) (item : LibraryRow) (row : PreviewRow)
      → Loose ownership_keys hack_marker opts
          (index_set_titles ownership_keys hack_marker entries [])
          item
          row
      → Stray entries item row
  Loose-Stray entries item row (i, p, inl (hit, q, owned, opted)) = (
    i,
    p,
    inl (owned_title ownership_keys hack_marker entries (base item.file_path) q owned, opted),
  )
  Loose-Stray entries item row (i, p, inr (q, marked, opted)) = (
    i,
    p,
    inr (no_title ownership_keys hack_marker entries (base item.file_path) q, marked, opted),
  )

  -- What a planned row of a platform rests on: a dump of the set, or a file that no dump claims.
  abbrev pub Backed : PreviewRow → PlatformSet → Type 0
  Backed row p =
      Any (λ e. Any (λ c. Spare opts e c row) e.group.members) p.entries
      ⊎ Any
          (λ item.
            (any (λ i. i == item.id) (claimed_library_ids p.entries) ≡ false)
            × Stray p.entries item row)
          p.items

  abbrev pub IsBacked : List PlatformSet → PreviewRow → Type 0
  IsBacked platforms row = is_planned row ≡ true → Any (Backed row) platforms

  platform-IsBacked :
      (platforms : List PlatformSet) (p : PlatformSet)
      → Member p platforms
      → AddsPlatform (λ t. All (IsBacked platforms) t.rows) ownership_keys hack_marker opts p
  platform-IsBacked platforms p m = (
    λ e c me mc owned t o n h.
        let row = classify e c owned p.slug opts.include_excluded in
        All-append (IsBacked platforms) t.rows (row ∷ []) h (
          λ planned. Any-of_Member (Backed row) platforms m (
              inl (
                Any-of_Member _ p.entries me (
                  Any-of_Member _ e.group.members mc
                    (classify-Spare opts e c owned p.slug o n planned)))),
          tt,
        ),
    λ item i t free h. silent t item i free h,
  )
    where
      known : SetTitles
      known = index_set_titles ownership_keys hack_marker p.entries []

      silent :
          (t : Tally) (item : LibraryRow)
          → Member item p.items
          → any (λ i. i == item.id) (claimed_library_ids p.entries) ≡ false
          → All (IsBacked platforms) t.rows
          → All
              (IsBacked platforms)
              (add_silent (judge_silent ownership_keys hack_marker opts known p.slug item) t).rows
      silent t item i free h =
          let row = judge_silent ownership_keys hack_marker opts known p.slug item in
          subst (All (IsBacked platforms)) (sym (add_silent-rows row t)) (
            All-append (IsBacked platforms) t.rows (row ∷ []) h (
              λ planned. Any-of_Member (Backed row) platforms m (
                  inr (
                    Any-of_Member _ p.items i (
                      free,
                      Loose-Stray p.entries item row (
                          judge_silent-Loose ownership_keys hack_marker opts known p.slug item
                            planned),
                    ))),
              tt,
            ))

  -- Every row that a finished preview plans to archive has its reason: it is a dump that is not
  -- the keeper, owned by more than a title, in a group whose keeper is on disk; or a dump of a
  -- group without a keeper, with those opted in; or a file that no dump claims, with a key of the
  -- title of an owned group, or with a hack's marker and no key of the title of any group with a
  -- keeper, each with those opted in.
  pub preview-IsBacked :
      (stopped : ℕ → Bool) (platforms : List PlatformSet) {t : Tally}
      → preview_platforms ownership_keys hack_marker stopped opts 0 platforms no_tally ≡ some t
      → All (IsBacked platforms) t.rows
  preview-IsBacked stopped platforms =
      preview_platforms-keeps (λ t. All (IsBacked platforms) t.rows) ownership_keys hack_marker opts
        stopped 0 platforms no_tally
        (All-of_Member _ platforms (λ p m. platform-IsBacked platforms p m)) tt
