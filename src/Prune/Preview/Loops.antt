-- ===== src/Prune/Preview/Loops.antt =====
-- internal/prune/prune.go: the loops of runPreview.
-- An invariant of the rows under way, kept by each loop of the preview when each row keeps it.
use romarr.Base.{
  ℕ, suc, ◌≡◌, refl, inl, inr, Bool, true, false, Option, none, some, List, [], ◌∷◌, ◌++◌, Member,
  any, ◌==◌, if◌then◌else◌, All, some_inj, subst, Bool-cases,
}
use romarr.Base.Text.{Text}
use romarr.Collection.Model.{Match, Candidate}
use romarr.Collection.Reconcile.{Entry, claimed_library_ids}
use romarr.Prune.Model.{PreviewRow, Opts}
use romarr.Prune.Preview.{
  LibraryRow, PlatformSet, Tally, classify, add_row, member_row, classify_members, classify_entries,
  judge_silent, index_set_titles, judge_items, add_silent, preview_platform, preview_platforms,
  is_nil, is_silent,
}

pub add_silent-rows : (row : PreviewRow) (t : Tally) → (add_silent row t).rows ≡ t.rows ++ row ∷ []
add_silent-rows row t = elim (Bool-cases (is_silent row.verdict)) [
  | inl q ↦ simp q refl
  | inr q ↦ simp q refl
]

module _ (I : Tally → Type 0) where
  if-keeps :
      (b : Bool) (t u : Tally) → (b ≡ true → I t) → (b ≡ false → I u) → I (if b then t else u)
  if-keeps true t u f g = f refl
  if-keeps false t u f g = g refl

  -- Adding the row of an owned dump that is not the keeper keeps the invariant.
  abbrev pub Adds : Entry → Text → Bool → Candidate → Type 0
  Adds e slug out c =
      (owned : Match) (t : Tally)
      → c.owned ≡ some owned
      → c.keeper ≡ false
      → I t
      → I (add_row (classify e c owned slug out) t)

  member_row-keeps :
      (e : Entry) (slug : Text) (out : Bool) (c : Candidate) (o : Option Match) (t : Tally)
      → c.owned ≡ o
      → Adds e slug out c
      → I t
      → I (member_row e slug out c o t)
  member_row-keeps e slug out c none t q f h = h
  member_row-keeps e slug out c (some owned) t q f h =
      if-keeps c.keeper t (add_row (classify e c owned slug out) t) (λ k. h) (λ k. f owned t q k h)

  classify_members-keeps :
      (e : Entry) (slug : Text) (out : Bool) (members : List Candidate) (t : Tally)
      → ((c : Candidate) → Member c members → Adds e slug out c)
      → I t
      → I (classify_members e slug out members t)
  unfolding classify_members
  classify_members-keeps e slug out [] t f h = h
  classify_members-keeps e slug out (c ∷ members) t f h =
      classify_members-keeps e slug out members (member_row e slug out c c.owned t)
        (λ d m. f d (inr m)) (member_row-keeps e slug out c c.owned t refl (f c (inl refl)) h)

  classify_entries-keeps :
      (slug : Text) (out : Bool) (entries : List Entry) (t : Tally)
      → ((e : Entry) (c : Candidate)
          → Member e entries
          → Member c e.group.members
          → Adds e slug out c)
      → I t
      → I (classify_entries slug out entries t)
  unfolding classify_entries
  classify_entries-keeps slug out [] t f h = h
  classify_entries-keeps slug out (e ∷ entries) t f h =
      classify_entries-keeps slug out entries (classify_members e slug out e.group.members t)
        (λ d c m. f d c (inr m))
        (classify_members-keeps e slug out e.group.members t (λ c. f e c (inl refl)) h)

  module _ (ownership_keys : Text → List Text) (hack_marker : Text → Text) (opts : Opts) where
    -- So does adding the row of a file that no dump claims.
    abbrev pub AddsSilent : PlatformSet → LibraryRow → Type 0
    AddsSilent p item =
        (t : Tally)
        → any (λ i. i == item.id) (claimed_library_ids p.entries) ≡ false
        → I t
        → I (
            add_silent
              (judge_silent ownership_keys hack_marker opts
                (index_set_titles ownership_keys hack_marker p.entries []) p.slug item)
              t)

    judge_items-keeps :
        (p : PlatformSet) (items : List LibraryRow) (t : Tally)
        → ((item : LibraryRow) → Member item items → AddsSilent p item)
        → I t
        → I (
            judge_items ownership_keys hack_marker opts
              (index_set_titles ownership_keys hack_marker p.entries [])
              (claimed_library_ids p.entries)
              p.slug
              items
              t)
    unfolding judge_items
    judge_items-keeps p [] t f h = h
    judge_items-keeps p (item ∷ items) t f h =
        judge_items-keeps p items _ (λ i m. f i (inr m))
          (if-keeps (any (λ i. i == item.id) (claimed_library_ids p.entries)) t (add_silent _ t)
            (λ q. h) (λ q. f item (inl refl) t q h))

    -- All the rows of a platform keep the invariant.
    abbrev pub AddsPlatform : PlatformSet → Type 0
    AddsPlatform p =
        ((e : Entry) (c : Candidate)
          → Member e p.entries
          → Member c e.group.members
          → Adds e p.slug opts.include_excluded c)
        × ((item : LibraryRow) → Member item p.items → AddsSilent p item)

    preview_platform-keeps :
        (p : PlatformSet) (t : Tally)
        → AddsPlatform p
        → I t
        → I (preview_platform ownership_keys hack_marker opts p t)
    unfolding preview_platform
    preview_platform-keeps p t f h =
        judge_items-keeps p p.items (classify_entries p.slug opts.include_excluded p.entries t) f.1
          (classify_entries-keeps p.slug opts.include_excluded p.entries t f.0 h)

    pub preview_platforms-keeps :
        (stopped : ℕ → Bool) (i : ℕ) (platforms : List PlatformSet) (t : Tally) {u : Tally}
        → All AddsPlatform platforms
        → I t
        → preview_platforms ownership_keys hack_marker stopped opts i platforms t ≡ some u
        → I u
    unfolding preview_platforms
    preview_platforms-keeps stopped i [] t {u} f h e = subst I (some_inj e) h
    preview_platforms-keeps stopped i (p ∷ platforms) t {u} f h e = elim (Bool-cases (stopped i)) [
      | inl q ↦ absurd (none_some (rw q at e))
      | inr q ↦
          preview_platforms-keeps stopped (suc i) platforms _ f.1
            (if-keeps (is_nil p.entries) t _ (λ n. h) (λ n. preview_platform-keeps p t f.0 h))
            (rw q at e)
    ]
      where
        none_some : none ≡ some u → ⊥
        none_some q = cc
