-- ===== src/Prune/Keepers.antt =====
-- The composition of a platform's set with its declutter: what becomes of the keepers' files.
use romarr.Base.{
  ℕ, zero, suc, ◌+◌, ◌≤◌, ◌≡◌, refl, sym, subst, ◌∙◌, inl, inr, Bool, true, false, not, ◌&&◌,
  Option, none, some, List, [], ◌∷◌, ◌++◌, All, Any, Member, Member-of_Any, Member-All,
  Member-append, Member-tally, tally, tally-append, any, ◌==◌, ==_iff, Bool-cases, some_inj, arith,
  All-map, tally-nil,
}
use romarr.Base.Int.{ℤ, pos, negsuc}
use romarr.Base.Text.{Text, text_eq}
use romarr.Base.Dict.{lookup, text_key}
use romarr.Collection.Model.{Match, Candidate, Group, get_elem?, keeper_of}
use romarr.Collection.Reconcile.{Entry, Index, Unowned, reconcile, member_ids, claimed_library_ids}
use romarr.Collection.Reconcile.Claims.{reconcile_once}
use romarr.Prune.Model.{PreviewRow, Opts, is_planned}
use romarr.Prune.Preview.{LibraryRow, PlatformSet, Tally, no_tally, preview_platforms}
use romarr.Prune.Preview.Planned.{Backed, preview-IsBacked}
use romarr.Prune.Disk.{Env, sidecar}
use romarr.Prune.Apply.{Run, is_selected, apply_from}
use romarr.Prune.Apply.Laws.{AllFree, IsSpared, apply_from-lookup}

abbrev has_id : ℕ → Candidate → Bool
has_id id c = elim c.owned [ none ↦ false | some m ↦ m.library_id == id ]

all_members : List Entry → List Candidate
all_members [] = []
all_members (e ∷ entries) = e.group.members ++ all_members entries

all_members-Member :
    (e : Entry) (c : Candidate) (entries : List Entry)
    → Member e entries
    → Member c e.group.members
    → Member c (all_members entries)
unfolding all_members
all_members-Member e c (d ∷ entries) (inl q) m =
    Member-append c d.group.members (all_members entries)
      (inl (subst (λ (g : Entry). Member c g.group.members) q m))
all_members-Member e c (d ∷ entries) (inr i) m =
    Member-append c d.group.members (all_members entries) (inr (all_members-Member e c entries i m))
all_members-Member e c [] i m = absurd i

member_ids-append :
    (id : ℕ) (xs : List Candidate) (ids : List ℕ)
    → tally (λ j. j == id) (member_ids xs ++ ids) ≡ tally (has_id id) xs + tally (λ j. j == id) ids
unfolding member_ids tally
member_ids-append id [] ids = omega arith
member_ids-append id (c ∷ xs) ids = ground (arith, member_ids-append id xs ids)

-- The library files claimed by some dumps are those dumps' ids.
claimed-tally :
    (id : ℕ) (entries : List Entry)
    → tally (λ j. j == id) (claimed_library_ids entries) ≡ tally (has_id id) (all_members entries)
unfolding claimed_library_ids all_members
claimed-tally id [] = tally-nil (λ j. j == id) ∙ sym (tally-nil (has_id id))
claimed-tally id (e ∷ entries) = omega (
  arith,
  member_ids-append id e.group.members (claimed_library_ids entries),
  tally-append (has_id id) e.group.members (all_members entries),
  claimed-tally id entries,
)

tally-split :
    (p q : Candidate → Bool) (xs : List Candidate)
    → tally (λ c. p c && q c) xs + tally (λ c. p c && not (q c)) xs ≡ tally p xs
unfolding tally
tally-split p q [] = omega arith
tally-split p q (c ∷ xs) = ground (arith, tally-split p q xs)

-- A keeper and a dump that is no keeper have no file in common if no file is claimed twice.
two_claims :
    (id : ℕ) (k c : Candidate) (members : List Candidate)
    → Member k members
    → Member c members
    → has_id id k ≡ true
    → has_id id c ≡ true
    → k.keeper ≡ true
    → c.keeper ≡ false
    → 2 ≤ tally (has_id id) members
two_claims id k c members mk mc ik ic kk kc = omega (
  arith,
  tally-split (has_id id) (λ d. d.keeper) members,
  Member-tally (λ d. has_id id d && d.keeper) members mk (ground arith),
  Member-tally (λ d. has_id id d && not d.keeper) members mc (ground arith),
)

get_elem?-Member :
    (k : Candidate) (members : List Candidate) (i : ℕ)
    → get_elem? members i ≡ some k
    → Member k members
get_elem?-Member k [] i h = absurd (cc)
get_elem?-Member k (c ∷ members) zero h = inl (sym (some_inj h))
get_elem?-Member k (c ∷ members) (suc i) h = inr (get_elem?-Member k members i h)

keeper_of-Member : (g : Group) (k : Candidate) → keeper_of g ≡ some k → Member k g.members
unfolding keeper_of
keeper_of-Member g k h = at_index g.keeper_index h
  where
    at_index :
        (i : ℤ)
        → elim i [ pos n ↦ get_elem? g.members n | negsuc n ↦ none ] ≡ some k
        → Member k g.members
    at_index (pos n) q = get_elem?-Member k g.members n q
    at_index (negsuc n) q = absurd (cc)

any-tally : (id : ℕ) (ids : List ℕ) → any (λ j. j == id) ids ≡ false → tally (λ j. j == id) ids ≡ 0
unfolding tally
any-tally id [] h = refl
any-tally id (j ∷ ids) h = ground (arith, any-tally id ids)

-- The files of a platform stand where its library says, each row of it at a path of its own that is
-- not the sidecar of another.
pub record IsShelved (path_of : ℕ → Text) (p : PlatformSet) : Type 0 where
  pub dumps :
      All
        (λ (e : Entry).
          All
            (λ (c : Candidate). (m : Match) → c.owned ≡ some m → m.file_path ≡ path_of m.library_id)
            e.group.members)
        p.entries
  pub files : All (λ (i : LibraryRow). i.file_path ≡ path_of i.id) p.items
  pub apart : (i j : ℕ) → text_eq (path_of i) (path_of j) ≡ true → i ≡ j
  pub no_sidecar : (i j : ℕ) → text_eq (sidecar (path_of i)) (path_of j) ≡ false

module _ (path_of : ℕ → Text) (p : PlatformSet) (shelved : IsShelved path_of p)
    (once : (id : ℕ) → tally (λ j. j == id) (claimed_library_ids p.entries) ≤ 1) (e : Entry)
    (k : Candidate) (file : Match) (in_set : Member e p.entries) (kept : keeper_of e.group ≡ some k)
    (flagged : k.keeper ≡ true) (on_disk : k.owned ≡ some file) where
  keeper_place : Member k (all_members p.entries)
  keeper_place = all_members-Member e k p.entries in_set (keeper_of-Member e.group k kept)

  keeper_path : file.file_path ≡ path_of file.library_id
  keeper_path =
      Member-All _ e.group.members (Member-All _ p.entries shelved.dumps in_set)
        (keeper_of-Member e.group k kept) file on_disk

  has_its_id :
      (c : Candidate) (m : Match) (id : ℕ)
      → c.owned ≡ some m
      → m.library_id ≡ id
      → has_id id c ≡ true
  has_its_id c m id h q = rw h ((==_iff m.library_id id).1 q)

  -- A row of another library file spares the keeper's.
  other_file :
      (row : PreviewRow) (id : ℕ)
      → row.path ≡ path_of id
      → (id ≡ file.library_id → ⊥)
      → (text_eq row.path file.file_path ≡ false)
        × (text_eq (sidecar row.path) file.file_path ≡ false)
  other_file row id at other =
      rw (at, keeper_path)
        (
          elim (Bool-cases (text_eq (path_of id) (path_of file.library_id))) [
            | inl q ↦ absurd (other (shelved.apart id file.library_id q))
            | inr q ↦ q
          ],
          shelved.no_sidecar id file.library_id,
        )

  spared_row :
      (ownership_keys : Text → List Text) (hack_marker : Text → Text) (opts : Opts)
      (row : PreviewRow)
      → Backed ownership_keys hack_marker opts row p
      → (text_eq row.path file.file_path ≡ false)
        × (text_eq (sidecar row.path) file.file_path ≡ false)
  spared_row ownership_keys hack_marker opts row (inl spare) =
      let (d, in_d, spare_d) = Member-of_Any _ p.entries spare in
      let (c, in_c, (owned, o, plain, id, path, why)) = Member-of_Any _ d.group.members spare_d in
      let stored =
        Member-All _ d.group.members (Member-All _ p.entries shelved.dumps in_d) in_c owned o in
      other_file row owned.library_id (path ∙ stored) λ same. too_many (
        two_claims file.library_id k c (all_members p.entries) keeper_place
          (all_members-Member d c p.entries in_d in_c)
          (has_its_id k file file.library_id on_disk refl)
          (has_its_id c owned file.library_id o same) flagged plain)
    where
      too_many : 2 ≤ tally (has_id file.library_id) (all_members p.entries) → ⊥
      too_many two =
          omega (arith, once file.library_id, claimed-tally file.library_id p.entries, two)
  spared_row ownership_keys hack_marker opts row (inr loose) =
      let (item, at, (free, (id, path, why))) = Member-of_Any _ p.items loose in
      other_file row item.id (path ∙ Member-All _ p.items shelved.files at)
        λ same. absurd (claimed item.id free same)
    where
      claimed :
          (id : ℕ)
          → any (λ i. i == id) (claimed_library_ids p.entries) ≡ false
          → id ≡ file.library_id
          → ⊥
      claimed id free same = omega (
        arith,
        any-tally id (claimed_library_ids p.entries) free,
        claimed-tally id p.entries,
        Member-tally (has_id id) (all_members p.entries) keeper_place
            (has_its_id k file id on_disk (sym same)),
      )

-- The set of a platform as reconciled with its library, with the library's rows.
abbrev pub reconciled :
    (Text → List Text) → Text → List Group → Option Index → List LibraryRow → PlatformSet
reconciled ownership_keys slug groups idx items = record {
  slug = slug;
  entries = reconcile ownership_keys groups idx;
  items = items;
}

-- For a platform whose set is reconciled with its library, from unowned groups, and whose files are
-- shelved: after a preview with any options and an apply pass over it where at each row's turn its
-- name with the time added, and the name of the sidecar beside its destination, are free, with
-- whatever failures, exclusions and cancellation, the file of every flagged keeper that was on disk
-- is at its path with its content.
pub keeper_survives :
    (ownership_keys : Text → List Text) (hack_marker : Text → Text) (slug : Text)
    (groups : List Group) (idx : Option Index) (items : List LibraryRow) (path_of : ℕ → Text)
    → Unowned groups
    → IsShelved path_of (reconciled ownership_keys slug groups idx items)
    → (stopped : ℕ → Bool) (opts : Opts) {t : Tally}
    → preview_platforms ownership_keys hack_marker stopped opts 0
        (reconciled ownership_keys slug groups idx items ∷ [])
        no_tally
      ≡ some t
    → (env : Env) (clock : ℕ → ℕ) (cancelled : ℕ → Bool) (root : Text) (excluded : List ℕ) (s : Run)
    → AllFree env clock cancelled root excluded 0 t.rows s
    → (e : Entry) (k : Candidate) (file : Match) (content : ℕ)
    → Member e (reconcile ownership_keys groups idx)
    → keeper_of e.group ≡ some k
    → k.keeper ≡ true
    → k.owned ≡ some file
    → lookup file.file_path s.world.files ≡ some content
    → lookup file.file_path (apply_from env clock cancelled root excluded 0 t.rows s).2.world.files
      ≡ some content
keeper_survives ownership_keys hack_marker slug groups idx items path_of unowned shelved stopped
      opts {t} finished env clock cancelled root excluded s free e k file content in_set kept
      flagged on_disk =
    let p = reconciled ownership_keys slug groups idx items in
    apply_from-lookup env clock cancelled root excluded t.rows 0 s file.file_path content free (
      All-map _ (IsSpared env clock cancelled root excluded file.file_path) t.rows
        (λ row backed planned. only row (backed (is_planned_of row planned)))
        (preview-IsBacked ownership_keys hack_marker opts stopped (p ∷ []) finished))
  where
    is_planned_of : (row : PreviewRow) → is_selected excluded row ≡ true → is_planned row ≡ true
    is_planned_of row h = ground arith

    only :
        (row : PreviewRow)
        → Any
            (Backed ownership_keys hack_marker opts row)
            (reconciled ownership_keys slug groups idx items ∷ [])
        → (text_eq row.path file.file_path ≡ false)
          × (text_eq (sidecar row.path) file.file_path ≡ false)
    only row (inl h) =
        spared_row path_of (reconciled ownership_keys slug groups idx items) shelved
          (λ id. reconcile_once ownership_keys idx groups id unowned) e k file in_set kept flagged
          on_disk ownership_keys hack_marker opts row h
    only row (inr h) = absurd h
