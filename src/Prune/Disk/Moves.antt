-- ===== src/Prune/Disk/Moves.antt =====
-- What one rename does to the files, and when the name it goes to is free.
use romarr.Base.{
  ℕ, ◌≡◌, refl, sym, ap, ◌∙◌, inl, inr, true, false, [], ◌∷◌, Option, none, some, ◌++◌, sum,
  Bool-cases, Option-cases, ◌==◌, if◌then◌else◌, arith,
}
use romarr.Base.Text.{Text, text_eq, text_eq_iff}
use romarr.Base.Dict.{
  lookup, remove, lookup-insert, lookup-remove_other, insert-sum, remove-sum, text_key,
}
use romarr.Prune.Model.{PreviewRow}
use romarr.Prune.Disk.{Files, rename, sidecar, archive_dir, join, unique_name, dest_of, move_unless}

-- The number of files with a content.
abbrev pub copies : ℕ → Files → ℕ
copies content = sum (λ e. if e.1 == content then 1 else 0)

-- A path with a file is not a free one.
pub taken-apart :
    (path other : Text) (files : Files) {content : ℕ}
    → lookup path files ≡ some content
    → lookup other files ≡ none
    → text_eq other path ≡ false
taken-apart path other files h f = elim (Bool-cases (text_eq other path)) [
  | inl e ↦
      absurd (some_none (sym h ∙ ap (λ p. lookup p files) (sym ((text_eq_iff other path).0 e)) ∙ f))
  | inr e ↦ e
]
  where
    some_none : {content : ℕ} → some content ≡ none → ⊥
    some_none q = cc

text_eq_comm : (s t : Text) → text_eq s t ≡ false → text_eq t s ≡ false
text_eq_comm s t h = elim (Bool-cases (text_eq t s)) [
  | inl e ↦ absurd (true_false (sym ((text_eq_iff s t).1 (sym ((text_eq_iff t s).0 e))) ∙ h))
  | inr e ↦ e
]
  where
    true_false : true ≡ false → ⊥
    true_false q = cc

-- A move onto a free name keeps every content as often as it was.
pub rename-copies :
    (source dest : Text) (files : Files) (content : ℕ)
    → lookup dest files ≡ none
    → copies content (rename source dest files) ≡ copies content files
unfolding rename
rename-copies source dest files content free = elim (Option-cases (lookup source files)) [
  | inl e ↦ rw e refl
  | inr (v, e) ↦
      let one : ℕ → ℕ = λ c. if c == content then 1 else 0 in
      let apart = text_eq_comm dest source (taken-apart source dest files e free) in
      let added =
        rw (lookup-remove_other source dest files apart ∙ free) at
          (insert-sum one dest v (remove source files)) in
      let taken = rw e at (remove-sum one source files) in rw e (omega (arith, added, taken))
]

-- A free name stays free when a file moves onto another.
pub rename-free :
    (source dest other : Text) (files : Files)
    → lookup other files ≡ none
    → text_eq dest other ≡ false
    → lookup other (rename source dest files) ≡ none
unfolding rename
rename-free source dest other files free d = elim (Option-cases (lookup source files)) [
  | inl e ↦ rw e free
  | inr (v, e) ↦ rw e (
      rw (lookup-insert dest other v (remove source files), d)
        (lookup-remove_other source other files
            (text_eq_comm other source (taken-apart source other files e free))
          ∙ free))
]

-- It leaves the other paths alone.
pub rename-lookup :
    (source dest path : Text) (files : Files)
    → text_eq source path ≡ false
    → text_eq dest path ≡ false
    → lookup path (rename source dest files) ≡ lookup path files
unfolding rename
rename-lookup source dest path files s d = elim (Option-cases (lookup source files)) [
  | inl e ↦ rw e refl
  | inr (v, e) ↦ rw e (
      rw (lookup-insert dest path v (remove source files), d)
        (lookup-remove_other source path files s))
]

pub move_unless-copies :
    (o : Option Text) (source dest : Text) (files : Files) (content : ℕ)
    → lookup dest files ≡ none
    → copies content (move_unless o source dest files) ≡ copies content files
move_unless-copies (some err) source dest files content f = refl
move_unless-copies none source dest files content f = rename-copies source dest files content f

pub move_unless-lookup :
    (o : Option Text) (source dest path : Text) (files : Files)
    → text_eq source path ≡ false
    → text_eq dest path ≡ false
    → lookup path (move_unless o source dest files) ≡ lookup path files
move_unless-lookup (some err) source dest path files s d = refl
move_unless-lookup none source dest path files s d = rename-lookup source dest path files s d

-- The name with the time in it, which a row gets where its own is taken.
abbrev pub unique_dest : ℕ → Text → PreviewRow → Text
unique_dest now root row = join (archive_dir root row) (unique_name now row.name)

-- No file has the name with the time in it, nor the name of the sidecar in the archive.
pub record IsFree (now : ℕ) (root : Text) (row : PreviewRow) (files : Files) : Type 0 where
  pub unique_free : lookup (unique_dest now root row) files ≡ none
  pub sidecar_free : lookup (sidecar (dest_of now root row files)) files ≡ none

-- The name that a row gets is free.
pub dest_of-free :
    (now : ℕ) (root : Text) (row : PreviewRow) (files : Files)
    → lookup (unique_dest now root row) files ≡ none
    → lookup (dest_of now root row files) files ≡ none
unfolding dest_of
dest_of-free now root row files h = elim (Option-cases (lookup plain files)) [
  | inl e ↦ rw e e
  | inr (content, e) ↦ rw e h
]
  where
    plain : Text
    plain = join (archive_dir root row) row.name

pub longer-apart : (s : Text) (c : ℕ) (t : Text) → text_eq s (s ++ c ∷ t) ≡ false
longer-apart [] c t = refl
longer-apart (d ∷ s) c t = ground (arith, longer-apart s c t)
