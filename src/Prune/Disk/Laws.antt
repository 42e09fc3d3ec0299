-- ===== src/Prune/Disk/Laws.antt =====
-- What a move into the archive does to the files, the library and the manifest.
use romarr.Base.{
  ℕ, ◌≡◌, refl, sym, ap, subst, ◌∙◌, ◌⊎◌, inl, inr, false, not, List, [], ◌∷◌, Option, none, some,
  ◌++◌, Bool-cases,
}
use romarr.Base.Text.{Text, text_eq, is_empty, codes}
use romarr.Base.Dict.{lookup, text_key}
use romarr.Prune.Model.{PreviewRow}
use romarr.Prune.Disk.{
  World, Env, ManifestEntry, exists, rename, sidecar, archive_dir, make_dirs, dest_of,
  carry_sidecar, manifest_entry, append_manifest, delete_library_item, Outcome, failed, moved,
  move_row, after_mkdir, archive,
}
use romarr.Prune.Disk.Moves.{
  copies, taken-apart, rename-copies, rename-free, rename-lookup, move_unless-copies,
  move_unless-lookup, IsFree, dest_of-free, longer-apart,
}

module _ (env : Env) (now : ℕ) (root : Text) (row : PreviewRow) (w : World) where
  abbrev dest : Text
  dest = dest_of now root row w.files

  -- A property of the world after `archive`, from the two worlds that it can leave.
  abbrev moved_world : World
  moved_world = record {
    files = carry_sidecar env row dest (rename row.path dest w.files);
    library = delete_library_item env row.library_id w.library;
    manifest = append_manifest env (manifest_entry now row dest) w.manifest;
    dirs = w.dirs ++ env.mkdir_makes (archive_dir root row);
  }

  -- What `archive` returns and leaves: an error and the world but for directories made, or the
  -- destination and the world with the row moved.
  abbrev pub Archives : Outcome × World → Type 0
  Archives r =
      ((err : Text) × (ds : List Text) × (r ≡ (failed err, record w { dirs = ds })))
      ⊎ (r ≡ (moved dest, moved_world))

  move_row-cases :
      (o : Option Text) → Archives (move_row env now row dest (make_dirs env root row w) o)
  move_row-cases (some err) = inl (_, _, refl)
  move_row-cases none = inr refl

  after_mkdir-cases :
      (o : Option Text) → Archives (after_mkdir env now root row (make_dirs env root row w) o)
  after_mkdir-cases (some err) = inl (_, _, refl)
  after_mkdir-cases none = move_row-cases (env.rename_error row.path dest)

  archive-cases : Archives (archive env now root row w)
  unfolding archive
  archive-cases = elim (Bool-cases (is_empty row.path)) [
    | inl e ↦ inl (codes "library row has no file path", w.dirs, rw e refl)
    | inr e ↦ elim (Bool-cases (not (exists row.path w.files))) [
      | inl f ↦
          inl (codes "file is gone since the preview: " ++ env.stat_error, w.dirs, rw (e, f) refl)
      | inr f ↦ rw (e, f) (after_mkdir-cases (env.mkdir_error (archive_dir root row)))
    ]
  ]

  sidecar_free_later :
      IsFree now root row w.files → lookup (sidecar dest) (rename row.path dest w.files) ≡ none
  sidecar_free_later h =
      rename-free row.path dest (sidecar dest) w.files h.sidecar_free
        (longer-apart dest b'.' (codes "gamarr.json"))

  moved-copies :
      (content : ℕ)
      → IsFree now root row w.files
      → copies content moved_world.files ≡ copies content w.files
  unfolding carry_sidecar
  moved-copies content h =
      let files = rename row.path dest w.files in
      let main =
        rename-copies row.path dest w.files content
          (dest_of-free now root row w.files h.unique_free) in
      elim (Bool-cases (exists (sidecar row.path) files)) [
        | inl e ↦
            rw e (
              move_unless-copies _ (sidecar row.path) (sidecar dest) files content
                (sidecar_free_later h))
            ∙ main
        | inr e ↦ rw e main
      ]

  moved-lookup :
      (path : Text)
      → text_eq row.path path ≡ false
      → text_eq (sidecar row.path) path ≡ false
      → text_eq dest path ≡ false
      → text_eq (sidecar dest) path ≡ false
      → lookup path moved_world.files ≡ lookup path w.files
  unfolding carry_sidecar
  moved-lookup path a b c d =
      let files = rename row.path dest w.files in
      let main = rename-lookup row.path dest path w.files a c in
      elim (Bool-cases (exists (sidecar row.path) files)) [
        | inl e ↦
            rw e (move_unless-lookup _ (sidecar row.path) (sidecar dest) path files b d) ∙ main
        | inr e ↦ rw e main
      ]

  -- Archiving a row onto free names keeps every content on the disk as often as it was, whether
  -- it succeeds or fails.
  pub archive-copies :
      (content : ℕ)
      → IsFree now root row w.files
      → copies content (archive env now root row w).1.files ≡ copies content w.files
  archive-copies content h = elim archive-cases [
    | inl (err, ds, e) ↦ rw e refl
    | inr e ↦ rw e (moved-copies content h)
  ]

  -- Every other file stays where it is with its content.
  pub archive-lookup :
      (path : Text) (content : ℕ)
      → IsFree now root row w.files
      → text_eq row.path path ≡ false
      → text_eq (sidecar row.path) path ≡ false
      → lookup path w.files ≡ some content
      → lookup path (archive env now root row w).1.files ≡ some content
  archive-lookup path content h a b there = elim archive-cases [
    | inl (err, ds, e) ↦ rw e there
    | inr e ↦
        rw e (
          moved-lookup path a b
            (taken-apart path dest w.files there (dest_of-free now root row w.files h.unique_free))
            (taken-apart path (sidecar dest) w.files there h.sidecar_free))
        ∙ there
  ]

  -- An archive that fails leaves the files, the library and the manifest as they were; it may have
  -- made directories.
  pub archive-failed :
      (err : Text)
      → (archive env now root row w).0 ≡ failed err
      → ((archive env now root row w).1.files ≡ w.files)
        × ((archive env now root row w).1.library ≡ w.library)
        × ((archive env now root row w).1.manifest ≡ w.manifest)
  archive-failed err h = elim archive-cases [
    | inl (why, ds, e) ↦ (ap (λ r. r.1.files) e, ap (λ r. r.1.library) e, ap (λ r. r.1.manifest) e)
    | inr e ↦ absurd (moved_failed (sym (ap (λ r. r.0) e) ∙ h))
  ]
    where
      moved_failed : moved dest ≡ failed err → ⊥
      moved_failed q = cc

  -- Where the manifest can be written, it has one more entry exactly after a move.
  abbrev pub HasEntry : Outcome × World → Type 0
  HasEntry (failed err, u) = u.manifest ≡ w.manifest
  HasEntry (moved to, u) = (entry : ManifestEntry) × (u.manifest ≡ w.manifest ++ entry ∷ [])

  pub archive-HasEntry :
      ((e : ManifestEntry) → env.manifest_fails e ≡ false) → HasEntry (archive env now root row w)
  unfolding append_manifest
  archive-HasEntry writes = elim archive-cases [
    | inl (err, ds, e) ↦ subst HasEntry (sym e) refl
    | inr e ↦
        subst HasEntry (sym e) (manifest_entry now row dest, written (manifest_entry now row dest))
  ]
    where
      written : (e : ManifestEntry) → append_manifest env e w.manifest ≡ w.manifest ++ e ∷ []
      written e = rw (writes e) refl
