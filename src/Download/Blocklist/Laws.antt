-- ===== src/Download/Blocklist/Laws.antt =====
-- internal/db/blocklist.go: what the removal of a release leaves.
use romarr.Base.{
  ℕ, ◌+◌, ◌≡◌, refl, sym, ap, ◌∙◌, Bool, true, false, not, ◌||◌, List, [], ◌∷◌, any, keep, length,
  length-keep, arith,
}
use romarr.Base.Text.{Text, is_empty}
use romarr.Download.Model.{BlocklistEntry, Blocklist}
use romarr.Download.Blocklist.{
  no_faults, has_url, has_hash, is_blocklisted, delete_where, remove_blocklist_for,
}

abbrev pub names_release : Text → Text → BlocklistEntry → Bool
names_release url hash e = has_url url e || has_hash hash e

any-keep_none :
    (p q : BlocklistEntry → Bool) (es : List BlocklistEntry)
    → ((e : BlocklistEntry) → p e ≡ true → q e ≡ true)
    → any p (keep (λ e. not (q e)) es) ≡ false
unfolding keep
any-keep_none p q [] f = refl
any-keep_none p q (e ∷ es) f = ground (arith, f e, any-keep_none p q es f)

keep-keep :
    (p q r : BlocklistEntry → Bool) (es : List BlocklistEntry)
    → ((e : BlocklistEntry) → r e ≡ (p e || q e))
    → keep (λ e. not (q e)) (keep (λ e. not (p e)) es) ≡ keep (λ e. not (r e)) es
unfolding keep
keep-keep p q r [] f = refl
keep-keep p q r (e ∷ es) f = ground (arith, f e, keep-keep p q r es f)

keep-same :
    (p q : BlocklistEntry → Bool) (es : List BlocklistEntry)
    → ((e : BlocklistEntry) → p e ≡ q e)
    → keep p es ≡ keep q es
unfolding keep
keep-same p q [] f = refl
keep-same p q (e ∷ es) f = ground (arith, f e, keep-same p q es f)

-- With nothing given for a column, nothing is deleted.
pub keep_all :
    (p : BlocklistEntry → Bool) (es : List BlocklistEntry)
    → any p es ≡ false
    → keep (λ e. not (p e)) es ≡ es
unfolding keep
keep_all p [] h = refl
keep_all p (e ∷ es) h = ground (arith, keep_all p es)

delete_where-entries :
    (skipped : Bool) (test : BlocklistEntry → Bool) (r : ℕ × Blocklist)
    → (skipped ≡ true → any test r.1.entries ≡ false)
    → ((delete_where skipped test r).1.entries ≡ keep (λ e. not (test e)) r.1.entries)
      × ((delete_where skipped test r).0 + length (delete_where skipped test r).1.entries
          ≡ r.0 + length r.1.entries)
delete_where-entries true test r h = (sym (keep_all test r.1.entries (h refl)), refl)
delete_where-entries false test r h =
    (refl, omega (arith, length-keep (λ e. not (test e)) r.1.entries))

pub none_given :
    (url : Text) (es : List BlocklistEntry) → is_empty url ≡ true → any (has_url url) es ≡ false
none_given url [] h = refl
none_given url (e ∷ es) h = ground (arith, none_given url es)

pub no_hash_given :
    (hash : Text) (es : List BlocklistEntry) → is_empty hash ≡ true → any (has_hash hash) es ≡ false
no_hash_given hash [] h = refl
no_hash_given hash (e ∷ es) h = ground (arith, no_hash_given hash es)

remove-entries :
    (url hash : Text) (b : Blocklist)
    → ((remove_blocklist_for no_faults url hash b).1.entries
        ≡ keep (λ e. not (names_release url hash e)) b.entries)
      × ((remove_blocklist_for no_faults url hash b).0
            + length (remove_blocklist_for no_faults url hash b).1.entries
          ≡ length b.entries)
unfolding remove_blocklist_for
remove-entries url hash b =
    let first = delete_where (is_empty url || false) (has_url url) (0, b) in
    let one =
      delete_where-entries (is_empty url || false) (has_url url) (0, b)
        (λ h. none_given url b.entries (ground arith)) in
    let two =
      delete_where-entries (is_empty hash || false) (has_hash hash) first
        (λ h. no_hash_given hash first.1.entries (ground arith)) in
    (
      two.0
          ∙ ap (keep (λ e. not (has_hash hash e))) one.0
          ∙ keep-keep (has_url url) (has_hash hash) (names_release url hash) b.entries (λ e. refl),
      omega (arith, one.1, two.1),
    )

-- Where no statement fails, taking a release off the blocklist leaves exactly the entries that name
-- neither its URL nor its hash, counts those it took, and the release is not blocklisted any more.
pub remove_blocklist_for-clears :
    (url hash : Text) (b : Blocklist)
    → ((remove_blocklist_for no_faults url hash b).1.entries
        ≡ keep (λ e. not (names_release url hash e)) b.entries)
      × ((remove_blocklist_for no_faults url hash b).0
            + length (remove_blocklist_for no_faults url hash b).1.entries
          ≡ length b.entries)
      × (is_blocklisted no_faults url hash (remove_blocklist_for no_faults url hash b).1 ≡ false)
unfolding is_blocklisted
remove_blocklist_for-clears url hash b =
    let (left, count) = remove-entries url hash b in
    (
      left,
      count,
      ground (
        arith,
        ap (any (has_url url)) left
            ∙ any-keep_none (has_url url) (names_release url hash) b.entries (λ e h. ground arith),
        ap (any (has_hash hash)) left
            ∙ any-keep_none (has_hash hash) (names_release url hash) b.entries
                (λ e h. ground arith),
      ),
    )
