-- ===== src/Collection/Build/Keyed.antt =====
-- A dump stands in the group of its own key.
use romarr.Base.{
  ◌≡◌, refl, inl, inr, sym, subst, ◌∙◌, Option, none, some, List, [], ◌∷◌, All, All-map, map-All,
  All-append, Bool-cases, Option-cases, ◌&&◌, ◌||◌, not, any, ◌==◌,
}
use romarr.Base.Text.{Text, text_eq, codes}
use romarr.Base.Dict.{lookup, insert, insert-All, lookup-All, text_key}
use romarr.Base.Sort.{stable_sort-All}
use romarr.Selection.Model.{ReleaseAttrs}
use romarr.Collection.Model.{Member, Group}
use romarr.Collection.Policy.{Policy, english_rank}
use romarr.Collection.Keeper.{
  choose_keeper, require_english, Leader, Priorities, keep_best, best_of,
}
use romarr.Collection.Build.{
  Hit, Bucket, Place, group_of, add_member, adopt, or_new_bucket, fill, judged, group_from, build,
  title_first,
}
use romarr.Collection.Build.Partition.{adopt-members, dumps, group_from-dumps}

adopt-key : (p : Place) (b : Bucket) → (adopt p b).key ≡ b.key
adopt-key p b =
    elim (Bool-cases
      (text_eq p.source (codes "clone-list") && not (text_eq b.source (codes "clone-list")))) [
        | inl e ↦ rw e refl
        | inr e ↦ rw e refl
      ]

module _ (overlay : Option (Member → Option Hit)) where
  abbrev Keyed : Text → Bucket → Type 0
  Keyed k b = (b.key ≡ k) × All (λ m. (group_of m overlay).key ≡ k) b.members

  add_member-Keyed :
      (m : Member) (p : Place) (b : Bucket)
      → (group_of m overlay).key ≡ p.key
      → Keyed p.key b
      → Keyed p.key (add_member m p b)
  unfolding add_member
  add_member-Keyed m p b h k =
      (adopt-key p b ∙ k.0, rw (adopt-members p b) (All-append _ b.members (m ∷ []) k.1 (h, tt)))

  found-Keyed :
      (p : Place) (buckets : List (Text × Bucket))
      → All (λ e. Keyed e.0 e.1) buckets
      → Keyed p.key (or_new_bucket p (lookup p.key buckets))
  found-Keyed p buckets all = elim (Option-cases (lookup p.key buckets)) [
    | inl e ↦ rw e (refl, tt)
    | inr (b, e) ↦ rw e (lookup-All Keyed p.key buckets all e)
  ]

  fill-Keyed :
      (members : List Member) (buckets : List (Text × Bucket))
      → All (λ e. Keyed e.0 e.1) buckets
      → All (λ e. Keyed e.0 e.1) (fill overlay members buckets)
  unfolding fill
  fill-Keyed [] buckets all = all
  fill-Keyed (m ∷ members) buckets all =
      let p = group_of m overlay in
      let old = or_new_bucket p (lookup p.key buckets) in
      fill-Keyed members (insert p.key (add_member m p old) buckets) (
        insert-All Keyed p.key (add_member m p old) buckets
          (add_member-Keyed m p old refl (found-Keyed p buckets all)) all)

require_english-key : (g : Group) (p : Policy) → (require_english g p).key ≡ g.key
unfolding require_english
require_english-key g p =
    elim (Bool-cases
      (not p.require_english || any (λ c. not c.excluded && english_rank c == 0) g.members)) [
        | inl e ↦ rw e refl
        | inr e ↦ rw e refl
      ]

module _ (parse : Text → ReleaseAttrs) (p : Policy) where
  keep_best-key : (g : Group) (best : Leader) → (keep_best parse g p best).key ≡ g.key
  keep_best-key g none = refl
  keep_best-key g (some (i, k)) = refl

  choose_keeper-key : (g : Group) (prio : Priorities) → (choose_keeper parse g prio p).key ≡ g.key
  unfolding choose_keeper
  choose_keeper-key g prio = keep_best-key g (best_of parse prio p 0 g.members none)

  judged-key : (b : Bucket) → (judged parse b p).key ≡ b.key
  unfolding judged
  judged-key b = refl

  group_from-key : (b : Bucket) → (group_from parse p b).key ≡ b.key
  unfolding group_from
  group_from-key b =
      let g = judged parse b p in
      require_english-key (choose_keeper parse g b.title_priority p) p
      ∙ choose_keeper-key g b.title_priority
      ∙ judged-key b

  -- Every dump of a built group has the group's key by its own name and the clone list.
  pub build-Keyed :
      (overlay : Option (Member → Option Hit)) (members : List Member)
      → All
          (λ g. All (λ m. (group_of m overlay).key ≡ g.key) (dumps g))
          (build parse members overlay p)
  unfolding build
  build-Keyed overlay members =
      stable_sort-All title_first (λ g. All (λ m. (group_of m overlay).key ≡ g.key) (dumps g)) _
        (map-All _ (λ e. group_from parse p e.1) (fill overlay members [])
          (All-map (λ e. Keyed overlay e.0 e.1) _ (fill overlay members []) (λ e h. keyed e.0 e.1 h)
            (fill-Keyed overlay members [] tt)))
    where
      keyed :
          (k : Text) (b : Bucket)
          → Keyed overlay k b
          → All
              (λ m. (group_of m overlay).key ≡ (group_from parse p b).key)
              (dumps (group_from parse p b))
      keyed k b h =
          subst (λ ms. All (λ m. (group_of m overlay).key ≡ (group_from parse p b).key) ms)
            (sym (group_from-dumps parse p b))
            (subst (λ j. All (λ m. (group_of m overlay).key ≡ j) b.members)
              (sym (group_from-key b ∙ h.0)) h.1)
