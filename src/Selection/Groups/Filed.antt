-- ===== src/Selection/Groups/Filed.antt =====
-- What holds of the releases that are filed in the groups.
use romarr.Base.{
  ℕ, ◌≡◌, refl, sym, ◌∙◌, ◌≢◌, ◌⊎◌, inl, inr, ◌||◌, Option, none, some, List, [], ◌∷◌, arith, ltb,
  ◌==◌, is_none, All, All-append, Bool-cases,
}
use romarr.Base.Text.{Text}
use romarr.Base.Dict.{
  lookup, insert, insert-All, lookup-All, HasKey, HasKey-cons, HasKey-head, nat_eq, text_key,
}
use romarr.Selection.Model.{SearchResult, ReleaseAttrs}
use romarr.Selection.Groups.{
  SetGroup, Groups, group_key, or_new_group, add_disc, add_to_group, disc_attrs, place, split_discs,
  min_disc_from, min_disc_index,
}

-- A release filed under a disc index of a group: it satisfies `P`, says that it is that disc, and
-- belongs under the group's key.
pub record IsFiled (P : SearchResult → Type 0) (k : Text) (i : ℕ) (r : SearchResult) : Type 0 where
  pub sound : P r
  pub attrs : ReleaseAttrs
  pub parsed : r.attrs ≡ some attrs
  pub indexed : attrs.disc_index ≡ i
  pub positive : i ≢ 0
  pub keyed : group_key r attrs ≡ k

pub record IsGroup (P : SearchResult → Type 0) (k : Text) (g : SetGroup) : Type 0 where
  pub named : g.key ≡ k
  pub filed : All (λ (p : ℕ × SearchResult). IsFiled P k p.0 p.1) g.discs
  pub some_disc : g.discs ≢ []

insert-ne-nil : (i : ℕ) (r : SearchResult) (m : List (ℕ × SearchResult)) → insert i r m ≢ []
unfolding insert
insert-ne-nil i r [] h = cc
insert-ne-nil i r ((j, w) ∷ m) h = ground arith

lookup-ne-nil : (i : ℕ) (m : List (ℕ × SearchResult)) → HasKey i m → m ≢ []
unfolding lookup
lookup-ne-nil i [] h q = cc
lookup-ne-nil i (p ∷ m) h q = cc

module _ (P : SearchResult → Type 0) where
  add_disc-IsFiled :
      (k : Text) (r : SearchResult) (a : ReleaseAttrs) (g : SetGroup)
      → IsFiled P k a.disc_index r
      → All (λ (p : ℕ × SearchResult). IsFiled P k p.0 p.1) g.discs
      → All (λ (p : ℕ × SearchResult). IsFiled P k p.0 p.1) (add_disc r a g).discs
  unfolding add_disc
  add_disc-IsFiled k r a g f old = elim (Bool-cases (is_none (lookup a.disc_index g.discs))) [
    | inl q ↦ rw q (insert-All (IsFiled P k) a.disc_index r g.discs f old)
    | inr q ↦ rw q old
  ]

  add_disc-ne-nil :
      (r : SearchResult) (a : ReleaseAttrs) (g : SetGroup) → (add_disc r a g).discs ≢ []
  unfolding add_disc
  add_disc-ne-nil r a g = elim (Bool-cases (is_none (lookup a.disc_index g.discs))) [
    | inl q ↦ rw q (insert-ne-nil a.disc_index r g.discs)
    | inr q ↦ rw q (lookup-ne-nil a.disc_index g.discs q)
  ]

  add_disc-key : (r : SearchResult) (a : ReleaseAttrs) (g : SetGroup) → (add_disc r a g).key ≡ g.key
  unfolding add_disc
  add_disc-key r a g = refl

  abbrev pub AllGroups : Groups → Type 0
  AllGroups = All (λ (p : Text × SetGroup). IsGroup P p.0 p.1)

  or_new_group-named :
      (k : Text) (groups : Groups) (o : Option SetGroup)
      → AllGroups groups
      → lookup k groups ≡ o
      → ((or_new_group k o).key ≡ k)
        × All (λ (p : ℕ × SearchResult). IsFiled P k p.0 p.1) (or_new_group k o).discs
  or_new_group-named k groups none v q = (refl, tt)
  or_new_group-named k groups (some g) v q =
      let w : IsGroup P k g = lookup-All (IsGroup P) k groups v q in (w.named, w.filed)

  add_to_group-AllGroups :
      (r : SearchResult) (a : ReleaseAttrs) (groups : Groups)
      → IsFiled P (group_key r a) a.disc_index r
      → AllGroups groups
      → AllGroups (add_to_group r a groups)
  unfolding add_to_group
  add_to_group-AllGroups r a groups f v =
      let k = group_key r a in
      let g = or_new_group k (lookup k groups) in
      let old = or_new_group-named k groups (lookup k groups) v refl in
      insert-All (IsGroup P) k (add_disc r a g) groups
        (record {
          named = add_disc-key r a g ∙ old.0;
          filed = add_disc-IsFiled k r a g f old.1;
          some_disc = add_disc-ne-nil r a g;
        })
        v

  abbrev pub AllSplit : List SearchResult × Groups → Type 0
  AllSplit acc = All P acc.0 × AllGroups acc.1

  disc_attrs-IsFiled :
      (r : SearchResult) (a : ReleaseAttrs)
      → P r
      → disc_attrs r ≡ some a
      → IsFiled P (group_key r a) a.disc_index r
  disc_attrs-IsFiled r a p h = record {
    sound = p;
    attrs = a;
    parsed = parsed_as.0;
    indexed = refl;
    positive = parsed_as.1;
    keyed = refl;
  }
    where
      parsed_as : (r.attrs ≡ some a) × (a.disc_index ≢ 0)
      parsed_as = ground arith

  place-AllSplit :
      (r : SearchResult) (o : Option ReleaseAttrs) (acc : List SearchResult × Groups)
      → P r
      → disc_attrs r ≡ o
      → AllSplit acc
      → AllSplit (place r o acc)
  place-AllSplit r none (singles, groups) p q v = (All-append P singles (r ∷ []) v.0 (p, tt), v.1)
  place-AllSplit r (some a) (singles, groups) p q v =
      (v.0, add_to_group-AllGroups r a groups (disc_attrs-IsFiled r a p q) v.1)

  pub split_discs-AllSplit :
      (rs : List SearchResult) (acc : List SearchResult × Groups)
      → All P rs
      → AllSplit acc
      → AllSplit (split_discs rs acc)
  unfolding split_discs
  split_discs-AllSplit [] acc h v = v
  split_discs-AllSplit (r ∷ rs) acc h v =
      split_discs-AllSplit rs (place r (disc_attrs r) acc) h.1
        (place-AllSplit r (disc_attrs r) acc h.0 refl v)

min_disc_from-HasKey :
    (least : ℕ) (discs : List (ℕ × SearchResult))
    → (min_disc_from least discs ≡ least) ⊎ HasKey (min_disc_from least discs) discs
unfolding min_disc_from
min_disc_from-HasKey least [] = inl refl
min_disc_from-HasKey least ((i, r) ∷ discs) = elim (Bool-cases (least == 0 || ltb i least)) [
  | inl q ↦ rw q (elim (min_disc_from-HasKey i discs) [
    | inl same ↦ inr (HasKey-head _ i r discs (sym same))
    | inr later ↦ inr (HasKey-cons _ i r discs later)
  ])
  | inr q ↦ rw q (elim (min_disc_from-HasKey least discs) [
    | inl same ↦ inl same
    | inr later ↦ inr (HasKey-cons _ i r discs later)
  ])
]

pub min_disc_index-HasKey :
    (discs : List (ℕ × SearchResult)) → discs ≢ [] → HasKey (min_disc_index discs) discs
unfolding min_disc_index min_disc_from
min_disc_index-HasKey [] h = absurd (h refl)
min_disc_index-HasKey ((i, r) ∷ discs) h = elim (min_disc_from-HasKey i discs) [
  | inl same ↦ HasKey-head _ i r discs (sym same)
  | inr later ↦ HasKey-cons _ i r discs later
]
