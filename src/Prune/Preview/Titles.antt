-- ===== src/Prune/Preview/Titles.antt =====
-- What the index of a set's titles answers, back to the groups of the set.
use romarr.Base.{
  ◌≡◌, refl, sym, ap, subst, ◌∙◌, inl, inr, Bool, true, false, Option, none, some, List, [], ◌∷◌,
  is_none, All, Any, Member, Bool-cases, Option-cases, if◌then◌else◌, All-of_Member, Any-of_Member,
  Member-of_Any,
}
use romarr.Base.Text.{Text, text_eq, text_eq_iff}
use romarr.Base.Dict.{lookup, insert, insert-All, lookup-All, lookup-insert, text_key, HasKey}
use romarr.Collection.Model.{Candidate, keeper_of}
use romarr.Collection.Reconcile.{Entry, Status}
use romarr.Prune.Preview.{
  SetTitle, SetTitles, is_owned, yields, index_keys, lookup_keys, index_entry, index_set_titles,
}

put : Text → SetTitle → SetTitles → SetTitles
put key hit out = if yields (lookup key out) hit then insert key hit out else out

module _ (P : Text → SetTitle → Type 0) where
  put-All :
      (key : Text) (hit : SetTitle) (out : SetTitles)
      → P key hit
      → All (λ p. P p.0 p.1) out
      → All (λ p. P p.0 p.1) (put key hit out)
  unfolding put
  put-All key hit out h all = elim (Bool-cases (yields (lookup key out) hit)) [
    | inl e ↦ rw e (insert-All P key hit out h all)
    | inr e ↦ rw e all
  ]

  index_keys-All :
      (keys : List Text) (hit : SetTitle) (out : SetTitles)
      → ((key : Text) → Member key keys → P key hit)
      → All (λ p. P p.0 p.1) out
      → All (λ p. P p.0 p.1) (index_keys keys hit out)
  unfolding index_keys put
  index_keys-All [] hit out f all = all
  index_keys-All (key ∷ keys) hit out f all =
      index_keys-All keys hit (put key hit out) (λ k m. f k (inr m))
        (put-All key hit out (f key (inl refl)) all)

put-HasKey_other :
    (k key : Text) (hit : SetTitle) (out : SetTitles) → HasKey k out → HasKey k (put key hit out)
unfolding put
put-HasKey_other k key hit out h = elim (Bool-cases (yields (lookup key out) hit)) [
  | inr e ↦ rw e h
  | inl e ↦ rw e (rw (lookup-insert key k hit out) (either (text_eq key k) (lookup k out) h))
]
  where
    either :
        (same : Bool) (o : Option SetTitle)
        → is_none o ≡ false
        → is_none (if same then some hit else o) ≡ false
    either true o h = refl
    either false o h = h

put-HasKey : (key : Text) (hit : SetTitle) (out : SetTitles) → HasKey key (put key hit out)
unfolding put
put-HasKey key hit out = elim (Option-cases (lookup key out)) [
  | inl e ↦ rw e (rw (lookup-insert key key hit out, (text_eq_iff key key).1 refl) refl)
  | inr (prev, e) ↦ put-HasKey_other key key hit out (rw e refl)
]

index_keys-HasKey_other :
    (k : Text) (keys : List Text) (hit : SetTitle) (out : SetTitles)
    → HasKey k out
    → HasKey k (index_keys keys hit out)
unfolding index_keys put
index_keys-HasKey_other k [] hit out h = h
index_keys-HasKey_other k (key ∷ keys) hit out h =
    index_keys-HasKey_other k keys hit (put key hit out) (put-HasKey_other k key hit out h)

index_keys-HasKey :
    (k : Text) (keys : List Text) (hit : SetTitle) (out : SetTitles)
    → Member k keys
    → HasKey k (index_keys keys hit out)
unfolding index_keys put
index_keys-HasKey k [] hit out m = absurd m
index_keys-HasKey k (key ∷ keys) hit out (inl e) =
    index_keys-HasKey_other k keys hit (put key hit out)
      (subst (λ j. HasKey j (put key hit out)) (sym e) (put-HasKey key hit out))
index_keys-HasKey k (key ∷ keys) hit out (inr m) = index_keys-HasKey k keys hit (put key hit out) m

found_key :
    (keys : List Text) (known : SetTitles) {hit : SetTitle}
    → lookup_keys keys known ≡ some hit
    → (key : Text) × Member key keys × (lookup key known ≡ some hit)
unfolding lookup_keys
found_key [] known h = absurd (cc)
found_key (key ∷ keys) known h = elim (Option-cases (lookup key known)) [
  | inl e ↦ let (k, m, q) = found_key keys known (rw (e, lookup_keys) at h) in (k, inr m, q)
  | inr (hit, e) ↦ (key, inl refl, e ∙ (rw (e, lookup_keys) at h))
]

no_key :
    (keys : List Text) (known : SetTitles) (k : Text)
    → lookup_keys keys known ≡ none
    → Member k keys
    → HasKey k known
    → ⊥
unfolding lookup_keys
no_key [] known k h m has = m
no_key (key ∷ keys) known k h m has = elim (Option-cases (lookup key known)) [
  | inr (hit, e) ↦ some_none (rw (e, lookup_keys) at h)
  | inl e ↦ elim m [
    | inl q ↦ true_false (sym (ap is_none (ap (λ j. lookup j known) q ∙ e)) ∙ has)
    | inr m' ↦ no_key keys known k (rw (e, lookup_keys) at h) m' has
  ]
]
  where
    some_none : {hit : SetTitle} → some hit ≡ none → ⊥
    some_none q = cc

    true_false : true ≡ false → ⊥
    true_false q = cc

module _ (ownership_keys : Text → List Text) (hack_marker : Text → Text) where
  -- A group with a keeper whose title shares a key with a name.
  abbrev pub Titled : Text → Entry → Type 0
  Titled name e =
      (is_none (keeper_of e.group) ≡ false)
      × ((key : Text) × Member key (ownership_keys e.group.title)
          × Member key (ownership_keys name))

  abbrev Claims : Text → SetTitle → Entry → Type 0
  Claims key hit e =
      (is_none (keeper_of e.group) ≡ false)
      × Member key (ownership_keys e.group.title)
      × (hit.owned ≡ is_owned e.status)

  index_entry-All :
      (all : List Entry) (e : Entry) (out : SetTitles) (k : Option Candidate)
      → keeper_of e.group ≡ k
      → Member e all
      → All (λ p. Any (Claims p.0 p.1) all) out
      → All (λ p. Any (Claims p.0 p.1) all) (index_entry ownership_keys hack_marker e k out)
  index_entry-All all e out none q m h = h
  index_entry-All all e out (some keeper) q m h =
      index_keys-All (λ key hit. Any (Claims key hit) all) (ownership_keys e.group.title) _ out
        (λ key at_key. Any-of_Member _ all m (ap is_none q, at_key, refl)) h

  index_set_titles-All :
      (all entries : List Entry) (out : SetTitles)
      → ((e : Entry) → Member e entries → Member e all)
      → All (λ p. Any (Claims p.0 p.1) all) out
      → All
          (λ p. Any (Claims p.0 p.1) all)
          (index_set_titles ownership_keys hack_marker entries out)
  unfolding index_set_titles
  index_set_titles-All all [] out f h = h
  index_set_titles-All all (e ∷ entries) out f h =
      index_set_titles-All all entries _ (λ d m. f d (inr m))
        (index_entry-All all e out (keeper_of e.group) refl (f e (inl refl)) h)

  index_set_titles-HasKey_other :
      (k : Text) (entries : List Entry) (out : SetTitles)
      → HasKey k out
      → HasKey k (index_set_titles ownership_keys hack_marker entries out)
  unfolding index_set_titles
  index_set_titles-HasKey_other k [] out h = h
  index_set_titles-HasKey_other k (e ∷ entries) out h =
      index_set_titles-HasKey_other k entries _ (one (keeper_of e.group))
    where
      one : (o : Option Candidate) → HasKey k (index_entry ownership_keys hack_marker e o out)
      one none = h
      one (some keeper) = index_keys-HasKey_other k (ownership_keys e.group.title) _ out h

  index_set_titles-HasKey :
      (k : Text) (e : Entry) (entries : List Entry) (out : SetTitles)
      → Member e entries
      → is_none (keeper_of e.group) ≡ false
      → Member k (ownership_keys e.group.title)
      → HasKey k (index_set_titles ownership_keys hack_marker entries out)
  unfolding index_set_titles
  index_set_titles-HasKey k e [] out m has at_key = absurd m
  index_set_titles-HasKey k e (d ∷ entries) out (inl q) has at_key =
      index_set_titles-HasKey_other k entries _
        (one (keeper_of d.group) (subst (λ g. is_none (keeper_of g.group) ≡ false) q has))
    where
      one :
          (o : Option Candidate)
          → is_none o ≡ false
          → HasKey k (index_entry ownership_keys hack_marker d o out)
      one none h = absurd (cc)
      one (some keeper) h =
          index_keys-HasKey k (ownership_keys d.group.title) _ out
            (subst (λ g. Member k (ownership_keys g.group.title)) q at_key)
  index_set_titles-HasKey k e (d ∷ entries) out (inr m) has at_key =
      index_set_titles-HasKey k e entries _ m has at_key

  owned_status : (status : Status) → is_owned status ≡ true → status ≡ Status.owned
  owned_status Status.owned h = refl
  owned_status Status.covered h = absurd (cc)
  owned_status Status.gap h = absurd (cc)
  owned_status Status.out h = absurd (cc)

  -- An owned answer is that of an owned group which shares a key with the name.
  pub owned_title :
      (entries : List Entry) (name : Text) {hit : SetTitle}
      → lookup_keys (ownership_keys name) (index_set_titles ownership_keys hack_marker entries [])
        ≡ some hit
      → hit.owned ≡ true
      → Any (λ e. (e.status ≡ Status.owned) × Titled name e) entries
  owned_title entries name {hit} h owned =
      let (key, m, q) = found_key (ownership_keys name) _ h in
      let claimed =
        lookup-All (λ key hit. Any (Claims key hit) entries) key _
          (index_set_titles-All entries entries [] (λ e n. n) tt) q in
      let (e, at_entry, claims) = Member-of_Any _ entries claimed in
      let (has, at_key, same) = claims in
      Any-of_Member _ entries at_entry
        (owned_status e.status (sym same ∙ owned), (has, (key, at_key, m)))

  -- Without an answer no group with a keeper shares a key with the name.
  pub no_title :
      (entries : List Entry) (name : Text)
      → lookup_keys (ownership_keys name) (index_set_titles ownership_keys hack_marker entries [])
        ≡ none
      → All (λ e. Titled name e → ⊥) entries
  no_title entries name h = All-of_Member _ entries (λ e m titled.
      let (has, rest) = titled in
      let (key, at_key, mine) = rest in
      no_key (ownership_keys name) _ key h mine
        (index_set_titles-HasKey key e entries [] m has at_key))
