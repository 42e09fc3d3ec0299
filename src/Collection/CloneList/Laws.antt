-- ===== src/Collection/CloneList/Laws.antt =====
-- internal/collection/clonelist.go: which group the index gives a term, and which term a dump matches by.
use romarr.Base.{
  ◌≡◌, refl, ap, subst, ◌∙◌, inl, inr, Bool, true, false, Option, none, some, List, [], ◌∷◌,
  if◌then◌else◌, Option-cases,
}
use romarr.Base.Text.{Text, text_eq, text_eq_iff, to_lower}
use romarr.Base.Dict.{lookup, lookup-insert, text_key}
use romarr.Collection.Build.{Hit}
use romarr.Collection.CloneList.{
  CloneTitle, CloneGroup, CloneList, Terms, index_title, index_titles, index_groups, new_overlay,
}

-- What a list says of a term: the first group, and in it the first title, that claims it.
abbrev pub or_else : Option Hit → Option Hit → Option Hit
or_else none o = o
or_else (some hit) o = some hit

abbrev pub hit_in : CloneGroup → CloneTitle → Hit
hit_in g t = record { group = g.name; categories = g.categories; priority = t.priority }

abbrev pub first_title : Text → CloneGroup → List CloneTitle → Option Hit
first_title term g [] = none
first_title term g (t ∷ ts) =
    if text_eq (to_lower t.search_term) term then some (hit_in g t) else first_title term g ts

abbrev pub first_group : Text → List CloneGroup → Option Hit
first_group term [] = none
first_group term (g ∷ gs) = or_else (first_title term g g.titles) (first_group term gs)

or_else-none : (o : Option Hit) → o ≡ or_else o none
or_else-none none = refl
or_else-none (some h) = refl

or_else_assoc : (a b c : Option Hit) → or_else (or_else a b) c ≡ or_else a (or_else b c)
or_else_assoc none b c = refl
or_else_assoc (some h) b c = refl

index_title-lookup :
    (term : Text) (g : CloneGroup) (t : CloneTitle) (terms : Terms)
    → lookup term (index_title g t terms)
      ≡ or_else
          (lookup term terms)
          (if text_eq (to_lower t.search_term) term then some (hit_in g t) else none)
index_title-lookup term g t terms = elim (Option-cases (lookup (to_lower t.search_term) terms)) [
  | inl e ↦ rw e (
      lookup-insert (to_lower t.search_term) term (hit_in g t) terms
      ∙ added (text_eq (to_lower t.search_term) term) refl e)
  | inr (hit, e) ↦ rw e (kept (text_eq (to_lower t.search_term) term) refl e)
]
  where
    added :
        (same : Bool)
        → text_eq (to_lower t.search_term) term ≡ same
        → lookup (to_lower t.search_term) terms ≡ none
        → (if same then some (hit_in g t) else lookup term terms)
          ≡ or_else (lookup term terms) (if same then some (hit_in g t) else none)
    added true q e =
        let here = subst (λ k. lookup k terms ≡ none) ((text_eq_iff _ term).0 q) e in rw here refl
    added false q e = or_else-none (lookup term terms)

    kept :
        (same : Bool) {hit : Hit}
        → text_eq (to_lower t.search_term) term ≡ same
        → lookup (to_lower t.search_term) terms ≡ some hit
        → lookup term terms ≡ or_else (lookup term terms) (if same then some (hit_in g t) else none)
    kept true {hit} q e =
        let here = subst (λ k. lookup k terms ≡ some hit) ((text_eq_iff _ term).0 q) e in
        rw here refl
    kept false {hit} q e = or_else-none (lookup term terms)

index_titles-lookup :
    (term : Text) (g : CloneGroup) (ts : List CloneTitle) (terms : Terms)
    → lookup term (index_titles g ts terms) ≡ or_else (lookup term terms) (first_title term g ts)
unfolding index_titles
index_titles-lookup term g [] terms = or_else-none (lookup term terms)
index_titles-lookup term g (t ∷ ts) terms =
    index_titles-lookup term g ts (index_title g t terms)
    ∙ ap (λ o. or_else o (first_title term g ts)) (index_title-lookup term g t terms)
    ∙ or_else_assoc (lookup term terms) _ _
    ∙ ap (or_else (lookup term terms)) (step (text_eq (to_lower t.search_term) term))
  where
    step :
        (same : Bool)
        → or_else (if same then some (hit_in g t) else none) (first_title term g ts)
          ≡ (if same then some (hit_in g t) else first_title term g ts)
    step true = refl
    step false = refl

index_groups-lookup :
    (term : Text) (gs : List CloneGroup) (terms : Terms)
    → lookup term (index_groups gs terms) ≡ or_else (lookup term terms) (first_group term gs)
unfolding index_groups
index_groups-lookup term [] terms = or_else-none (lookup term terms)
index_groups-lookup term (g ∷ gs) terms =
    index_groups-lookup term gs (index_titles g g.titles terms)
    ∙ ap (λ o. or_else o (first_group term gs)) (index_titles-lookup term g g.titles terms)
    ∙ or_else_assoc (lookup term terms) _ _

-- The index of a clone list answers a term with the first group of the list, and in it the first
-- title, whose search term is that term in lower case; and with nothing where there is none.
pub new_overlay-first :
    (list : CloneList) (term : Text) → lookup term (new_overlay list) ≡ first_group term list.groups
unfolding new_overlay lookup
new_overlay-first list term = index_groups-lookup term list.groups []
