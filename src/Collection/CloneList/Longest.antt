-- ===== src/Collection/CloneList/Longest.antt =====
-- internal/collection/clonelist.go: the most specific term that a dump offers wins.
use romarr.Base.{
  ℕ, ◌≤◌, ◌≡◌, refl, sym, ap, subst, ◌∙◌, ◌⊎◌, inl, inr, Bool, true, false, ◌||◌, Option, none,
  some, List, [], ◌∷◌, if◌then◌else◌, any, All, All-append, All-of_Member, Member, Bool-cases,
  Option-cases, is_none, ltb, arith,
}
use romarr.Base.Text.{Text, is_empty, to_lower, trim_space, equal_fold}
use romarr.Base.Dict.{lookup, text_key}
use romarr.Base.Sort.{stable_sort-All}
use romarr.Selection.Name.{text_length, bare_title}
use romarr.Selection.Name.Tokens.{parse}
use romarr.Collection.Build.{Hit}
use romarr.Collection.CloneList.{
  Terms, parens_from, add_key, add_tokens, longer, keys_from, candidate_keys, better_hit,
  match_keys, overlay_match,
}

abbrev IsKey : Text → Type 0
IsKey k = is_empty k ≡ false

add_key-IsKey : (k : Text) (keys : List Text) → All IsKey keys → All IsKey (add_key k keys)
add_key-IsKey k keys h =
    elim (Bool-cases
      (is_empty (trim_space k) || any (λ have. equal_fold have (trim_space k)) keys)) [
        | inl e ↦ rw e h
        | inr e ↦ rw e (All-append IsKey keys (trim_space k ∷ []) h (filled (trim_space k) e, tt))
      ]
  where
    filled :
        (t : Text)
        → (is_empty t || any (λ have. equal_fold have t) keys) ≡ false
        → is_empty t ≡ false
    filled t e = ground arith

add_tokens-IsKey :
    (bare : Text) (ts keys : List Text) → All IsKey keys → All IsKey (add_tokens bare ts keys)
unfolding add_tokens
add_tokens-IsKey bare [] keys h = h
add_tokens-IsKey bare (t ∷ ts) keys h = elim (Bool-cases (is_empty (trim_space t))) [
  | inl e ↦ rw e (add_tokens-IsKey bare ts keys h)
  | inr e ↦ rw e (add_tokens-IsKey bare ts _ (add_key-IsKey _ keys h))
]

keys_from-IsKey : (name clean bare : Text) → All IsKey (keys_from name clean bare)
keys_from-IsKey name clean bare = stable_sort-All longer IsKey _ (each (is_empty bare))
  where
    start : All IsKey (add_key bare (add_key clean (add_key (trim_space name) [])))
    start = add_key-IsKey bare _ (add_key-IsKey clean _ (add_key-IsKey (trim_space name) [] tt))

    each :
        (blank : Bool)
        → All IsKey (
            if blank
            then add_key bare (add_key clean (add_key (trim_space name) []))
            else add_tokens bare
                (parens_from 0 clean)
                (add_key bare (add_key clean (add_key (trim_space name) []))))
    each true = start
    each false = add_tokens-IsKey bare (parens_from 0 clean) _ start

candidate_keys-IsKey : (name : Text) → All IsKey (candidate_keys name)
unfolding candidate_keys
candidate_keys-IsKey name =
    keys_from-IsKey name (trim_space (parse name).clean_title) (trim_space (bare_title name))

-- What the loop holds after some keys: no term of them is longer than its best, which is one of them.
abbrev Beaten : Terms → ℕ → Text → Type 0
Beaten terms n k = (lookup (to_lower k) terms ≡ none) ⊎ (text_length k ≤ n)

abbrev pub Holds : Terms → List Text → Option Hit × ℕ → Type 0
Holds terms keys (best, n) =
    ((best ≡ none) × (n ≡ 0))
    ⊎ ((k : Text) × Member k keys
        × (lookup (to_lower k) terms ≡ best)
        × (text_length k ≡ n)
        × (is_none best ≡ false))

pass :
    (terms : Terms) (k : Text) (ks : List Text) (best : Option Hit) (n : ℕ)
    → lookup (to_lower k) terms ≡ none
    → match_keys terms (k ∷ ks) (best, n) ≡ match_keys terms ks (best, n)
unfolding match_keys
pass terms k ks best n e = ap (λ o. match_keys terms ks (better_hit terms k (best, n) o)) e

take_it :
    (terms : Terms) (k : Text) (ks : List Text) (best : Option Hit) (n : ℕ) {hit : Hit}
    → lookup (to_lower k) terms ≡ some hit
    → ltb n (text_length k) ≡ true
    → match_keys terms (k ∷ ks) (best, n) ≡ match_keys terms ks (some hit, text_length k)
unfolding match_keys
take_it terms k ks best n {hit} e l =
    ap (λ o. match_keys terms ks (better_hit terms k (best, n) o)) e
    ∙ ap (match_keys terms ks) (longest l)
  where
    longest :
        ltb n (text_length k) ≡ true
        → better_hit terms k (best, n) (some hit) ≡ (some hit, text_length k)
    longest l = rw l refl

leave_it :
    (terms : Terms) (k : Text) (ks : List Text) (best : Option Hit) (n : ℕ) {hit : Hit}
    → lookup (to_lower k) terms ≡ some hit
    → ltb n (text_length k) ≡ false
    → match_keys terms (k ∷ ks) (best, n) ≡ match_keys terms ks (best, n)
unfolding match_keys
leave_it terms k ks best n {hit} e l =
    ap (λ o. match_keys terms ks (better_hit terms k (best, n) o)) e
    ∙ ap (match_keys terms ks) (shorter l)
  where
    shorter : ltb n (text_length k) ≡ false → better_hit terms k (best, n) (some hit) ≡ (best, n)
    shorter l = rw l refl

-- The outcome of the loop over some keys of all.
record IsBest (terms : Terms) (ks all : List Text) (n : ℕ) (r : Option Hit × ℕ) : Type 0 where
  pub grows : n ≤ r.1
  pub beaten : All (Beaten terms r.1) ks
  pub holds : Holds terms all r

match_keys-IsBest :
    (terms : Terms) (ks all : List Text) (best : Option Hit) (n : ℕ)
    → ((k : Text) → Member k ks → Member k all)
    → Holds terms all (best, n)
    → IsBest terms ks all n (match_keys terms ks (best, n))
unfolding match_keys
match_keys-IsBest terms [] all best n sub h = record { grows = omega arith; beaten = tt; holds = h }
match_keys-IsBest terms (k ∷ ks) all best n sub h =
    elim (Option-cases (lookup (to_lower k) terms)) [
      | inl e ↦
          let r = match_keys-IsBest terms ks all best n (λ j m. sub j (inr m)) h in
          subst (IsBest terms (k ∷ ks) all n) (sym (pass terms k ks best n e))
            (record { grows = r.grows; beaten = (inl e, r.beaten); holds = r.holds })
      | inr (hit, e) ↦ elim (Bool-cases (ltb n (text_length k))) [
        | inl l ↦
            let r =
              match_keys-IsBest terms ks all (some hit) (text_length k) (λ j m. sub j (inr m))
                (inr (k, sub k (inl refl), e, refl, refl)) in
            subst (IsBest terms (k ∷ ks) all n) (sym (take_it terms k ks best n e l)) (record {
              grows = up n (text_length k) _ l r.grows;
              beaten = (inr r.grows, r.beaten);
              holds = r.holds;
            })
        | inr l ↦
            let r = match_keys-IsBest terms ks all best n (λ j m. sub j (inr m)) h in
            subst (IsBest terms (k ∷ ks) all n) (sym (leave_it terms k ks best n e l)) (record {
              grows = r.grows;
              beaten = (inr (down n (text_length k) _ l r.grows), r.beaten);
              holds = r.holds;
            })
      ]
    ]
  where
    up : (n m r : ℕ) → ltb n m ≡ true → m ≤ r → n ≤ r
    up n m r l h = ground arith

    down : (n m r : ℕ) → ltb n m ≡ false → n ≤ r → m ≤ r
    down n m r l h = ground arith

key_length : (k : Text) → is_empty k ≡ false → text_length k ≤ 0 → ⊥
key_length [] h l = absurd (cc)
key_length (c ∷ k) h l = absurd (omega arith)

unmatched :
    (terms : Terms) (keys : List Text)
    → All IsKey keys
    → All (Beaten terms 0) keys
    → All (λ k. lookup (to_lower k) terms ≡ none) keys
unmatched terms [] f b = tt
unmatched terms (k ∷ keys) (f, fs) (inl e, bs) = (e, unmatched terms keys fs bs)
unmatched terms (k ∷ keys) (f, fs) (inr l, bs) = absurd (key_length k f l)

-- No term is among the keys; or the hit is that of a key, and no key with a term is longer.
abbrev pub IsLongest : Terms → List Text → Option Hit → Type 0
IsLongest terms keys found =
    ((found ≡ none) × All (λ k. lookup (to_lower k) terms ≡ none) keys)
    ⊎ ((k : Text) × (hit : Hit) × Member k keys
        × (found ≡ some hit)
        × (lookup (to_lower k) terms ≡ some hit)
        × All (λ j. (lookup (to_lower j) terms ≡ none) ⊎ (text_length j ≤ text_length k)) keys)

IsBest-IsLongest :
    (terms : Terms) (keys : List Text) (r : Option Hit × ℕ)
    → All IsKey keys
    → IsBest terms keys keys 0 r
    → IsLongest terms keys r.0
IsBest-IsLongest terms keys (best, n) filled b = judged b.holds
  where
    true_false : true ≡ false → ⊥
    true_false q = cc

    judged : Holds terms keys (best, n) → IsLongest terms keys best
    judged (inl (e, z)) =
        inl (e, unmatched terms keys filled (subst (λ m. All (Beaten terms m) keys) z b.beaten))
    judged (inr (k, at, e, l, some_hit)) = elim (Option-cases best) [
      | inl none_found ↦ absurd (true_false (rw none_found at some_hit))
      | inr (hit, q) ↦
          inr (k, hit, at, q, e ∙ q, subst (λ m. All (Beaten terms m) keys) (sym l) b.beaten)
    ]

-- Of the names that a dump offers, the match takes the longest that the list has as a term; there
-- is no match exactly if it has none of them.
pub overlay_match-IsLongest :
    (terms : Terms) (name : Text) → IsLongest terms (candidate_keys name) (overlay_match terms name)
unfolding overlay_match lookup
overlay_match-IsLongest [] name = inl (refl, All-of_Member _ (candidate_keys name) (λ k m. refl))
overlay_match-IsLongest (t ∷ terms) name =
    IsBest-IsLongest (t ∷ terms) (candidate_keys name) _ (candidate_keys-IsKey name) (
      match_keys-IsBest (t ∷ terms) (candidate_keys name) (candidate_keys name) none 0 (λ k m. m)
        (inl (refl, refl)))
