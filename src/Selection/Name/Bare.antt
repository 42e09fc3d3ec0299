-- ===== src/Selection/Name/Bare.antt =====
-- internal/selection/relname.go: the scan for tokens loses nothing, and `BareTitle` leaves none.
use romarr.Base.{
  ℕ, zero, suc, ◌≡◌, refl, sym, ap, subst, ◌∙◌, inl, inr, Bool, true, false, not, ◌&&◌, none, some,
  List, [], ◌∷◌, ◌++◌, any, all, ◌==◌, ==_iff, keep, reverse, Bool-cases, Option-cases, some_inj,
  arith,
}
use mathlib.Core.List.{append-nil, append_assoc, reverse-append}
use romarr.Base.Text.{Text, is_empty, is_space, split_at, split_from}
use romarr.Selection.Name.{
  Piece, plain, token, up_to, token_at, text_length, pieces_from, pieces, remove_spans, fields,
  join_spaces, collapse_spaces, drop, bare_title, stem,
}

up_to-splits :
    (close : ℕ) (s : Text) {t : Text}
    → up_to close s ≡ some t
    → s ≡ t ++ close ∷ drop (suc (text_length t)) s
unfolding up_to
up_to-splits close [] h = absurd (cc)
up_to-splits close (c ∷ s) h = elim (Bool-cases (c == close)) [
  | inl e ↦
      subst (λ t. c ∷ s ≡ t ++ close ∷ drop (suc (text_length t)) (c ∷ s)) (some_inj (rw e at h))
        (ap (λ d. d ∷ s) ((==_iff c close).0 e))
  | inr e ↦ elim (Option-cases (up_to close s)) [
    | inl q ↦ absurd (none_some (rw (e, q) at h))
    | inr (u, q) ↦
        subst (λ t. c ∷ s ≡ t ++ close ∷ drop (suc (text_length t)) (c ∷ s))
          (some_inj (rw (e, q) at h)) (ap (λ r. c ∷ r) (up_to-splits close s q))
  ]
]
  where
    none_some : {t : Text} → none ≡ some t → ⊥
    none_some q = cc

abbrev pub lacks : ℕ → Text → Bool
lacks d s = all (λ c. not (c == d)) s

up_to-lacks : (close : ℕ) (s : Text) → up_to close s ≡ none → lacks close s ≡ true
unfolding up_to
up_to-lacks close [] h = refl
up_to-lacks close (c ∷ s) h = ground (arith, up_to-lacks close s)

lacks-up_to : (close : ℕ) (s : Text) → lacks close s ≡ true → up_to close s ≡ none
unfolding up_to
lacks-up_to close [] h = refl
lacks-up_to close (c ∷ s) h = ground (arith, lacks-up_to close s)

-- No bracket is closed.
abbrev IsFlat : Text → Type 0
IsFlat [] = Unit
IsFlat (c ∷ s) =
    ((c == b'(') ≡ true → lacks b')' s ≡ true)
    × ((c == b'[') ≡ true → lacks b']' s ≡ true)
    × IsFlat s

token_at-none :
    (c : ℕ) (s : Text)
    → token_at c s ≡ none
    → ((c == b'(') ≡ true → lacks b')' s ≡ true) × ((c == b'[') ≡ true → lacks b']' s ≡ true)
token_at-none c s h =
    (λ e. up_to-lacks b')' s (ground arith), λ e. up_to-lacks b']' s (ground arith))

IsFlat-token_at : (c : ℕ) (s : Text) → IsFlat (c ∷ s) → token_at c s ≡ none
IsFlat-token_at c s h = ground (arith, h.0, h.1, lacks-up_to b')' s, lacks-up_to b']' s)

pub pieces_from-plain :
    (c : ℕ) (s : Text)
    → token_at c s ≡ none
    → pieces_from zero (c ∷ s) ≡ plain c ∷ pieces_from zero s
unfolding pieces_from
pieces_from-plain c s e = rw (pieces_from, e) refl

pub pieces_from-token :
    (c : ℕ) (s : Text) (paren : Bool) (t : Text)
    → token_at c s ≡ some (paren, t)
    → pieces_from zero (c ∷ s) ≡ token paren t ∷ pieces_from (suc (text_length t)) s
unfolding pieces_from
pieces_from-token c s paren t e = rw (pieces_from, e) refl

abbrev pub is_token : Piece → Bool
is_token (plain c) = false
is_token (token paren t) = true

IsFlat-pieces : (s : Text) → IsFlat s → any is_token (pieces_from zero s) ≡ false
unfolding pieces_from
IsFlat-pieces [] h = refl
IsFlat-pieces (c ∷ s) h = rw (pieces_from-plain c s (IsFlat-token_at c s h)) (IsFlat-pieces s h.2)

abbrev bare : List Piece → Text
bare = remove_spans (λ paren t. true)

lacks-bare : (d skip : ℕ) (s : Text) → lacks d s ≡ true → lacks d (bare (pieces_from skip s)) ≡ true
unfolding pieces_from remove_spans
lacks-bare d skip [] h = refl
lacks-bare d (suc skip) (c ∷ s) h = lacks-bare d skip s (ground arith)
lacks-bare d zero (c ∷ s) h = elim (Option-cases (token_at c s)) [
  | inl e ↦ rw (pieces_from-plain c s e) (ground (arith, lacks-bare d zero s))
  | inr ((paren, t), e) ↦
      rw (pieces_from-token c s paren t e) (lacks-bare d (suc (text_length t)) s (ground arith))
]

bare-IsFlat : (skip : ℕ) (s : Text) → IsFlat (bare (pieces_from skip s))
unfolding pieces_from remove_spans
bare-IsFlat skip [] = tt
bare-IsFlat (suc skip) (c ∷ s) = bare-IsFlat skip s
bare-IsFlat zero (c ∷ s) = elim (Option-cases (token_at c s)) [
  | inl e ↦
      let (round, square) = token_at-none c s e in
      rw (pieces_from-plain c s e) (
        λ q. lacks-bare b')' zero s (round q),
        λ q. lacks-bare b']' zero s (square q),
        bare-IsFlat zero s,
      )
  | inr ((paren, t), e) ↦ rw (pieces_from-token c s paren t e) (bare-IsFlat (suc (text_length t)) s)
]

-- Collapsing spaces keeps the other characters, in their order.
abbrev ink : Text → Text
ink = keep (λ c. not (is_space c))

ink-append : (s t : Text) → ink (s ++ t) ≡ ink s ++ ink t
unfolding keep
ink-append [] t = refl
ink-append (c ∷ s) t = elim (Bool-cases (is_space c)) [
  | inl e ↦ rw e (ink-append s t)
  | inr e ↦ rw e (ap (λ r. c ∷ r) (ink-append s t))
]

ink_all : List Text → Text
ink_all [] = []
ink_all (w ∷ ws) = ink w ++ ink_all ws

join-ink : (ws : List Text) → ink (join_spaces ws) ≡ ink_all ws
unfolding keep ink_all
join-ink [] = refl
join-ink (w ∷ []) = sym (append-nil (ink w))
join-ink (w ∷ v ∷ ws) =
    ink-append w (b' ' ∷ join_spaces (v ∷ ws)) ∙ ap (λ t. ink w ++ t) (join-ink (v ∷ ws))

keep-ink : (ws : List Text) → ink_all (keep (λ w. not (is_empty w)) ws) ≡ ink_all ws
unfolding keep ink_all
keep-ink [] = refl
keep-ink ([] ∷ ws) = keep-ink ws
keep-ink ((c ∷ w) ∷ ws) = ap (λ t. ink (c ∷ w) ++ t) (keep-ink ws)

turn :
    (c : ℕ) (piece s : Text)
    → is_space c ≡ false
    → ink (reverse (c ∷ piece)) ++ ink s ≡ ink (reverse piece) ++ (c ∷ ink s)
unfolding keep
turn c piece s e =
    ap (λ t. ink t ++ ink s) (reverse-append (c ∷ []) piece)
    ∙ ap (λ t. t ++ ink s) (ink-append (reverse piece) (c ∷ []))
    ∙ append_assoc (ink (reverse piece)) (ink (c ∷ [])) (ink s)
    ∙ ap (λ t. ink (reverse piece) ++ (t ++ ink s)) (one c e)
  where
    one : (c : ℕ) → is_space c ≡ false → ink (c ∷ []) ≡ c ∷ []
    one c e = ground arith

split-ink : (piece s : Text) → ink_all (split_from is_space piece s) ≡ ink (reverse piece) ++ ink s
unfolding split_from ink_all keep
split-ink piece [] = refl
split-ink piece (c ∷ s) = elim (Bool-cases (is_space c)) [
  | inl e ↦ rw e (ap (λ t. ink (reverse piece) ++ t) (split-ink [] s))
  | inr e ↦ rw e (split-ink (c ∷ piece) s ∙ turn c piece s e)
]

lacks-ink : (d : ℕ) (s : Text) → is_space d ≡ false → lacks d (ink s) ≡ lacks d s
unfolding keep
lacks-ink d [] h = refl
lacks-ink d (c ∷ s) h = elim (Bool-cases (is_space c)) [
  | inl e ↦ rw (e, differ e) (lacks-ink d s h)
  | inr e ↦ rw e (ap (λ b. not (c == d) && b) (lacks-ink d s h))
]
  where
    differ : is_space c ≡ true → (c == d) ≡ false
    differ e = ground arith

IsFlat-ink : (s : Text) → IsFlat s → IsFlat (ink s)
unfolding keep
IsFlat-ink [] h = tt
IsFlat-ink (c ∷ s) h = elim (Bool-cases (is_space c)) [
  | inl e ↦ rw e (IsFlat-ink s h.2)
  | inr e ↦
      rw e
        (λ q. lacks-ink b')' s refl ∙ h.0 q, λ q. lacks-ink b']' s refl ∙ h.1 q, IsFlat-ink s h.2)
]

ink-IsFlat : (s : Text) → IsFlat (ink s) → IsFlat s
unfolding keep
ink-IsFlat [] h = tt
ink-IsFlat (c ∷ s) h = elim (Bool-cases (is_space c)) [
  | inl e ↦ (λ q. ground arith, λ q. ground arith, ink-IsFlat s (rw e at h))
  | inr e ↦
      let h' = rw e at h in
      (
        λ q. sym (lacks-ink b')' s refl) ∙ h'.0 q,
        λ q. sym (lacks-ink b']' s refl) ∙ h'.1 q,
        ink-IsFlat s h'.2,
      )
]

collapse-ink : (s : Text) → ink (collapse_spaces s) ≡ ink s
unfolding collapse_spaces fields split_at keep
collapse-ink s = join-ink (fields s) ∙ keep-ink (split_from is_space [] s) ∙ split-ink [] s

collapse-IsFlat : (s : Text) → IsFlat s → IsFlat (collapse_spaces s)
collapse-IsFlat s h =
    ink-IsFlat (collapse_spaces s) (subst IsFlat (sym (collapse-ink s)) (IsFlat-ink s h))

-- A bare title has no `(...)` or `[...]` token left, whatever the title was.
pub bare_title-plain : (title : Text) → any is_token (pieces (bare_title title)) ≡ false
unfolding bare_title pieces
bare_title-plain title = IsFlat-pieces _ (collapse-IsFlat _ (bare-IsFlat zero (stem title)))
