-- ===== src/Selection/Name/Discs.antt =====
-- internal/selection/relname.go: the names of the discs of one game.
use romarr.Base.{
  ℕ, zero, ◌≤◌, ◌≡◌, refl, sym, ap, subst, ◌∙◌, inl, inr, Bool, true, false, not, ◌&&◌, none, some,
  [], ◌∷◌, ◌++◌, all, ◌==◌, map, reverse, Bool-cases, is_none, keep, arith,
}
use mathlib.Core.List.{append_assoc, reverse-append, reverse-reverse}
use romarr.Base.Text.{
  Text, codes, is_empty, to_lower, trim_space, is_space, has_prefix, split_from, split_commas,
  split_at, decimal,
}
use romarr.Selection.Name.{
  plain, token, token_at, pieces_from, pieces, remove_spans, collapse_spaces, join_spaces, fields,
  trailing_extension, stem,
}
use romarr.Selection.Name.Bare.{lacks, pieces_from-plain, pieces_from-token}
use romarr.Selection.Name.Tokens.{
  is_region_token, is_language, revision_text, disc_text, leading_digits, disc_groups, is_digit,
  atoi, max_int, Kind, kind_of, note, note_all, is_disc_kind, no_attrs, parse, strip_disc_token,
}
use romarr.Selection.Name.Digits.{
  decimal-ends, decimal-number_from, last_digit, split-alone, trim-kept,
}
use romarr.Selection.Name.Scan.{
  all-append, all-imp, decimal-all, note_all-plain, pieces-plain, pieces-skip_closed,
  remove_spans-plain, up_to-append,
}

-- What the token of a disc encloses.
abbrev pub disc_inside : ℕ → Text
disc_inside n = codes "Disc " ++ decimal n

abbrev pub disc_name : Text → ℕ → Text
disc_name base n = base ++ (b' ' ∷ b'(' ∷ disc_inside n ++ b')' ∷ [])

inside-trimmed : (n : ℕ) → trim_space (disc_inside n) ≡ disc_inside n
inside-trimmed n =
    let (front, e) = decimal-ends n in
    trim-kept b'D' (last_digit n) (codes "isc " ++ decimal n) (codes "Disc " ++ front) refl
      (no_space n) (ap (λ t. codes "Disc " ++ t) e)
  where
    no_space : (n : ℕ) → is_space (last_digit n) ≡ false
    no_space n = ground arith

inside-lacks :
    (n c : ℕ) → is_digit c ≡ false → lacks c (codes "Disc ") ≡ true → lacks c (disc_inside n) ≡ true
inside-lacks n c h k =
    all-append (λ d. not (d == c)) (codes "Disc ") (decimal n) k
      (all-imp is_digit (λ d. not (d == c)) (decimal n) (λ d e. other d c h e) (decimal-all n))
  where
    other : (d c : ℕ) → is_digit c ≡ false → is_digit d ≡ true → not (d == c) ≡ true
    other d c h e = ground arith

groups : (s front : Text) (d : ℕ) → s ≡ front ++ d ∷ [] → disc_groups (s, []) ≡ some (s, [])
groups [] [] d e = absurd (cc)
groups [] (c ∷ front) d e = absurd (cc)
groups (c ∷ s) front d e = refl

inside-disc_text : (n : ℕ) → disc_text (disc_inside n) ≡ some (decimal n, [])
unfolding disc_text
inside-disc_text n =
    rw (alone (decimal n) (decimal-all n))
      (let (front, e) = decimal-ends n in groups (decimal n) front (last_digit n) e)
  where
    alone : (s : Text) → all is_digit s ≡ true → leading_digits s ≡ (s, [])
    alone [] h = refl
    alone (c ∷ s) h = ground (arith, alone s)

inside-not_region : (n : ℕ) → is_region_token (disc_inside n) ≡ false
unfolding is_region_token split_commas to_lower
inside-not_region n =
    rw (split-alone [] (disc_inside n) (inside-lacks n b',' refl refl), inside-trimmed n) refl

inside-not_language : (n : ℕ) → is_language (disc_inside n) ≡ false
unfolding is_language
inside-not_language n = refl

inside-no_revision : (n : ℕ) → revision_text (disc_inside n) ≡ none
unfolding revision_text
inside-no_revision n = refl

inside-kind : (n : ℕ) → kind_of true (disc_inside n) ≡ Kind.disc
unfolding kind_of
inside-kind n =
    rw
      (
        inside-trimmed n,
        inside-not_region n,
        inside-not_language n,
        inside-no_revision n,
        inside-disc_text n,
      )
      refl

map-append : (f : ℕ → ℕ) (s t : Text) → map f (s ++ t) ≡ map f s ++ map f t
map-append f [] t = refl
map-append f (c ∷ s) t = ap (λ r. f c ∷ r) (map-append f s t)

reverse-closed :
    (front : Text) → reverse (to_lower (front ++ b')' ∷ [])) ≡ b')' ∷ reverse (to_lower front)
unfolding to_lower
reverse-closed front =
    ap reverse (map-append _ front (b')' ∷ [])) ∙ reverse-append (to_lower front) (b')' ∷ [])

-- The name of a disc has no extension, as it ends in a bracket.
name-no_extension : (front : Text) → trailing_extension (front ++ b')' ∷ []) ≡ []
unfolding trailing_extension has_prefix
name-no_extension front = rw (reverse-closed front) refl

name-stem :
    (front : Text)
    → trim_space (front ++ b')' ∷ []) ≡ front ++ b')' ∷ []
    → stem (front ++ b')' ∷ []) ≡ front ++ b')' ∷ []
unfolding stem
name-stem front h = rw (h, name-no_extension front) (reverse-reverse (front ++ b')' ∷ []))

name-pieces :
    (base : Text) (n : ℕ)
    → lacks b'(' base ≡ true
    → lacks b'[' base ≡ true
    → pieces_from zero (disc_name base n)
      ≡ map plain base ++ (plain b' ' ∷ token true (disc_inside n) ∷ [])
name-pieces base n h k =
    pieces-plain base (b' ' ∷ b'(' ∷ disc_inside n ++ b')' ∷ []) h k
    ∙ ap (λ ps. map plain base ++ ps)
        (pieces_from-plain b' ' _ refl
          ∙ ap (λ ps. plain b' ' ∷ ps)
              (pieces_from-token b'(' (disc_inside n ++ b')' ∷ []) true (disc_inside n) (opens n)
                ∙ ap (λ ps. token true (disc_inside n) ∷ ps)
                    (pieces-skip_closed b')' (disc_inside n))))
  where
    opens : (n : ℕ) → token_at b'(' (disc_inside n ++ b')' ∷ []) ≡ some (true, disc_inside n)
    opens n = rw (up_to-append b')' (disc_inside n) [] (inside-lacks n b')' refl refl)) refl

-- The shared name of the discs.
collapse-space : (s : Text) → collapse_spaces (s ++ b' ' ∷ []) ≡ collapse_spaces s
unfolding collapse_spaces fields split_at split_from keep
collapse-space s = ap join_spaces (words [] s)
  where
    words :
        (piece s : Text)
        → keep (λ w. not (is_empty w)) (split_from is_space piece (s ++ b' ' ∷ []))
          ≡ keep (λ w. not (is_empty w)) (split_from is_space piece s)
    words piece [] = elim (Bool-cases (not (is_empty (reverse piece)))) [
      | inl e ↦ rw e refl
      | inr e ↦ rw e refl
    ]
    words piece (c ∷ s) = elim (Bool-cases (is_space c)) [
      | inl e ↦ rw e (elim (Bool-cases (not (is_empty (reverse piece)))) [
        | inl q ↦ rw q (ap (λ ws. reverse piece ∷ ws) (words [] s))
        | inr q ↦ rw q (words [] s)
      ])
      | inr e ↦ rw e (words (c ∷ piece) s)
    ]

remove-disc :
    (test : Bool → Text → Bool) (base : Text) (n : ℕ)
    → test true (disc_inside n) ≡ true
    → collapse_spaces
        (remove_spans test (map plain base ++ (plain b' ' ∷ token true (disc_inside n) ∷ [])))
      ≡ collapse_spaces base
unfolding remove_spans
remove-disc test base n h =
    ap collapse_spaces (remove_spans-plain test base _ ∙ ap (λ t. base ++ b' ' ∷ t) (gone test n h))
    ∙ collapse-space base
  where
    gone :
        (test : Bool → Text → Bool) (n : ℕ)
        → test true (disc_inside n) ≡ true
        → remove_spans test (token true (disc_inside n) ∷ []) ≡ []
    gone test n h = rw h refl

name-scan :
    (c : ℕ) (s : Text) (n : ℕ)
    → is_space c ≡ false
    → lacks b'(' (c ∷ s) ≡ true
    → lacks b'[' (c ∷ s) ≡ true
    → pieces (stem (disc_name (c ∷ s) n))
      ≡ map plain (c ∷ s) ++ (plain b' ' ∷ token true (disc_inside n) ∷ [])
unfolding pieces
name-scan c s n hc h k =
    let front = (c ∷ s) ++ (b' ' ∷ b'(' ∷ disc_inside n) in
    let e = sym (append_assoc (c ∷ s) (b' ' ∷ b'(' ∷ disc_inside n) (b')' ∷ [])) in
    let trimmed =
      trim-kept c b')' (s ++ (b' ' ∷ b'(' ∷ disc_inside n ++ b')' ∷ [])) front hc refl e in
    subst
      (λ t.
        pieces_from zero t ≡ map plain (c ∷ s) ++ (plain b' ' ∷ token true (disc_inside n) ∷ []))
      (sym (
        subst (λ t. stem t ≡ t) (sym e)
          (name-stem front (subst (λ t. trim_space t ≡ t) e trimmed))))
      (name-pieces (c ∷ s) n h k)

decimal-atoi : (n : ℕ) → n ≤ max_int → atoi (decimal n) ≡ n
unfolding atoi
decimal-atoi n bound = rw (decimal-number_from n) (ground arith)

inside-noted :
    (n : ℕ)
    → n ≤ max_int
    → (note (kind_of true (disc_inside n)) (trim_space (disc_inside n)) no_attrs).disc_index ≡ n
unfolding note
inside-noted n bound =
    rw (inside-kind n, inside-trimmed n, inside-disc_text n) (decimal-atoi n bound)

inside-is_disc_kind : (n : ℕ) → is_disc_kind true (disc_inside n) ≡ true
inside-is_disc_kind n = rw (is_disc_kind, inside-kind n) refl

inside-stripped : (n : ℕ) → not (is_none (disc_text (trim_space (disc_inside n)))) ≡ true
inside-stripped n = rw (inside-trimmed n, inside-disc_text n) refl

-- The discs of a game whose name has no bracket and does not start with a space: each disc of a
-- number in range parses to its number and, without its disc token, to the name of the game.
pub parse-disc_name :
    (c : ℕ) (s : Text) (n : ℕ)
    → is_space c ≡ false
    → lacks b'(' (c ∷ s) ≡ true
    → lacks b'[' (c ∷ s) ≡ true
    → n ≤ max_int
    → ((parse (disc_name (c ∷ s) n)).disc_index ≡ n)
      × ((parse (disc_name (c ∷ s) n)).set_key ≡ to_lower (collapse_spaces (c ∷ s)))
      × (strip_disc_token (disc_name (c ∷ s) n) ≡ collapse_spaces (c ∷ s))
unfolding parse strip_disc_token note_all
parse-disc_name c s n hc h k bound = rw (name-scan c s n hc h k) (
  ap (λ a. a.disc_index) (note_all-plain (c ∷ s) _ no_attrs) ∙ inside-noted n bound,
  ap to_lower (remove-disc is_disc_kind (c ∷ s) n (inside-is_disc_kind n)),
  remove-disc (λ paren t. paren && not (is_none (disc_text (trim_space t)))) (c ∷ s) n
      (inside-stripped n),
)
