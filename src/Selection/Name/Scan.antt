-- ===== src/Selection/Name/Scan.antt =====
-- internal/selection/relname.go: the scan of a name that ends in one token.
use romarr.Base.{
  ℕ, zero, suc, ◌≡◌, refl, ap, ◌∙◌, Bool, true, false, none, some, List, [], ◌∷◌, ◌++◌, all, ◌==◌,
  map, arith,
}
use romarr.Base.Text.{Text, decimal}
use romarr.Selection.Model.{ReleaseAttrs}
use romarr.Selection.Name.{Piece, plain, up_to, token_at, text_length, pieces_from, remove_spans}
use romarr.Selection.Name.Bare.{lacks, pieces_from-plain}
use romarr.Selection.Name.Tokens.{is_digit, note_all}
use romarr.Selection.Name.Digits.{digits-all}

pub all-imp :
    (p q : ℕ → Bool) (s : Text)
    → ((c : ℕ) → p c ≡ true → q c ≡ true)
    → all p s ≡ true
    → all q s ≡ true
all-imp p q [] f h = refl
all-imp p q (c ∷ s) f h = ground (arith, f c, all-imp p q s f)

pub all-append :
    (p : ℕ → Bool) (s t : Text) → all p s ≡ true → all p t ≡ true → all p (s ++ t) ≡ true
all-append p [] t h k = k
all-append p (c ∷ s) t h k = ground (arith, all-append p s t)

pub decimal-all : (n : ℕ) → all is_digit (decimal n) ≡ true
unfolding decimal
decimal-all n = digits-all (suc n) n [] refl

-- A text that is no bracket is read character by character.
pub pieces-plain :
    (s t : Text)
    → lacks b'(' s ≡ true
    → lacks b'[' s ≡ true
    → pieces_from zero (s ++ t) ≡ map plain s ++ pieces_from zero t
pieces-plain [] t h k = refl
pieces-plain (c ∷ s) t h k =
    pieces_from-plain c (s ++ t) (no_token c (s ++ t) (ground arith) (ground arith))
    ∙ ap (λ ps. plain c ∷ ps) (pieces-plain s t (ground arith) (ground arith))
  where
    no_token : (c : ℕ) (s : Text) → (c == b'(') ≡ false → (c == b'[') ≡ false → token_at c s ≡ none
    no_token c s h k = rw (h, k) refl

pub pieces-skip_closed :
    (close : ℕ) (t : Text) → pieces_from (suc (text_length t)) (t ++ close ∷ []) ≡ []
unfolding pieces_from
pieces-skip_closed close [] = refl
pieces-skip_closed close (c ∷ t) = pieces-skip_closed close t

pub up_to-append :
    (close : ℕ) (t s : Text) → lacks close t ≡ true → up_to close (t ++ close ∷ s) ≡ some t
unfolding up_to
up_to-append close [] s h = ground arith
up_to-append close (c ∷ t) s h = ground (arith, up_to-append close t s)

pub remove_spans-plain :
    (test : Bool → Text → Bool) (s : Text) (ps : List Piece)
    → remove_spans test (map plain s ++ ps) ≡ s ++ remove_spans test ps
unfolding remove_spans
remove_spans-plain test [] ps = refl
remove_spans-plain test (c ∷ s) ps = ap (λ t. c ∷ t) (remove_spans-plain test s ps)

pub note_all-plain :
    (s : Text) (ps : List Piece) (a : ReleaseAttrs) → note_all (map plain s ++ ps) a ≡ note_all ps a
unfolding note_all
note_all-plain [] ps a = refl
note_all-plain (c ∷ s) ps a = note_all-plain s ps a
