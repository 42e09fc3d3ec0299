-- ===== src/Selection/Name/Digits.antt =====
-- internal/selection/relname.go: decimal numbers read back, and texts that are trimmed.
use romarr.Base.{
  ℕ, zero, suc, ◌+◌, ◌-◌, ◌*◌, ◌/◌, ◌%◌, ◌<◌, ◌≡◌, refl, sym, ap, ◌∙◌, inl, inr, true, false, not,
  [], ◌∷◌, ◌++◌, all, ◌==◌, ltb, reverse, Bool-cases, arith,
}
use mathlib.Core.List.{append-nil, append_assoc, reverse-append, reverse-reverse}
use romarr.Base.Text.{Text, trim_space, trim_left, is_space, split_from, digits, decimal}
use romarr.Selection.Name.Tokens.{is_digit, number_from}

-- The digits of a number say the number.
digits-number_from :
    (fuel n : ℕ) (acc : Text) → n < fuel → number_from 0 (digits fuel n acc) ≡ number_from n acc
unfolding digits number_from
digits-number_from zero n acc h = absurd (omega arith)
digits-number_from (suc fuel) n acc h = elim (Bool-cases (ltb n 10)) [
  | inl e ↦ rw e (ap (λ k. number_from k acc) (last_digit n e))
  | inr e ↦ rw e (
      digits-number_from fuel (n / 10) _ (ground arith)
      ∙ ap (λ k. number_from k acc) (next_digit n))
]
  where
    last_digit : (n : ℕ) → ltb n 10 ≡ true → 0 * 10 + (b'0' + n % 10 - b'0') ≡ n
    last_digit n e = ground arith

    next_digit : (n : ℕ) → n / 10 * 10 + (b'0' + n % 10 - b'0') ≡ n
    next_digit n = omega arith

pub decimal-number_from : (n : ℕ) → number_from 0 (decimal n) ≡ n
unfolding decimal number_from
decimal-number_from n = digits-number_from (suc n) n [] (omega arith)

-- They are digits, the last of them in front of the accumulator.
pub digits-all :
    (fuel n : ℕ) (acc : Text) → all is_digit acc ≡ true → all is_digit (digits fuel n acc) ≡ true
unfolding digits
digits-all zero n acc h = h
digits-all (suc fuel) n acc h = elim (Bool-cases (ltb n 10)) [
  | inl e ↦ rw e (ground arith)
  | inr e ↦ rw e (digits-all fuel (n / 10) ((b'0' + n % 10) ∷ acc) (ground arith))
]

digits-ends : (fuel n : ℕ) (acc : Text) → (front : Text) × (digits fuel n acc ≡ front ++ acc)
unfolding digits
digits-ends zero n acc = ([], refl)
digits-ends (suc fuel) n acc = elim (Bool-cases (ltb n 10)) [
  | inl e ↦ ((b'0' + n % 10) ∷ [], rw e refl)
  | inr e ↦
      let (front, q) = digits-ends fuel (n / 10) ((b'0' + n % 10) ∷ acc) in
      (
        front ++ (b'0' + n % 10) ∷ [],
        rw e (q ∙ sym (append_assoc front ((b'0' + n % 10) ∷ []) acc)),
      )
]

-- The last digit of a number.
abbrev pub last_digit : ℕ → ℕ
last_digit n = b'0' + n % 10

pub decimal-ends : (n : ℕ) → (front : Text) × (decimal n ≡ front ++ last_digit n ∷ [])
unfolding decimal digits
decimal-ends n = elim (Bool-cases (ltb n 10)) [
  | inl e ↦ ([], rw e refl)
  | inr e ↦ let (front, q) = digits-ends n (n / 10) (last_digit n ∷ []) in (front, rw e q)
]

-- A text with no space at either end is trimmed.
pub trim-kept :
    (c d : ℕ) (s front : Text)
    → is_space c ≡ false
    → is_space d ≡ false
    → c ∷ s ≡ front ++ d ∷ []
    → trim_space (c ∷ s) ≡ c ∷ s
unfolding trim_space
trim-kept c d s front hc hd e = rw hc (
    ap (λ t. reverse (trim_left t)) (ap reverse e ∙ reverse-append front (d ∷ []))
    ∙ ap reverse (left d (reverse front) hd)
    ∙ ap reverse (sym (reverse-append front (d ∷ [])))
    ∙ reverse-reverse (front ++ d ∷ [])
    ∙ sym e)
  where
    left : (d : ℕ) (s : Text) → is_space d ≡ false → trim_left (d ∷ s) ≡ d ∷ s
    left d s h = rw h refl

pub split-alone :
    (piece s : Text)
    → all (λ c. not (c == b',')) s ≡ true
    → split_from (λ c. c == b',') piece s ≡ (reverse piece ++ s) ∷ []
unfolding split_from
split-alone piece [] h = ap (λ t. t ∷ []) (sym (append-nil (reverse piece)))
split-alone piece (c ∷ s) h = rw (no_comma c s h) (
    split-alone (c ∷ piece) s (rest c s h)
    ∙ ap (λ t. t ∷ [])
        (ap (λ t. t ++ s) (reverse-append (c ∷ []) piece)
          ∙ append_assoc (reverse piece) (c ∷ []) s))
  where
    no_comma : (c : ℕ) (s : Text) → all (λ c. not (c == b',')) (c ∷ s) ≡ true → (c == b',') ≡ false
    no_comma c s h = ground arith

    rest :
        (c : ℕ) (s : Text)
        → all (λ c. not (c == b',')) (c ∷ s) ≡ true
        → all (λ c. not (c == b',')) s ≡ true
    rest c s h = ground arith
