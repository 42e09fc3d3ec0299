-- ===== src/Base/Lists.antt =====
-- Lists measured by native numbers, Boolean searches, and predicates by recursion.
use Prim.Native.Nat.{ℕ, suc, ◌+◌, ◌≤◌}
use mathlib.Core.Path.{◌≡◌, refl}
use mathlib.Core.Logic.{◌⊎◌, inl, inr}
use mathlib.Core.Bool.{Bool, true, false, ◌||◌, ◌&&◌}
use mathlib.Core.List.{List, [], ◌∷◌, ◌++◌, map}
use native.Mathlib.Omega.{arith}
use mathlib.Core.Path.{subst, sym, ap}
use romarr.Base.Tests.{if◌then◌else◌, Bool-cases}

module _ {ℓ} {A : Type ℓ} where
  abbrev pub length : List A → ℕ
  length [] = 0
  length (x ∷ xs) = suc (length xs)

  pub length-append : (xs ys : List A) → length (xs ++ ys) ≡ length xs + length ys
  length-append [] ys = omega arith
  length-append (x ∷ xs) ys = omega (arith, length-append xs ys)

  abbrev pub any : (A → Bool) → List A → Bool
  any p [] = false
  any p (x ∷ xs) = p x || any p xs

  abbrev pub all : (A → Bool) → List A → Bool
  all p [] = true
  all p (x ∷ xs) = p x && all p xs

  -- The elements that pass a test, in their order.
  unfoldable pub keep : (A → Bool) → List A → List A
  keep p [] = []
  keep p (x ∷ xs) = let rest = keep p xs in if p x then x ∷ rest else rest

  -- How many pass it.
  unfoldable pub tally : (A → Bool) → List A → ℕ
  tally p [] = 0
  tally p (x ∷ xs) = let rest = tally p xs in if p x then suc rest else rest

  abbrev pub sum : (A → ℕ) → List A → ℕ
  sum f [] = 0
  sum f (x ∷ xs) = f x + sum f xs

  abbrev pub All {κ} : (A → Type κ) → List A → Type κ
  All P [] = Unit
  All P (x ∷ xs) = P x × All P xs

  abbrev pub Any : (A → Type 0) → List A → Type 0
  Any P [] = ⊥
  Any P (x ∷ xs) = P x ⊎ Any P xs

-- `a` is an element.
abbrev pub Member : {A : Type 0} → A → List A → Type 0
Member a = Any (λ x. a ≡ x)

module _ {ℓ} {A : Type ℓ} where
  pub All-append {κ} : (P : A → Type κ) (xs ys : List A) → All P xs → All P ys → All P (xs ++ ys)
  All-append P [] ys h k = k
  All-append P (x ∷ xs) ys h k = (h.0, All-append P xs ys h.1 k)

  pub All-append_left {κ} : (P : A → Type κ) (xs ys : List A) → All P (xs ++ ys) → All P xs
  All-append_left P [] ys h = tt
  All-append_left P (x ∷ xs) ys h = (h.0, All-append_left P xs ys h.1)

  pub All-append_right {κ} : (P : A → Type κ) (xs ys : List A) → All P (xs ++ ys) → All P ys
  All-append_right P [] ys h = h
  All-append_right P (x ∷ xs) ys h = All-append_right P xs ys h.1

  pub map-All {κ μ} :
      {B : Type κ} (P : B → Type μ) (f : A → B) (xs : List A)
      → All (λ x. P (f x)) xs
      → All P (map f xs)
  map-All P f [] h = tt
  map-All P f (x ∷ xs) h = (h.0, map-All P f xs h.1)

  pub map-All_inv {κ μ} :
      {B : Type κ} (P : B → Type μ) (f : A → B) (xs : List A)
      → All P (map f xs)
      → All (λ x. P (f x)) xs
  map-All_inv P f [] h = tt
  map-All_inv P f (x ∷ xs) h = (h.0, map-All_inv P f xs h.1)

  pub sum-map {κ} :
      {B : Type κ} (f : B → ℕ) (h : A → B) (xs : List A) → sum f (map h xs) ≡ sum (λ x. f (h x)) xs
  sum-map f h [] = refl
  sum-map f h (x ∷ xs) = ap (λ n. f (h x) + n) (sum-map f h xs)

  pub sum-same : (f g : A → ℕ) (xs : List A) → All (λ x. f x ≡ g x) xs → sum f xs ≡ sum g xs
  sum-same f g [] h = refl
  sum-same f g (x ∷ xs) h = omega (arith, h.0, sum-same f g xs h.1)

  pub length-map {κ} : {B : Type κ} (f : A → B) (xs : List A) → length (map f xs) ≡ length xs
  length-map f [] = refl
  length-map f (x ∷ xs) = ap suc (length-map f xs)

  pub all-All : (p : A → Bool) (xs : List A) → all p xs ≡ true → All (λ x. p x ≡ true) xs
  all-All p [] h = tt
  all-All p (x ∷ xs) h = (ground arith, all-All p xs (ground arith))

  pub All-map {κ μ} :
      (P : A → Type κ) (Q : A → Type μ) (xs : List A) → ((a : A) → P a → Q a) → All P xs → All Q xs
  All-map P Q [] f h = tt
  All-map P Q (x ∷ xs) f h = (f x h.0, All-map P Q xs f h.1)

  pub All-keep {κ} :
      (P : A → Type κ) (p : A → Bool) (xs : List A)
      → ((a : A) → p a ≡ true → P a)
      → All P (keep p xs)
  unfolding keep
  All-keep P p [] f = tt
  All-keep P p (x ∷ xs) f = elim (Bool-cases (p x)) [
    | inl e ↦ rw e (f x e, All-keep P p xs f)
    | inr e ↦ rw e (All-keep P p xs f)
  ]

  pub keep-All {κ} : (P : A → Type κ) (p : A → Bool) (xs : List A) → All P xs → All P (keep p xs)
  unfolding keep
  keep-All P p [] h = tt
  keep-All P p (x ∷ xs) h = elim (Bool-cases (p x)) [
    | inl e ↦ rw e (h.0, keep-All P p xs h.1)
    | inr e ↦ rw e (keep-All P p xs h.1)
  ]

  pub tally-append : (p : A → Bool) (xs ys : List A) → tally p (xs ++ ys) ≡ tally p xs + tally p ys
  unfolding tally
  tally-append p [] ys = omega arith
  tally-append p (x ∷ xs) ys = ground (arith, tally-append p xs ys)

  pub tally-nil : (p : A → Bool) → tally p [] ≡ 0
  unfolding tally
  tally-nil p = refl

  pub tally-cons :
      (p : A → Bool) (x : A) (xs : List A) → tally p (x ∷ xs) ≡ (if p x then 1 else 0) + tally p xs
  unfolding tally
  tally-cons p x xs = ground arith

  pub length-keep : (p : A → Bool) (xs : List A) → length (keep p xs) ≤ length xs
  unfolding keep
  length-keep p [] = omega arith
  length-keep p (x ∷ xs) = ground (arith, length-keep p xs)

one_if-true : {b : Bool} → b ≡ true → ◌≡◌ {A = ℕ} (if b then 1 else 0) 1
one_if-true h = ground arith

module _ {A : Type 0} where
  pub Member-All : (P : A → Type 0) {a : A} (xs : List A) → All P xs → Member a xs → P a
  Member-All P (x ∷ xs) h (inl e) = subst P (sym e) h.0
  Member-All P (x ∷ xs) h (inr m) = Member-All P xs h.1 m
  Member-All P [] h m = absurd m

  pub Member-of_Any : (P : A → Type 0) (xs : List A) → Any P xs → (a : A) × Member a xs × P a
  Member-of_Any P (x ∷ xs) (inl h) = (x, inl refl, h)
  Member-of_Any P (x ∷ xs) (inr m) = let (a, at, h) = Member-of_Any P xs m in (a, inr at, h)
  Member-of_Any P [] m = absurd m

  pub Member-tally :
      (p : A → Bool) {a : A} (xs : List A) → Member a xs → p a ≡ true → 1 ≤ tally p xs
  Member-tally p {a} (x ∷ xs) (inl e) h =
      let here : p x ≡ true = subst (λ y. p y ≡ true) e h in
      omega (arith, one_if-true here, tally-cons p x xs)
  Member-tally p {a} (x ∷ xs) (inr m) h = omega (arith, Member-tally p xs m h, tally-cons p x xs)
  Member-tally p {a} [] m h = absurd m

  pub Any-of_Member : (P : A → Type 0) {a : A} (xs : List A) → Member a xs → P a → Any P xs
  Any-of_Member P (x ∷ xs) (inl e) h = inl (subst P e h)
  Any-of_Member P (x ∷ xs) (inr m) h = inr (Any-of_Member P xs m h)
  Any-of_Member P [] m h = absurd m

  pub All-of_Member : (P : A → Type 0) (xs : List A) → ((a : A) → Member a xs → P a) → All P xs
  All-of_Member P [] f = tt
  All-of_Member P (x ∷ xs) f = (f x (inl refl), All-of_Member P xs (λ a m. f a (inr m)))

  pub Member-append : (a : A) (xs ys : List A) → Member a xs ⊎ Member a ys → Member a (xs ++ ys)
  Member-append a [] ys (inl m) = absurd m
  Member-append a [] ys (inr m) = m
  Member-append a (x ∷ xs) ys (inl (inl e)) = inl e
  Member-append a (x ∷ xs) ys (inl (inr m)) = inr (Member-append a xs ys (inl m))
  Member-append a (x ∷ xs) ys (inr m) = inr (Member-append a xs ys (inr m))

  pub Member-keep : (a : A) (p : A → Bool) (xs : List A) → Member a (keep p xs) → Member a xs
  unfolding keep
  Member-keep a p [] m = m
  Member-keep a p (x ∷ xs) m = elim (Bool-cases (p x)) [
    | inl e ↦ elim (rw e at m) [ inl h ↦ inl h | inr h ↦ inr (Member-keep a p xs h) ]
    | inr e ↦ inr (Member-keep a p xs (rw e at m))
  ]
