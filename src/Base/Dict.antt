-- ===== src/Base/Dict.antt =====
-- Go maps as association lists, over keys with a Boolean equality.
use Prim.Native.Nat.{ℕ, ◌+◌}
use mathlib.Core.Path.{◌≡◌, refl}
use mathlib.Core.Logic.{◌↔◌}
use mathlib.Core.Bool.{Bool, true, false}
use mathlib.Core.Option.{Option, none, some}
use mathlib.Core.List.{List, [], ◌∷◌}
use native.Mathlib.Omega.{arith}
use romarr.Base.Tests.{
  ◌==◌ as nat_beq, ==_iff, if◌then◌else◌, Bool-cases, Option-cases, is_none, some_inj,
}
use romarr.Base.Lists.{All, sum}
use mathlib.Core.Path.{subst}
use mathlib.Core.Logic.{inl, inr}
use romarr.Base.Text.{Text, text_eq, text_eq_iff}

pub record Eq {ℓ} (A : Type ℓ) : Type ℓ where
  pub beq : A → A → Bool
  pub beq_iff : (a b : A) → (beq a b ≡ true) ↔ (a ≡ b)

instance abbrev pub nat_eq : Eq ℕ
nat_eq = record { beq = nat_beq; beq_iff = ==_iff }

instance abbrev pub text_key : Eq Text
text_key = record { beq = text_eq; beq_iff = text_eq_iff }

module _ {ℓ κ} {K : Type κ} {V : Type ℓ} ⦃e : Eq K⦄ where
  -- `m[k]`, with `none` for a missing key
  unfoldable pub lookup : K → List (K × V) → Option V
  lookup k [] = none
  lookup k ((j, v) ∷ m) = if e.beq j k then some v else lookup k m

  -- `m[k] = v`
  unfoldable pub insert : K → V → List (K × V) → List (K × V)
  insert k v [] = (k, v) ∷ []
  insert k v ((j, w) ∷ m) = if e.beq j k then (k, v) ∷ m else (j, w) ∷ insert k v m

  -- `delete(m, k)`
  unfoldable pub remove : K → List (K × V) → List (K × V)
  remove k [] = []
  remove k ((j, v) ∷ m) = let rest = remove k m in if e.beq j k then m else (j, v) ∷ rest

  pub lookup-remove_other :
      (k j : K) (m : List (K × V)) → e.beq k j ≡ false → lookup j (remove k m) ≡ lookup j m
  unfolding lookup remove
  lookup-remove_other k j [] h = refl
  lookup-remove_other k j ((i, v) ∷ m) h =
      ground (arith, e.beq_iff k j, e.beq_iff i k, e.beq_iff i j, lookup-remove_other k j m h)

  pub lookup-insert :
      (k j : K) (v : V) (m : List (K × V))
      → lookup j (insert k v m) ≡ (if e.beq k j then some v else lookup j m)
  unfolding lookup insert
  lookup-insert k j v [] = refl
  lookup-insert k j v ((i, w) ∷ m) =
      ground (arith, e.beq_iff k j, e.beq_iff i k, e.beq_iff i j, lookup-insert k j v m)

  -- A property of the entries, kept by a write and met by what a read finds.
  pub insert-All {μ} :
      (P : K → V → Type μ) (k : K) (v : V) (m : List (K × V))
      → P k v
      → All (λ p. P p.0 p.1) m
      → All (λ p. P p.0 p.1) (insert k v m)
  unfolding insert
  insert-All P k v [] h all = (h, tt)
  insert-All P k v ((j, w) ∷ m) h all = elim (Bool-cases (e.beq j k)) [
    | inl q ↦ rw q (h, all.1)
    | inr q ↦ rw q (all.0, insert-All P k v m h all.1)
  ]

  pub lookup-All {μ} :
      (P : K → V → Type μ) (k : K) (m : List (K × V)) {v : V}
      → All (λ p. P p.0 p.1) m
      → lookup k m ≡ some v
      → P k v
  unfolding lookup
  lookup-All P k [] {v} all h = absurd (cc)
  lookup-All P k ((j, w) ∷ m) {v} all h = elim (Bool-cases (e.beq j k)) [
    | inl q ↦
        subst (λ u. P k u) (some_inj {a = w} {b = v} (rw q at h))
          (subst (λ i. P i w) ((e.beq_iff j k).0 q) all.0)
    | inr q ↦ lookup-All P k m all.1 (rw q at h)
  ]

  pub remove-sum :
      (f : V → ℕ) (k : K) (m : List (K × V))
      → sum (λ p. f p.1) (remove k m) + elim (lookup k m) [ none ↦ 0 | some w ↦ f w ]
        ≡ sum (λ p. f p.1) m
  unfolding lookup remove
  remove-sum f k [] = omega arith
  remove-sum f k ((j, w) ∷ m) = elim (Bool-cases (e.beq j k)) [
    | inl q ↦ rw q (omega arith)
    | inr q ↦ rw q (omega (arith, remove-sum f k m))
  ]

  -- What a write adds to a sum over the entries, with what it takes the place of.
  pub insert-sum :
      (f : V → ℕ) (k : K) (v : V) (m : List (K × V))
      → sum (λ p. f p.1) (insert k v m) + elim (lookup k m) [ none ↦ 0 | some w ↦ f w ]
        ≡ sum (λ p. f p.1) m + f v
  unfolding lookup insert
  insert-sum f k v [] = omega arith
  insert-sum f k v ((j, w) ∷ m) = elim (Bool-cases (e.beq j k)) [
    | inl q ↦ rw q (omega arith)
    | inr q ↦ rw q (omega (arith, insert-sum f k v m))
  ]

  -- The key is present.
  abbrev pub HasKey : K → List (K × V) → Type 0
  HasKey k m = is_none (lookup k m) ≡ false

  pub HasKey-value : (k : K) (m : List (K × V)) → HasKey k m → (v : V) × (lookup k m ≡ some v)
  HasKey-value k m h = elim (Option-cases (lookup k m)) [
    | inl q ↦ absurd (true_false (rw q at h))
    | inr found ↦ found
  ]
    where
      true_false : true ≡ false → ⊥
      true_false q = cc

  pub HasKey-cons : (k j : K) (w : V) (m : List (K × V)) → HasKey k m → HasKey k ((j, w) ∷ m)
  unfolding lookup
  HasKey-cons k j w m h = elim (Bool-cases (e.beq j k)) [ inl q ↦ rw q refl | inr q ↦ rw q h ]

  pub HasKey-head : (k j : K) (w : V) (m : List (K × V)) → j ≡ k → HasKey k ((j, w) ∷ m)
  unfolding lookup
  HasKey-head k j w m q = rw ((e.beq_iff j k).1 q) refl
