-- ===== src/Base/Sort.antt =====
-- `sort.SliceStable` as insertion sort by a strict test.
use mathlib.Core.Path.{◌≡◌, refl, subst, sym}
use mathlib.Core.Bool.{Bool, true, false}
use mathlib.Core.List.{List, [], ◌∷◌}
use mathlib.Core.List.Perm
use mathlib.Core.List.{Perm}
use mathlib.Core.Logic.{inl, inr}
use romarr.Base.Tests.{if◌then◌else◌, Bool-cases}
use romarr.Base.Lists.{All, All-map, sum}
use Prim.Native.Nat.{ℕ, ◌+◌}
use native.Mathlib.Omega.{arith}

module _ {ℓ} {A : Type ℓ} (less : A → A → Bool) where
  -- An element goes in front of the first that is not less than it.
  insert_sorted : A → List A → List A
  insert_sorted a [] = a ∷ []
  insert_sorted a (x ∷ xs) = if less x a then x ∷ insert_sorted a xs else a ∷ x ∷ xs

  -- Inserting from the back keeps equal elements in their order.
  unfoldable pub stable_sort : List A → List A
  unfolding insert_sorted
  stable_sort [] = []
  stable_sort (x ∷ xs) = insert_sorted x (stable_sort xs)

  insert_sorted-All {κ} :
      (P : A → Type κ) (a : A) (xs : List A) → P a → All P xs → All P (insert_sorted a xs)
  unfolding insert_sorted
  insert_sorted-All P a [] h k = (h, tt)
  insert_sorted-All P a (x ∷ xs) h k = elim (Bool-cases (less x a)) [
    | inl e ↦ rw e (k.0, insert_sorted-All P a xs h k.1)
    | inr e ↦ rw e (h, k)
  ]

  pub stable_sort-All {κ} : (P : A → Type κ) (xs : List A) → All P xs → All P (stable_sort xs)
  unfolding stable_sort
  stable_sort-All P [] h = tt
  stable_sort-All P (x ∷ xs) h =
      insert_sorted-All P x (stable_sort xs) h.0 (stable_sort-All P xs h.1)

  insert_sorted-All_inv {κ} :
      (P : A → Type κ) (a : A) (xs : List A) → All P (insert_sorted a xs) → P a × All P xs
  unfolding insert_sorted
  insert_sorted-All_inv P a [] h = h
  insert_sorted-All_inv P a (x ∷ xs) h = elim (Bool-cases (less x a)) [
    | inl e ↦
        let h' : P x × All P (insert_sorted a xs) = rw e at h in
        let (p, rest) = insert_sorted-All_inv P a xs h'.1 in (p, (h'.0, rest))
    | inr e ↦ rw e at h
  ]

  pub stable_sort-All_inv {κ} : (P : A → Type κ) (xs : List A) → All P (stable_sort xs) → All P xs
  unfolding stable_sort
  stable_sort-All_inv P [] h = tt
  stable_sort-All_inv P (x ∷ xs) h =
      let (p, rest) = insert_sorted-All_inv P x (stable_sort xs) h in
      (p, stable_sort-All_inv P xs rest)

  insert_sorted-perm : (a : A) (xs : List A) → Perm (insert_sorted a xs) (a ∷ xs)
  unfolding insert_sorted
  insert_sorted-perm a [] = Perm.rfl
  insert_sorted-perm a (x ∷ xs) = elim (Bool-cases (less x a)) [
    | inl e ↦ rw e (Perm.trans (Perm.cons x (insert_sorted-perm a xs)) (Perm.swap a x xs))
    | inr e ↦ rw e Perm.rfl
  ]

  pub stable_sort-perm : (xs : List A) → Perm (stable_sort xs) xs
  unfolding stable_sort
  stable_sort-perm [] = Perm.rfl
  stable_sort-perm (x ∷ xs) =
      Perm.trans (insert_sorted-perm x (stable_sort xs)) (Perm.cons x (stable_sort-perm xs))

  -- No later element is less than an earlier one.
  abbrev pub IsSorted : List A → Type 0
  IsSorted [] = Unit
  IsSorted (x ∷ xs) = All (λ y. less y x ≡ false) xs × IsSorted xs

-- What a comparison must satisfy to be a strict weak order.
pub record IsStrictWeak {ℓ} {A : Type ℓ} (less : A → A → Bool) : Type ℓ where
  pub asymm : (a b : A) → less a b ≡ true → less b a ≡ false
  pub negtrans : (a b c : A) → less b a ≡ false → less c b ≡ false → less c a ≡ false

module _ {ℓ} {A : Type ℓ} (less : A → A → Bool) (f : A → ℕ) where
  insert_sorted-sum : (a : A) (xs : List A) → sum f (insert_sorted less a xs) ≡ f a + sum f xs
  unfolding insert_sorted
  insert_sorted-sum a [] = refl
  insert_sorted-sum a (x ∷ xs) = elim (Bool-cases (less x a)) [
    | inl e ↦ rw e (omega (arith, insert_sorted-sum a xs))
    | inr e ↦ rw e refl
  ]

  pub stable_sort-sum : (xs : List A) → sum f (stable_sort less xs) ≡ sum f xs
  unfolding stable_sort
  stable_sort-sum [] = refl
  stable_sort-sum (x ∷ xs) =
      omega (arith, insert_sorted-sum x (stable_sort less xs), stable_sort-sum xs)

module _ {ℓ} {A : Type ℓ} (less : A → A → Bool) (order : IsStrictWeak less) where
  insert_sorted-IsSorted :
      (a : A) (xs : List A) → IsSorted less xs → IsSorted less (insert_sorted less a xs)
  unfolding insert_sorted
  insert_sorted-IsSorted a [] h = (tt, tt)
  insert_sorted-IsSorted a (x ∷ xs) h = elim (Bool-cases (less x a)) [
    | inl e ↦ rw e (
      insert_sorted-All less (λ y. less y x ≡ false) a xs (order.asymm x a e) h.0,
      insert_sorted-IsSorted a xs h.1,
    )
    | inr e ↦ rw e (
      (
        e,
        All-map (λ y. less y x ≡ false) (λ y. less y a ≡ false) xs (λ y k. order.negtrans a x y e k)
            h.0,
      ),
      h,
    )
  ]

  pub stable_sort-IsSorted : (xs : List A) → IsSorted less (stable_sort less xs)
  unfolding stable_sort
  stable_sort-IsSorted [] = tt
  stable_sort-IsSorted (x ∷ xs) =
      insert_sorted-IsSorted x (stable_sort less xs) (stable_sort-IsSorted xs)

  irrefl : (a : A) → less a a ≡ false
  irrefl a = elim (Bool-cases (less a a)) [ inl e ↦ order.asymm a a e | inr e ↦ e ]

  -- No element of the list is less than the first of the sorted list.
  pub stable_sort-head :
      (xs : List A) {w : A} {rest : List A}
      → stable_sort less xs ≡ w ∷ rest
      → All (λ y. less y w ≡ false) xs
  stable_sort-head xs {w} {rest} e =
      let sorted : IsSorted less (w ∷ rest) = subst (IsSorted less) e (stable_sort-IsSorted xs) in
      stable_sort-All_inv less (λ y. less y w ≡ false) xs
        (subst (All (λ y. less y w ≡ false)) (sym e) (irrefl w, sorted.0))
