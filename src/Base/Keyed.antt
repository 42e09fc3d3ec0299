-- ===== src/Base/Keyed.antt =====
-- Go maps in which each key stands once, as it does in Go.
use romarr.Base.{
  ◌≡◌, ◌⊎◌, refl, subst, Bool, false, none, some, List, [], ◌∷◌, inl, inr, Bool-cases, keep, arith,
}
use romarr.Base.Dict.{Eq, lookup, insert, lookup-insert}

beq_sym {κ} : {K : Type κ} ⦃e : Eq K⦄ (k j : K) → e.beq j k ≡ false → e.beq k j ≡ false
beq_sym {K = K} ⦃e⦄ k j h = ground (arith, e.beq_iff k j, e.beq_iff j k)

module _ {ℓ κ} {K : Type κ} {V : Type ℓ} ⦃e : Eq K⦄ where
  -- Each key stands once.
  abbrev pub IsKeyed : List (K × V) → Type ℓ
  IsKeyed [] = Unit
  IsKeyed ((k, v) ∷ m) = (lookup k m ≡ none) × IsKeyed m

  pub insert-IsKeyed : (k : K) (v : V) (m : List (K × V)) → IsKeyed m → IsKeyed (insert k v m)
  unfolding insert lookup
  insert-IsKeyed k v [] h = (refl, tt)
  insert-IsKeyed k v ((j, w) ∷ m) h = elim (Bool-cases (e.beq j k)) [
    | inl q ↦ rw q (subst (λ i. lookup i m ≡ none) ((e.beq_iff j k).0 q) h.0, h.1)
    | inr q ↦ rw q (fresh q, insert-IsKeyed k v m h.1)
  ]
    where
      fresh : e.beq j k ≡ false → lookup j (insert k v m) ≡ none
      fresh q = rw (lookup-insert k j v m, beq_sym k j q) h.0

  keep-none :
      (p : K × V → Bool) (k : K) (m : List (K × V)) → lookup k m ≡ none → lookup k (keep p m) ≡ none
  unfolding lookup keep
  keep-none p k [] h = refl
  keep-none p k ((j, w) ∷ m) h = elim (Bool-cases (e.beq j k)) [
    | inl q ↦ absurd (some_none (rw q at h))
    | inr q ↦ elim (Bool-cases (p (j, w))) [
      | inl kept ↦ rw (kept, q) (keep-none p k m (rw q at h))
      | inr gone ↦ rw gone (keep-none p k m (rw q at h))
    ]
  ]
    where
      some_none : some w ≡ none → ⊥
      some_none q = cc

  pub keep-IsKeyed : (p : K × V → Bool) (m : List (K × V)) → IsKeyed m → IsKeyed (keep p m)
  unfolding keep
  keep-IsKeyed p [] h = tt
  keep-IsKeyed p ((j, w) ∷ m) h = elim (Bool-cases (p (j, w))) [
    | inl kept ↦ rw kept (keep-none p j m h.0, keep-IsKeyed p m h.1)
    | inr gone ↦ rw gone (keep-IsKeyed p m h.1)
  ]

  -- A key is looked up as before among the entries that are kept, or not found.
  pub lookup-keep :
      (p : K × V → Bool) (k : K) (m : List (K × V))
      → IsKeyed m
      → (lookup k (keep p m) ≡ lookup k m) ⊎ (lookup k (keep p m) ≡ none)
  unfolding lookup keep
  lookup-keep p k [] h = inl refl
  lookup-keep p k ((j, w) ∷ m) h = elim (Bool-cases (p (j, w))) [
    | inl kept ↦ elim (Bool-cases (e.beq j k)) [
      | inl q ↦ inl (rw (kept, q) refl)
      | inr q ↦ rw (kept, q) (lookup-keep p k m h.1)
    ]
    | inr gone ↦ elim (Bool-cases (e.beq j k)) [
      | inl q ↦
          inr (rw gone (keep-none p k m (subst (λ i. lookup i m ≡ none) ((e.beq_iff j k).0 q) h.0)))
      | inr q ↦ rw (gone, q) (lookup-keep p k m h.1)
    ]
  ]
