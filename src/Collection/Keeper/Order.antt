-- ===== src/Collection/Keeper/Order.antt =====
-- The comparison of two dumps is a strict weak order, so that a best dump exists.
use romarr.Base.{ℕ, ◌≡◌, refl, [], ◌∷◌, Bool, true, false, if◌then◌else◌, arith}
use romarr.Base.Text.{Text, text_ltb}
use romarr.Base.Sort.{IsStrictWeak}
use romarr.Selection.Model.{ReleaseAttrs}
use romarr.Collection.Model.{Candidate}
use romarr.Collection.Policy.{Policy}
use romarr.Collection.Keeper.{before, prefer, less, Priorities}

text_ltb_asymm : (s t : Text) → text_ltb s t ≡ true → text_ltb t s ≡ false
unfolding text_ltb
text_ltb_asymm s [] h = ground arith
text_ltb_asymm [] (d ∷ t) h = refl
text_ltb_asymm (c ∷ s) (d ∷ t) h = ground (arith, text_ltb_asymm s t)

text_ltb_negtrans :
    (r s t : Text) → text_ltb s r ≡ false → text_ltb t s ≡ false → text_ltb t r ≡ false
unfolding text_ltb
text_ltb_negtrans [] s t h k = refl
text_ltb_negtrans (b ∷ r) [] t h k = ground arith
text_ltb_negtrans (b ∷ r) (c ∷ s) [] h k = ground arith
text_ltb_negtrans (b ∷ r) (c ∷ s) (d ∷ t) h k = ground (arith, text_ltb_negtrans r s t)

before_asymm :
    (a b : ℕ) (r r' : Bool) → (r ≡ true → r' ≡ false) → before a b r ≡ true → before b a r' ≡ false
unfolding before
before_asymm a b r r' h e = ground arith

before_negtrans :
    (a b c : ℕ) (ba cb ca : Bool)
    → (ba ≡ false → cb ≡ false → ca ≡ false)
    → before b a ba ≡ false
    → before c b cb ≡ false
    → before c a ca ≡ false
unfolding before
before_negtrans a b c ba cb ca h e f = ground arith

-- The same for numbers compared the other way round.
before_negtrans_back :
    (a b c : ℕ) (ba cb ca : Bool)
    → (ba ≡ false → cb ≡ false → ca ≡ false)
    → before a b ba ≡ false
    → before b c cb ≡ false
    → before a c ca ≡ false
before_negtrans_back a b c ba cb ca h e f = before_negtrans c b a cb ba ca (λ x y. h y x) f e

prefer_asymm :
    (a b r r' : Bool) → (r ≡ true → r' ≡ false) → prefer a b r ≡ true → prefer b a r' ≡ false
unfolding prefer
prefer_asymm true true r r' h e = h e
prefer_asymm true false r r' h e = refl
prefer_asymm false true r r' h e = ground arith
prefer_asymm false false r r' h e = h e

prefer_negtrans :
    (a b c ba cb ca : Bool)
    → (ba ≡ false → cb ≡ false → ca ≡ false)
    → prefer b a ba ≡ false
    → prefer c b cb ≡ false
    → prefer c a ca ≡ false
unfolding prefer
prefer_negtrans true true true ba cb ca h e f = h e f
prefer_negtrans true true false ba cb ca h e f = refl
prefer_negtrans true false true ba cb ca h e f = ground arith
prefer_negtrans true false false ba cb ca h e f = refl
prefer_negtrans false true true ba cb ca h e f = ground arith
prefer_negtrans false true false ba cb ca h e f = ground arith
prefer_negtrans false false true ba cb ca h e f = ground arith
prefer_negtrans false false false ba cb ca h e f = h e f

if_asymm :
    (e x y x' y' : Bool)
    → (x ≡ true → x' ≡ false)
    → (y ≡ true → y' ≡ false)
    → (if e then x else y) ≡ true
    → (if e then x' else y') ≡ false
if_asymm true x y x' y' f g h = f h
if_asymm false x y x' y' f g h = g h

if_negtrans :
    (e x y x' y' x'' y'' : Bool)
    → (x ≡ false → x' ≡ false → x'' ≡ false)
    → (y ≡ false → y' ≡ false → y'' ≡ false)
    → (if e then x else y) ≡ false
    → (if e then x' else y') ≡ false
    → (if e then x'' else y'') ≡ false
if_negtrans true x y x' y' x'' y'' f g h = f h
if_negtrans false x y x' y' x'' y'' f g h = g h

module _ (parse : Text → ReleaseAttrs) (prio : Priorities) (p : Policy) where
  less_asymm : (a b : Candidate) → less parse a b prio p ≡ true → less parse b a prio p ≡ false
  unfolding less
  less_asymm a b =
      let later = before_asymm _ _ _ _ (
        prefer_asymm _ _ _ _ (prefer_asymm _ _ _ _ (text_ltb_asymm a.member.name b.member.name))) in
      before_asymm _ _ _ _
        (before_asymm _ _ _ _ (if_asymm _ _ _ _ _ later (before_asymm _ _ _ _ later)))

  less_negtrans :
      (a b c : Candidate)
      → less parse b a prio p ≡ false
      → less parse c b prio p ≡ false
      → less parse c a prio p ≡ false
  unfolding less
  less_negtrans a b c =
      let later = before_negtrans_back _ _ _ _ _ _ (
        prefer_negtrans _ _ _ _ _ _ (
          prefer_negtrans _ _ _ _ _ _
            (text_ltb_negtrans a.member.name b.member.name c.member.name))) in
      before_negtrans _ _ _ _ _ _ (
        before_negtrans _ _ _ _ _ _
          (if_negtrans _ _ _ _ _ _ _ later (before_negtrans _ _ _ _ _ _ later)))

  pub less-IsStrictWeak : IsStrictWeak (λ a b. less parse a b prio p)
  less-IsStrictWeak = record { asymm = less_asymm; negtrans = less_negtrans }
