-- ===== src/Selection/Rank/Order.antt =====
-- The comparison of rank keys is a strict weak order, so sorting by it has a best candidate.
use romarr.Base.{◌≡◌, Bool, true, false, arith}
use romarr.Base.Int.{ℤ, ltb_ℤ}
use romarr.Base.Sort.{IsStrictWeak}
use romarr.Selection.Rank.{RankKey, tier, less}

tier_asymm :
    (a b : ℤ) (r r' : Bool) → (r ≡ true → r' ≡ false) → tier a b r ≡ true → tier b a r' ≡ false
unfolding tier
tier_asymm a b r r' h e = ground arith

tier_negtrans :
    (a b c : ℤ) (ba cb ca : Bool)
    → (ba ≡ false → cb ≡ false → ca ≡ false)
    → tier b a ba ≡ false
    → tier c b cb ≡ false
    → tier c a ca ≡ false
unfolding tier
tier_negtrans a b c ba cb ca h e f = ground arith

ltb_ℤ_asymm : (a b : ℤ) → ltb_ℤ a b ≡ true → ltb_ℤ b a ≡ false
ltb_ℤ_asymm a b h = ground arith

ltb_ℤ_negtrans : (a b c : ℤ) → ltb_ℤ b a ≡ false → ltb_ℤ c b ≡ false → ltb_ℤ c a ≡ false
ltb_ℤ_negtrans a b c h k = ground arith

less_asymm : (k o : RankKey) → less k o ≡ true → less o k ≡ false
unfolding less
less_asymm k o = tier_asymm _ _ _ _ (
    tier_asymm _ _ _ _ (
      tier_asymm _ _ _ _ (
        tier_asymm _ _ _ _ (
          tier_asymm _ _ _ _ (
            tier_asymm _ _ _ _
              (tier_asymm _ _ _ _ (tier_asymm _ _ _ _ (ltb_ℤ_asymm k.neg_score o.neg_score))))))))

less_negtrans : (j k o : RankKey) → less k j ≡ false → less o k ≡ false → less o j ≡ false
unfolding less
less_negtrans j k o = tier_negtrans _ _ _ _ _ _ (
    tier_negtrans _ _ _ _ _ _ (
      tier_negtrans _ _ _ _ _ _ (
        tier_negtrans _ _ _ _ _ _ (
          tier_negtrans _ _ _ _ _ _ (
            tier_negtrans _ _ _ _ _ _ (
              tier_negtrans _ _ _ _ _ _ (
                tier_negtrans _ _ _ _ _ _
                  (ltb_ℤ_negtrans j.neg_score k.neg_score o.neg_score))))))))

-- The nine-tier comparison of rank keys is asymmetric, and "not better" is transitive.
pub less-IsStrictWeak : IsStrictWeak less
less-IsStrictWeak = record { asymm = less_asymm; negtrans = less_negtrans }
