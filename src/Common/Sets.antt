-- ===== src/Common/Sets.antt =====
-- Sets (`QSet`) as lists in which the order does not matter.
use disquisition.Common.{
  ◌+◌, ◌≤◌, ◌≡◌, Bool, false, not, ◌&&◌, ◌||◌, List, [], ◌∷◌, arith, length, if◌then◌else◌, Eq,
}

module _ {ℓ} {A : Type ℓ} ⦃e : Eq A⦄ where
  unfoldable pub has : A → List A → Bool
  has a [] = false
  has a (b ∷ s) = e.beq b a || has a s

  unfoldable pub include : A → List A → List A
  include a s = if has a s then s else a ∷ s

  unfoldable pub exclude : A → List A → List A
  exclude a [] = []
  exclude a (b ∷ s) = if e.beq b a then exclude a s else b ∷ exclude a s

  pub has-include : (a b : A) (s : List A) → has b (include a s) ≡ (e.beq a b || has b s)
  unfolding include has
  has-include a b s = ground (arith, e.beq_iff a b)

  pub has-exclude : (a b : A) (s : List A) → has b (exclude a s) ≡ (not (e.beq a b) && has b s)
  unfolding exclude has
  has-exclude a b [] = ground arith
  has-exclude a b (c ∷ s) =
      ground (arith, e.beq_iff a b, e.beq_iff c a, e.beq_iff c b, has-exclude a b s)

  pub length-include_le : (a : A) (s : List A) → length (include a s) ≤ length s + 1
  unfolding include
  length-include_le a s = ground arith
