-- ===== src/Base/Sets.antt =====
-- Python's `set`, as a list of members read through `contains`.
use mathlib.Core.Path.{◌≡◌}
use mathlib.Core.Bool.{Bool, true, false, ◌||◌}
use mathlib.Core.List.{List, [], ◌∷◌}
use native.Mathlib.Omega.{arith}
use zammad_ticket_archiver.Base.Tests.{HasEq, ◌==◌, if◌then◌else◌}

module _ {ℓ} {A : Type ℓ} ⦃e : HasEq A⦄ where
  -- x in s
  unfoldable pub contains : List A → A → Bool
  contains [] a = false
  contains (x ∷ xs) a = (x == a) || contains xs a

  -- s.add(x)
  unfoldable pub add : A → List A → List A
  unfolding contains
  add a s = if contains s a then s else a ∷ s

  -- s.discard(x)
  unfoldable pub discard : A → List A → List A
  discard a [] = []
  discard a (x ∷ xs) = let rest = discard a xs in if x == a then rest else x ∷ rest

  pub contains-add :
      (a b : A) (s : List A) → contains (add a s) b ≡ (if a == b then true else contains s b)
  unfolding add
  contains-add a b s = ground (arith, e.eqb_iff a b)

  pub contains-discard :
      (a b : A) (s : List A) → contains (discard a s) b ≡ (if a == b then false else contains s b)
  unfolding contains discard
  contains-discard a b [] = ground arith
  contains-discard a b (x ∷ xs) =
      ground (arith, contains-discard a b xs, e.eqb_iff x a, e.eqb_iff x b, e.eqb_iff a b)
