-- ===== src/Base/Counting.antt =====
-- How often a key occurs in a list, and the removal of one occurrence: the multiset view of a list.
use pgpilot.Base.Tests.{if◌then◌else◌}
use pgpilot.Base.Classes.{Eq, ◌==◌}
use Prim.Native.Nat.{ℕ, ◌+◌, ◌-◌}
use mathlib.Core.Path.{◌≡◌}
use mathlib.Core.List.{List, [], ◌∷◌, ◌++◌}
use native.Mathlib.Omega.{arith}

module _ {ℓ} {K : Type ℓ} ⦃e : Eq K⦄ where
  abbrev pub count : K → List K → ℕ
  count a [] = 0
  count a (x ∷ xs) = (if x == a then 1 else 0) + count a xs

  -- Without the first occurrence, if there is one.
  abbrev pub erase : K → List K → List K
  erase a [] = []
  erase a (x ∷ xs) = if x == a then xs else x ∷ erase a xs

  pub count-append : (a : K) (xs ys : List K) → count a (xs ++ ys) ≡ count a xs + count a ys
  count-append a [] ys = omega arith
  count-append a (x ∷ xs) ys = omega (arith, count-append a xs ys)

  pub count-erase :
      (a b : K) (xs : List K)
      → count b (erase a xs) ≡ (if a == b then count b xs - 1 else count b xs)
  count-erase a b [] = ground arith
  count-erase a b (x ∷ xs) =
      ground (arith, e.beq_iff a b, e.beq_iff x a, e.beq_iff x b, count-erase a b xs)
