-- ===== src/Base/Float.antt =====
-- The double-precision numbers of the language, as an interface: the operations that the program
-- uses, and the two laws of the IEEE order that the proofs rely on. It holds of NaN too, which is
-- below nothing.
use pgpilot.Base.Tests.{ltb, leb}
use pgpilot.Base.Int.{ℤ, to_ℕ}
use Prim.Native.Nat.{ℕ, ◌+◌, ◌-◌, ◌*◌, ◌/◌}
use mathlib.Core.Path.{◌≡◌}
use mathlib.Core.Bool.{Bool, true, false}
use native.Mathlib.Omega.{arith}

pub record Float64 : Type 1 where
  pub F : Type 0
  pub lt : F → F → Bool
  pub le : F → F → Bool
  pub add : F → F → F
  pub sub : F → F → F
  pub mul : F → F → F
  pub div : F → F → F
  pub of_nat : ℕ → F
  pub of_int : ℤ → F
  pub infinity : F
  pub lt_irrefl : (x : F) → lt x x ≡ false
  pub lt_trans : (x y z : F) → lt x y ≡ true → lt y z ≡ true → lt x z ≡ true

pub ltb_irrefl : (x : ℕ) → ltb x x ≡ false
ltb_irrefl x = ground arith

pub ltb_trans : (x y z : ℕ) → ltb x y ≡ true → ltb y z ≡ true → ltb x z ≡ true
ltb_trans x y z h k = ground arith

-- Whole numbers of thousandths stand in for floats in the tests.
abbrev pub thousandths : Float64
thousandths = record {
  F = ℕ;
  lt = ltb;
  le = leb;
  add = λ x y. x + y;
  sub = λ x y. x - y;
  mul = λ x y. x * y / 1000;
  div = λ x y. x * 1000 / y;
  of_nat = λ n. n * 1000;
  of_int = λ i. to_ℕ i * 1000;
  infinity = 1_000_000_000;
  lt_irrefl = ltb_irrefl;
  lt_trans = ltb_trans;
}
