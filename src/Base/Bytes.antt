-- ===== src/Base/Bytes.antt =====
-- Texts as lists of bytes: what strings.HasPrefix, strings.Split and strings.Index of the standard
-- library do on them.
use mathlib.Core.Option.{Option, none, some, map}
use mathlib.Core.List.{List, [], ◌∷◌}
use mathlib.Core.Bool.{Bool, true, false, ◌&&◌}
use Prim.Native.Nat.{ℕ, suc}
use pgpilot.Base.Tests.{nat_beq, if◌then◌else◌}

abbrev pub bytes_beq : List ℕ → List ℕ → Bool
bytes_beq [] [] = true
bytes_beq [] (b ∷ bs) = false
bytes_beq (a ∷ rest) [] = false
bytes_beq (a ∷ rest) (b ∷ bs) = nat_beq a b && bytes_beq rest bs

abbrev pub has_prefix : List ℕ → List ℕ → Bool
has_prefix s [] = true
has_prefix [] (p ∷ ps) = false
has_prefix (c ∷ cs) (p ∷ ps) = nat_beq c p && has_prefix cs ps

abbrev pub with_first : ℕ → List (List ℕ) → List (List ℕ)
with_first c [] = (c ∷ []) ∷ []
with_first c (part ∷ parts) = (c ∷ part) ∷ parts

abbrev pub split : ℕ → List ℕ → List (List ℕ)
split sep [] = [] ∷ []
split sep (c ∷ cs) = if nat_beq c sep then [] ∷ split sep cs else with_first c (split sep cs)

-- Where a text occurs first.
abbrev pub index : List ℕ → List ℕ → Option ℕ
index [] pattern = if has_prefix [] pattern then some 0 else none
index (c ∷ cs) pattern = if has_prefix (c ∷ cs) pattern then some 0 else map suc (index cs pattern)
