-- ===== src/Base/Dict.antt =====
-- A Go map as an association list with at most one entry for a key; the lookup laws of its writes.
use mathlib.Core.Path.{◌≡◌, refl}
use mathlib.Core.List.{List, [], ◌∷◌}
use mathlib.Core.Option.{Option, none, some}
use native.Mathlib.Omega.{arith}
use pgpilot.Base.Tests.{if◌then◌else◌}
use pgpilot.Base.Classes.{Eq, ◌==◌}

module _ {ℓ κ} {K : Type ℓ} {V : Type κ} ⦃e : Eq K⦄ where
  unfoldable pub lookup : K → List (K × V) → Option V
  lookup key [] = none
  lookup key ((held, value) ∷ rest) = if held == key then some value else lookup key rest

  unfoldable pub delete : K → List (K × V) → List (K × V)
  delete key [] = []
  delete key ((held, value) ∷ rest) =
      if held == key then delete key rest else (held, value) ∷ delete key rest

  unfoldable pub insert : K → V → List (K × V) → List (K × V)
  insert key new [] = (key, new) ∷ []
  insert key new ((held, value) ∷ rest) =
      if held == key then (key, new) ∷ rest else (held, value) ∷ insert key new rest

  pub lookup-delete :
      (key asked : K) (entries : List (K × V))
      → lookup asked (delete key entries) ≡ (if key == asked then none else lookup asked entries)
  unfolding lookup delete
  lookup-delete key asked [] = ground arith
  lookup-delete key asked ((held, value) ∷ rest) = ground (
    arith,
    e.beq_iff held key,
    e.beq_iff held asked,
    e.beq_iff key asked,
    lookup-delete key asked rest,
  )

  pub lookup-insert :
      (key asked : K) (new : V) (entries : List (K × V))
      → lookup asked (insert key new entries)
        ≡ (if key == asked then some new else lookup asked entries)
  unfolding insert lookup
  lookup-insert key asked new [] = refl
  lookup-insert key asked new ((held, value) ∷ rest) = ground (
    arith,
    e.beq_iff held key,
    e.beq_iff held asked,
    e.beq_iff key asked,
    lookup-insert key asked new rest,
  )
