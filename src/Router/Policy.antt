-- ===== src/Router/Policy.antt =====
-- internal/router/policy.go: the candidates for a read and the interface of a routing policy.
use pgpilot.Base.{ℕ, ◌≡◌, ◌⊎◌, String, Bool, List, [], ◌∷◌, Option, some}

-- Addr, LagBytes and LagSeconds; `F` is the type of floats.
pub record Candidate (F : Type 0) : Type 0 where
  pub addr : String
  pub lag_bytes : ℕ
  pub lag_seconds : F

abbrev pub addrs : {F : Type 0} → List (Candidate F) → List String
addrs [] = []
addrs (c ∷ cs) = c.addr ∷ addrs cs

-- A policy keeps a state and changes it in each call. `none` is the panic of Choose on an empty list.
pub record Policy (F : Type 0) : Type 1 where
  pub State : Type 0
  pub choose : State → List (Candidate F) → String → Option (String × State)
  pub release : State → String → String → ℕ → State
  pub needs_fingerprint : Bool

-- Equal to some entry of a list of texts.
abbrev pub OneOf : String → List String → Type 0
OneOf a [] = ⊥
OneOf a (x ∷ xs) = (x ≡ a) ⊎ OneOf a xs

-- A policy that, given candidates, picks the address of one of them. The proxy relies on it.
abbrev pub Picks : (F : Type 0) → Policy F → Type 0
Picks F policy =
    (p : policy.State) (c : Candidate F) (cs : List (Candidate F)) (fp : String)
    → (a : String) × (p' : policy.State) × (policy.choose p (c ∷ cs) fp ≡ some (a, p'))
      × OneOf a (addrs (c ∷ cs))
