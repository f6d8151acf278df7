-- ===== src/Session/Dispatch/Log.antt =====
-- What a log of effects adds up to.
use pgpilot.Base.{
  ℕ, ◌+◌, ◌≡◌, arith, String, List, [], ◌∷◌, ◌++◌, Option, none, some, if◌then◌else◌, ◌==◌,
  string_eq, ◌&&◌, nat_beq,
}
use pgpilot.Session.Dispatch.{Effect, chose, unchose, took, discarded, returned}

-- How often the policy has been asked for, and released of, a read on an address.
abbrev pub chosen : String → List Effect → ℕ
chosen a [] = 0
chosen a (chose b ∷ log) = (if b == a then 1 else 0) + chosen a log
chosen a (unchose b ∷ log) = chosen a log
chosen a (took b c ∷ log) = chosen a log
chosen a (discarded b c ∷ log) = chosen a log
chosen a (returned b c ∷ log) = chosen a log

abbrev pub released : String → List Effect → ℕ
released a [] = 0
released a (chose b ∷ log) = released a log
released a (unchose b ∷ log) = (if b == a then 1 else 0) + released a log
released a (took b c ∷ log) = released a log
released a (discarded b c ∷ log) = released a log
released a (returned b c ∷ log) = released a log

-- One for this connection at this address, zero for any other.
abbrev pub one_if : String → ℕ → String → ℕ → ℕ
one_if a c b d = if (b == a) && nat_beq d c then 1 else 0

-- How often a connection at an address has been acquired, and given back there by Discard or Release.
abbrev pub takes : String → ℕ → List Effect → ℕ
takes a c [] = 0
takes a c (took b d ∷ log) = one_if a c b d + takes a c log
takes a c (chose b ∷ log) = takes a c log
takes a c (unchose b ∷ log) = takes a c log
takes a c (discarded b d ∷ log) = takes a c log
takes a c (returned b d ∷ log) = takes a c log

abbrev pub given_back : String → ℕ → List Effect → ℕ
given_back a c [] = 0
given_back a c (discarded b d ∷ log) = one_if a c b d + given_back a c log
given_back a c (returned b d ∷ log) = one_if a c b d + given_back a c log
given_back a c (took b d ∷ log) = given_back a c log
given_back a c (chose b ∷ log) = given_back a c log
given_back a c (unchose b ∷ log) = given_back a c log

abbrev pub owes : String → Option String → ℕ
owes a none = 0
owes a (some b) = if b == a then 1 else 0

-- Logs one after the other add up.
pub chosen-append : (a : String) (l m : List Effect) → chosen a (l ++ m) ≡ chosen a l + chosen a m
chosen-append a [] m = omega arith
chosen-append a (chose b ∷ l) m = omega (arith, chosen-append a l m)
chosen-append a (unchose b ∷ l) m = chosen-append a l m
chosen-append a (took b c ∷ l) m = chosen-append a l m
chosen-append a (discarded b c ∷ l) m = chosen-append a l m
chosen-append a (returned b c ∷ l) m = chosen-append a l m

pub released-append :
    (a : String) (l m : List Effect) → released a (l ++ m) ≡ released a l + released a m
released-append a [] m = omega arith
released-append a (chose b ∷ l) m = released-append a l m
released-append a (unchose b ∷ l) m = omega (arith, released-append a l m)
released-append a (took b c ∷ l) m = released-append a l m
released-append a (discarded b c ∷ l) m = released-append a l m
released-append a (returned b c ∷ l) m = released-append a l m

pub takes-append :
    (a : String) (c : ℕ) (l m : List Effect) → takes a c (l ++ m) ≡ takes a c l + takes a c m
takes-append a c [] m = omega arith
takes-append a c (chose b ∷ l) m = takes-append a c l m
takes-append a c (unchose b ∷ l) m = takes-append a c l m
takes-append a c (took b d ∷ l) m = omega (arith, takes-append a c l m)
takes-append a c (discarded b d ∷ l) m = takes-append a c l m
takes-append a c (returned b d ∷ l) m = takes-append a c l m

pub given_back-append :
    (a : String) (c : ℕ) (l m : List Effect)
    → given_back a c (l ++ m) ≡ given_back a c l + given_back a c m
given_back-append a c [] m = omega arith
given_back-append a c (chose b ∷ l) m = given_back-append a c l m
given_back-append a c (unchose b ∷ l) m = given_back-append a c l m
given_back-append a c (took b d ∷ l) m = given_back-append a c l m
given_back-append a c (discarded b d ∷ l) m = omega (arith, given_back-append a c l m)
given_back-append a c (returned b d ∷ l) m = omega (arith, given_back-append a c l m)
