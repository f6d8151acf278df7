-- ===== src/Router/Members.antt =====
-- Which policies pick one of the candidates that they are given.
use native.Mathlib.Nat.{mod-lt}
use pgpilot.Base.{
  ℕ, zero, suc, ◌+◌, ◌-◌, ◌%◌, ◌<◌, ◌≡◌, refl, ap, sym, subst, inl, inr, String, List, [], ◌∷◌,
  ◌++◌, some, arith, length, get_elem?,
}
use pgpilot.Router.Policy.{Candidate, addrs, OneOf, Picks}
use pgpilot.Router.RoundRobin.{RoundRobin, round_robin, chosen_at, u64_mod}
use pgpilot.Router.RoundRobin
use pgpilot.Router.LeastInFlight.{least_in_flight}
use pgpilot.Router.LeastInFlight
use pgpilot.Router.LeastInFlight.Minimal.{choose-IsFirstLeast}
use pgpilot.Router.InFlight.{in_flight}

get_elem?-OneOf :
    (xs : List String) (i : ℕ)
    → i < length xs
    → (a : String) × (get_elem? xs i ≡ some a) × OneOf a xs
get_elem?-OneOf [] i h = elim h [ ]
get_elem?-OneOf (x ∷ xs) zero h = (x, refl, inl refl)
get_elem?-OneOf (x ∷ xs) (suc i) h =
    let (a, e, m) = get_elem?-OneOf xs i (omega arith) in (a, e, inr m)

length-addrs : {F : Type 0} (cs : List (Candidate F)) → length (addrs cs) ≡ length cs
length-addrs [] = refl
length-addrs (c ∷ cs) = ap suc (length-addrs cs)

middle-OneOf :
    {F : Type 0} (before : List (Candidate F)) (c : Candidate F) (after : List (Candidate F))
    → OneOf c.addr (addrs (before ++ (c ∷ after)))
middle-OneOf [] c after = inl refl
middle-OneOf (b ∷ before) c after = inr (middle-OneOf before c after)

-- Round robin never fails on candidates and picks one of them.
pub round_robin-Picks : (F : Type 0) → Picks F (round_robin F)
unfolding RoundRobin.choose
round_robin-Picks F p c cs fp =
    let i = ((p.next + 1) % u64_mod + u64_mod - 1) % u64_mod in
    let (a, e, m) =
      get_elem?-OneOf (addrs (c ∷ cs)) (i % length (c ∷ cs))
        (omega (arith, length-addrs (c ∷ cs), mod-lt i {m = length (c ∷ cs)} (omega arith))) in
    (a, _, ap (chosen_at _) e, m)

-- So does least-in-flight.
pub least_in_flight-Picks : (F : Type 0) → Picks F (least_in_flight F)
unfolding LeastInFlight.choose
least_in_flight-Picks F m c cs fp =
    let best : String = LeastInFlight.least m c.addr (in_flight m c.addr) cs in
    let (v, e) = choose-IsFirstLeast m (c ∷ cs) fp best _ refl in
    (
      best,
      _,
      refl,
      subst (λ l. OneOf best (addrs l)) (sym v.splits)
          (subst (λ a. OneOf a (addrs (v.before ++ (v.best ∷ v.after)))) v.address
            (middle-OneOf v.before v.best v.after)),
    )
