-- ===== src/Router/RoundRobin.antt =====
-- internal/router/roundrobin.go: rotation by an atomic uint64 counter.
pub mod Fairness
use pgpilot.Base.{
  ℕ, zero, suc, ◌+◌, ◌-◌, ◌*◌, ◌%◌, ◌^◌, ◌≤◌, ◌<◌, ◌≡◌, refl, sym, ap, ◌∙◌, String, Bool, false,
  List, [], ◌∷◌, ◌++◌, Option, none, some, arith, length, get_elem?, if◌then◌else◌, ◌==◌, count,
  count-append,
}
use pgpilot.Router.Policy.{Candidate, Policy, addrs}

pub record RoundRobin : Type 0 where
  pub next : ℕ

unfoldable pub new_round_robin : RoundRobin
new_round_robin = record { next = 0 }

abbrev pub u64_mod : ℕ
u64_mod = 2 ^ 64

abbrev pub chosen_at : RoundRobin → Option String → Option (String × RoundRobin)
chosen_at p none = none
chosen_at p (some a) = some (a, p)

-- `next.Add(1) - 1`, then the candidate at that index modulo their number.
unfoldable pub choose :
    {F : Type 0} → RoundRobin → List (Candidate F) → String → Option (String × RoundRobin)
choose p candidates _ =
    let next = (p.next + 1) % u64_mod in
    let i = (next + u64_mod - 1) % u64_mod in
    chosen_at (record { next = next }) (get_elem? (addrs candidates) (i % length candidates))

unfoldable pub release : RoundRobin → String → String → ℕ → RoundRobin
release p _ _ _ = p

abbrev pub round_robin : (F : Type 0) → Policy F
round_robin F = record {
  State = RoundRobin;
  choose = choose;
  release = release;
  needs_fingerprint = false;
}
