-- ===== src/Router/RoundRobin/Fairness.antt =====
-- Rotation is fair: over whole turns of a stable candidate list every address is chosen equally often.
use native.Mathlib.Nat.{mod-lt, mod-eq_of_lt, add-mod_right, add-zero, suc-add, add-suc}
use Prim.Native.Nat.add
use Prim.Native.Nat.mul
use pgpilot.Base.{
  ℕ, zero, suc, ◌+◌, ◌-◌, ◌*◌, ◌%◌, ◌≤◌, ◌<◌, ◌≡◌, refl, ap, ◌∙◌, String, List, [], ◌∷◌, Option,
  none, some, arith, length, get_elem?, if◌then◌else◌, ◌==◌, string_eq, count,
}
use pgpilot.Router.Policy.{Candidate, addrs}
use pgpilot.Router.RoundRobin.{RoundRobin, choose, chosen_at, u64_mod}

-- Sums over a window, and their shift for a function of period `n`.
window : (ℕ → ℕ) → ℕ → ℕ → ℕ
window g s zero = 0
window g s (suc n) = g s + window g (suc s) n

window-snoc : (g : ℕ → ℕ) (s n : ℕ) → window g s (suc n) ≡ window g s n + g (s + n)
unfolding window
window-snoc g s zero = ground (arith, ap g (add-zero s))
window-snoc g s (suc n) =
    let moved : suc s + n ≡ s + suc n = omega arith in
    omega (arith, window-snoc g (suc s) n, ap g moved)

window-append : (g : ℕ → ℕ) (s m n : ℕ) → window g s (m + n) ≡ window g s m + window g (s + m) n
unfolding window
window-append g s zero n = rw (add.zero n, add-zero s) (omega arith)
window-append g s (suc m) n =
    rw (suc-add m n, add-suc s m, ← suc-add s m) (omega (arith, window-append g (suc s) m n))

window-slide :
    (g : ℕ → ℕ) (n : ℕ) → ((i : ℕ) → g (i + n) ≡ g i) → (s : ℕ) → window g s n ≡ window g 0 n
unfolding window
window-slide g n per zero = refl
window-slide g n per (suc s) =
    omega (arith, window-slide g n per s, window-snoc g s n, window-step g s n, per s)
  where
    window-step : (g : ℕ → ℕ) (s n : ℕ) → window g s (suc n) ≡ g s + window g (suc s) n
    window-step g s n = refl

-- Whole turns.
window-turns :
    (g : ℕ → ℕ) (n : ℕ)
    → ((i : ℕ) → g (i + n) ≡ g i)
    → (k s : ℕ) → window g s (k * n) ≡ k * window g 0 n
unfolding window
window-turns g n per zero s = rw (mul.zero n, mul.zero (window g 0 n)) refl
window-turns g n per (suc k) s =
    let e : suc k * n ≡ n + k * n = grind arith in
    rw (e, window-append g s n (k * n), window-slide g n per s, window-turns g n per k (s + n))
      (grind arith)

window-suc : (g : ℕ → ℕ) (s n : ℕ) → window g (suc s) n ≡ window (λ i. g (suc i)) s n
unfolding window
window-suc g s zero = refl
window-suc g s (suc n) = ap (λ t. g (suc s) + t) (window-suc g (suc s) n)

window-cong :
    (f g : ℕ → ℕ) (s n : ℕ) → ((i : ℕ) → i < s + n → f i ≡ g i) → window f s n ≡ window g s n
unfolding window
window-cong f g s zero h = refl
window-cong f g s (suc n) h =
    omega (arith, h s (omega arith), window-cong f g (suc s) n (λ i lt. h i (omega arith)))

-- Whether a position holds the address.
abbrev hit : String → Option String → ℕ
hit a none = 0
hit a (some b) = if b == a then 1 else 0

window-count :
    (a : String) (xs : List String)
    → window (λ i. hit a (get_elem? xs i)) 0 (length xs) ≡ count a xs
unfolding window
window-count a [] = refl
window-count a (x ∷ xs) =
    ap (λ t. (if x == a then 1 else 0) + t)
      (window-suc (λ i. hit a (get_elem? (x ∷ xs) i)) 0 (length xs) ∙ window-count a xs)

length-addrs : {F : Type 0} (cs : List (Candidate F)) → length (addrs cs) ≡ length cs
length-addrs [] = refl
length-addrs (c ∷ cs) = ap suc (length-addrs cs)

get_elem?-some :
    (xs : List String) (i : ℕ) → i < length xs → (a : String) × (get_elem? xs i ≡ some a)
get_elem?-some [] i h = elim h [ ]
get_elem?-some (x ∷ xs) zero h = (x, refl)
get_elem?-some (x ∷ xs) (suc i) h = get_elem?-some xs i (omega arith)

abbrev pub picked : Option (String × RoundRobin) → (RoundRobin → List String) → List String
picked none k = []
picked (some (a, p)) k = a ∷ k p

module _ {F : Type 0} (candidates : List (Candidate F)) where
  -- The addresses of `m` choices in a row, from one list of candidates.
  unfoldable pub choices : ℕ → RoundRobin → List String
  choices zero p = []
  choices (suc m) p = picked (choose p candidates "") (choices m)

  turn : String → ℕ → ℕ
  turn a i = hit a (get_elem? (addrs candidates) (i % length candidates))

  choose_next :
      (p : RoundRobin)
      → p.next < u64_mod
      → choose p candidates ""
        ≡ chosen_at
            (record { next = (p.next + 1) % u64_mod })
            (get_elem? (addrs candidates) (p.next % length candidates))
  unfolding choose
  choose_next p h =
      let e : ((p.next + 1) % u64_mod + u64_mod - 1) % u64_mod ≡ p.next = omega arith in rw e refl

  window-next :
      (g : ℕ → ℕ) (s m : ℕ)
      → s + suc m ≤ u64_mod
      → window g ((s + 1) % u64_mod) m ≡ window g (suc s) m
  unfolding window
  window-next g s zero h = refl
  window-next g s (suc m) h = let e : (s + 1) % u64_mod ≡ suc s = omega arith in rw e refl

  count-choices :
      (a : String) (m : ℕ) (p : RoundRobin)
      → 0 < length candidates
      → p.next + m ≤ u64_mod
      → count a (choices m p) ≡ window (turn a) p.next m
  unfolding choices window turn
  count-choices a zero p pos h = refl
  count-choices a (suc m) p pos h =
      let (b, e) =
        get_elem?-some (addrs candidates) (p.next % length candidates)
          (omega (arith, length-addrs candidates, mod-lt p.next pos)) in
      rw (choose_next p (omega arith), picked)
        (rw e (
          ap (λ t. (if b == a then 1 else 0) + t)
            (count-choices a m (record { next = (p.next + 1) % u64_mod }) pos (omega arith)
              ∙ window-next (turn a) p.next m h)))

  turn-periodic : (a : String) (i : ℕ) → turn a (i + length candidates) ≡ turn a i
  unfolding turn
  turn-periodic a i = rw (add-mod_right i (length candidates)) refl

  turn-count : (a : String) → window (turn a) 0 (length candidates) ≡ count a (addrs candidates)
  unfolding turn
  turn-count a =
      window-cong _ (λ i. hit a (get_elem? (addrs candidates) i)) 0 (length candidates)
        (λ i h. rw (mod-eq_of_lt {n = i} {m = length candidates} (omega arith)) refl)
      ∙ rw (← length-addrs candidates) (window-count a (addrs candidates))

  -- Over k whole turns, with no wrap of the counter, an address is chosen k times for each place
  -- that it has in the list: an equal share.
  pub choices_fair :
      (a : String) (k : ℕ) (p : RoundRobin)
      → 0 < length candidates
      → p.next + k * length candidates ≤ u64_mod
      → count a (choices (k * length candidates) p) ≡ k * count a (addrs candidates)
  choices_fair a k p pos h =
      count-choices a (k * length candidates) p pos h
      ∙ window-turns (turn a) (length candidates) (turn-periodic a) k p.next
      ∙ ap (λ t. k * t) (turn-count a)
