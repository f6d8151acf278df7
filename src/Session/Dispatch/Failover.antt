-- ===== src/Session/Dispatch/Failover.antt =====
-- Failover ends, returns what it took, and lands where a read may be served.
use pgpilot.Base.{
  ℕ, zero, suc, ◌+◌, ◌≤◌, ◌<◌, ◌≡◌, refl, sym, subst, inl, inr, String, Bool, true, false, List, [],
  ◌∷◌, ◌++◌, Option, none, some, arith, length, if◌then◌else◌, string_eq, contains, All,
}
use pgpilot.Base.Float.{Float64}
use pgpilot.Registry.State.{Status}
use pgpilot.Router.Policy.{Policy, OneOf, Picks}
use pgpilot.Session.Select.{Fencing, select_read_target}
use pgpilot.Session.Select.Fenced.{Serves, Selected, select_read_target-Selected}
use pgpilot.Session.Dispatch.Log.{chosen, released, takes, given_back, owes, one_if}
use pgpilot.Session.Dispatch.{
  Round, Effect, Dispatched, sent, refused, panicked, try_target, logged, with_target,
  dispatch_loop, dispatch_read,
}

-- Each connection that was acquired has been discarded at its address.
abbrev pub Discarded : List Effect → Type 0
Discarded log = (a : String) (c : ℕ) → takes a c log ≡ given_back a c log

-- Every choice but that of the result has been released, and every connection but the result's has
-- been discarded.
abbrev pub Balanced : {S : Type 0} → Option (Dispatched S) → Type 0
Balanced none = Unit
Balanced (some (sent d b r p log)) =
    ((a : String) → chosen a log ≡ released a log + owes a r)
    × ((a : String) (c : ℕ) → takes a c log ≡ given_back a c log + one_if a c b d)
Balanced (some (refused p log)) = ((a : String) → chosen a log ≡ released a log) × Discarded log
Balanced (some panicked) = Unit

-- The addresses that have not been tried.
abbrev remaining : List String → List String → ℕ
remaining exclude [] = 0
remaining exclude (x ∷ xs) = (if contains exclude x then 0 else 1) + remaining exclude xs

remaining-le :
    (a : String) (exclude xs : List String) → remaining (a ∷ exclude) xs ≤ remaining exclude xs
remaining-le a exclude [] = omega arith
remaining-le a exclude (x ∷ xs) = ground (arith, remaining-le a exclude xs)

remaining-lt :
    (a : String) (exclude xs : List String)
    → OneOf a xs
    → contains exclude a ≡ false
    → remaining (a ∷ exclude) xs < remaining exclude xs
remaining-lt a exclude [] m h = absurd m
remaining-lt a exclude (x ∷ xs) (inl e) h =
    let fresh : contains exclude x ≡ false = rw e h in
    ground (arith, string_eq.beq_iff a x, sym e, remaining-le a exclude xs)
remaining-lt a exclude (x ∷ xs) (inr m) h = ground (arith, remaining-lt a exclude xs m h)

remaining-length : (xs : List String) → remaining [] xs ≤ length xs
remaining-length [] = omega arith
remaining-length (x ∷ xs) = omega (arith, remaining-length xs)

All-middle :
    {A : Type 0} (P : A → Type 0) (before : List A) (x : A) (after : List A)
    → All P (before ++ (x ∷ after))
    → P x
All-middle P [] x after h = h.0
All-middle P (b ∷ before) x after h = All-middle P before x after h.1

module _ (fl : Float64) (cfg : Fencing) (policy : Policy fl.F) (rounds : ℕ → Round fl.F) (fence : ℕ)
    (fp : String) where
  open policy use {State, release}

  dispatch_loop-Balanced :
      (n i : ℕ) (exclude : List String) (p : State) (log : List Effect)
      → ((b : String) → chosen b log ≡ released b log)
      → Discarded log
      → Balanced (dispatch_loop fl cfg policy rounds fence fp n i exclude p log)
  unfolding dispatch_loop
  dispatch_loop-Balanced zero i exclude p log h k = tt
  dispatch_loop-Balanced (suc n) i exclude p log h k =
      go (select_read_target fl cfg policy p (rounds i).snapshot fence fp exclude)
        (rounds i).acquired (rounds i).writes (dispatch_loop-Balanced n (suc i))
    where
      Ih : Type 0
      Ih =
          (exclude : List String) (p : State) (log : List Effect)
          → ((b : String) → chosen b log ≡ released b log)
          → Discarded log
          → Balanced (dispatch_loop fl cfg policy rounds fence fp n (suc i) exclude p log)

      go :
          (o : Option (String × Bool × State)) (acquired : Option ℕ) (writes : Bool)
          → Ih
          → Balanced (
              with_target fl cfg policy rounds fence fp
                (record (rounds i) { acquired = acquired; writes = writes })
                exclude
                log
                (dispatch_loop fl cfg policy rounds fence fp n (suc i))
                o)
      go none acquired writes ih = tt
      go (some (a, true, p')) none writes ih = ih _ _ _ (λ b. omega (arith, h b)) k
      go (some (a, false, p')) none writes ih = (h, k)
      go (some (a, true, p')) (some c) true ih =
          (λ b. omega (arith, h b), λ b d. omega (arith, k b d))
      go (some (a, false, p')) (some c) true ih =
          (λ b. omega (arith, h b), λ b d. omega (arith, k b d))
      go (some (a, true, p')) (some c) false ih =
          ih _ _ _ (λ b. omega (arith, h b)) λ b d. omega (arith, k b d)
      go (some (a, false, p')) (some c) false ih = (h, λ b d. omega (arith, k b d))

  -- Whatever fails on the way, each choice of the policy is paired with one release but for the one
  -- that the result still owes, and each connection that was acquired is discarded but for the one
  -- that the result holds.
  pub dispatch_read-Balanced :
      (fuel : ℕ) (p : State) → Balanced (dispatch_read fl cfg policy rounds fence fp fuel p)
  unfolding dispatch_read
  dispatch_read-Balanced fuel p = dispatch_loop-Balanced fuel 0 [] p [] (λ b. refl) λ a c. refl

  -- Where a read ends up: on a replica that may serve it, chosen by the policy, or on the primary.
  abbrev pub Landed : Option (Dispatched State) → Type 0
  Landed none = ⊥
  Landed (some (sent c a (some b) p log)) =
      (a ≡ b) × (i : ℕ) × (tried : List String) × Serves fl cfg fence tried (rounds i).snapshot a
  Landed (some (sent c a none p log)) = a ≡ cfg.primary
  Landed (some (refused p log)) = Unit
  Landed (some panicked) = ⊥

  module _ (picks : Picks fl.F policy) (all : List String)
      (known : (i : ℕ) → All (λ (st : Status fl.F). OneOf st.addr all) (rounds i).snapshot) where
    Serves-known :
        (i : ℕ) (exclude : List String) (a : String)
        → Serves fl cfg fence exclude (rounds i).snapshot a
        → OneOf a all
    Serves-known i exclude a v =
        subst (λ b. OneOf b all) v.address
          (All-middle (λ (st : Status fl.F). OneOf st.addr all) v.before v.status v.after
            (subst (All (λ (st : Status fl.F). OneOf st.addr all)) v.splits (known i)))

    dispatch_loop-Landed :
        (n i : ℕ) (exclude : List String) (p : State) (log : List Effect)
        → remaining exclude all < n
        → Landed (dispatch_loop fl cfg policy rounds fence fp n i exclude p log)
    unfolding dispatch_loop
    dispatch_loop-Landed zero i exclude p log h = absurd (omega arith)
    dispatch_loop-Landed (suc n) i exclude p log h =
        let (a, r, p', e, s) =
          select_read_target-Selected fl cfg policy picks p (rounds i).snapshot fence fp exclude in
        rw (e, with_target)
          (go a r p' (rounds i).acquired (rounds i).writes s (dispatch_loop-Landed n (suc i)))
      where
        Again : Type 0
        Again =
            (exclude : List String) (p : State) (log : List Effect)
            → remaining exclude all < n
            → Landed (dispatch_loop fl cfg policy rounds fence fp n (suc i) exclude p log)

        fewer :
            (a : String)
            → Serves fl cfg fence exclude (rounds i).snapshot a
            → remaining (a ∷ exclude) all < n
        fewer a v =
            omega (arith, remaining-lt a exclude all (Serves-known i exclude a v) v.not_tried, h)

        go :
            (a : String) (r : Bool) (p' : State) (acquired : Option ℕ) (writes : Bool)
            → Selected fl cfg policy picks p (rounds i).snapshot fence exclude a r p'
            → Again
            → Landed (
                try_target fl cfg policy rounds fence fp acquired writes r a exclude p'
                  (logged fl cfg policy rounds fence fp r a log)
                  (dispatch_loop fl cfg policy rounds fence fp n (suc i)))
        go a true p' none writes (inl (_, v)) ih = ih _ _ _ (fewer a v)
        go a true p' (some c) true (inl (_, v)) ih = (refl, i, exclude, v)
        go a true p' (some c) false (inl (_, v)) ih = ih _ _ _ (fewer a v)
        go a true p' acquired writes (inr (f, _, _, _)) ih = absurd (cc)
        go a false p' none writes s ih = tt
        go a false p' (some c) false s ih = tt
        go a false p' (some c) true (inr (_, e, _, _)) ih = e
        go a false p' (some c) true (inl (f, v)) ih = absurd (cc)

    -- If every snapshot names only addresses of one list, one round more than the list is long is
    -- enough: the read is sent to a replica that may serve it or to the primary, or it is refused.
    -- It never runs on, and the policy never panics.
    pub dispatch_read-Landed :
        (fuel : ℕ) (p : State)
        → length all < fuel
        → Landed (dispatch_read fl cfg policy rounds fence fp fuel p)
    unfolding dispatch_read
    dispatch_read-Landed fuel p h =
        dispatch_loop-Landed fuel 0 [] p [] (omega (arith, remaining-length all))
