-- ===== src/Router/Scored/Lowest.antt =====
-- Choose takes a candidate that none scores below, and Release moves one estimate.
use mathlib.Core.List.{append_assoc, append-nil}
use pgpilot.Base.{
  ℕ, ◌≡◌, refl, sym, ap, subst, ◌∙◌, ◌⊎◌, inl, inr, Bool, true, false, Bool-cases, ◌&&◌, String,
  List, [], ◌∷◌, ◌++◌, some, arith, if◌then◌else◌, ◌==◌, string_eq, pair_eq, All, All-append,
  All-mono,
}
use pgpilot.Base.Dict.{lookup, lookup-insert}
use pgpilot.Base.Float.{Float64}
use pgpilot.Router.Policy.{Candidate}
use pgpilot.Router.InFlight.{begin_read}
use pgpilot.Router.Scored.{Scored, service, score, lowest, choose, release, or_default}

module _ (fl : Float64) where
  open fl use {F, lt, add, sub, mul, div, of_nat, infinity, lt_trans, lt_irrefl}

  module _ (p : Scored F) (fp : String) where
    -- The best address and score so far: of a candidate seen, or the initial ones, and of those seen
    -- none scores lower.
    pub record IsLowest (a : String) (s : F) (seen : List (Candidate F)) : Type 0 where
      pub origin :
          ((a ≡ "") × (s ≡ infinity))
          ⊎ ((before : List (Candidate F)) × (best : Candidate F) × (after : List (Candidate F))
              × (seen ≡ before ++ (best ∷ after))
              × (best.addr ≡ a)
              × (score fl p fp best ≡ s))
      pub none_below : All (λ c. lt (score fl p fp c) s ≡ false) seen

    -- What does not lie below a number does not lie below a smaller one.
    not_below : (x y z : F) → lt x y ≡ true → lt z y ≡ false → lt z x ≡ false
    not_below x y z h k = elim (Bool-cases (lt z x)) [
      | inl e ↦ absurd (cc (lt_trans z x y e h))
      | inr e ↦ e
    ]

    abbrev pub better : F → Candidate F → Bool
    better s c = lt (score fl p fp c) s

    IsLowest-extend :
        (a : String) (s : F) (seen : List (Candidate F)) (c : Candidate F)
        → IsLowest a s seen
        → IsLowest
            (if better s c then c.addr else a)
            (if better s c then score fl p fp c else s)
            (seen ++ (c ∷ []))
    IsLowest-extend a s seen c h = elim (Bool-cases (better s c)) [
      | inl lower ↦ rw lower (record {
        origin = inr (seen, c, [], refl, refl, refl);
        none_below =
            All-append _ seen (c ∷ [])
              (All-mono _ _ seen (λ d k. not_below (score fl p fp c) s (score fl p fp d) lower k)
                h.none_below)
              (lt_irrefl (score fl p fp c), tt);
      })
      | inr not_lower ↦ rw not_lower (record {
        origin = kept h.origin;
        none_below = All-append _ seen (c ∷ []) h.none_below (not_lower, tt);
      })
    ]
      where
        kept :
            ((a ≡ "") × (s ≡ infinity))
              ⊎ ((before : List (Candidate F)) × (best : Candidate F) × (after : List (Candidate F))
                  × (seen ≡ before ++ (best ∷ after))
                  × (best.addr ≡ a)
                  × (score fl p fp best ≡ s))
            → ((a ≡ "") × (s ≡ infinity))
              ⊎ ((before : List (Candidate F)) × (best : Candidate F) × (after : List (Candidate F))
                  × (seen ++ (c ∷ []) ≡ before ++ (best ∷ after))
                  × (best.addr ≡ a)
                  × (score fl p fp best ≡ s))
        kept (inl h) = inl h
        kept (inr (before, best, after, e, x, y)) = inr (
          before,
          best,
          after ++ (c ∷ []),
          ap (λ l. l ++ (c ∷ [])) e ∙ append_assoc before (best ∷ after) (c ∷ []),
          x,
          y,
        )

    lowest-IsLowest :
        (a : String) (s : F) (seen cs : List (Candidate F))
        → IsLowest a s seen
        → (t : F) × IsLowest (lowest fl p fp a s cs) t (seen ++ cs)
    unfolding lowest
    lowest-IsLowest a s seen [] h = (s, subst (IsLowest a s) (sym (append-nil seen)) h)
    lowest-IsLowest a s seen (c ∷ cs) h =
        subst
          (λ (l : List (Candidate F)).
            (t : F) × IsLowest
              (lowest fl p fp (if better s c then c.addr else a)
                (if better s c then score fl p fp c else s) cs)
              t l)
          (append_assoc seen (c ∷ []) cs)
          (lowest-IsLowest (if better s c then c.addr else a)
            (if better s c then score fl p fp c else s) (seen ++ (c ∷ [])) cs
            (IsLowest-extend a s seen c h))

    -- Choose gives an address with a score that no candidate lies below: that of one of the
    -- candidates, or, where none scores below infinity, the empty address.
    pub choose-IsLowest :
        (cs : List (Candidate F)) (a : String) (p' : Scored F)
        → choose fl p cs fp ≡ some (a, p')
        → (t : F) × IsLowest a t cs
    unfolding choose
    choose-IsLowest cs a p' h =
        let best : String = lowest fl p fp "" infinity cs in
        let same : best ≡ a = ground arith in
        subst (λ x. (t : F) × IsLowest x t cs) same
          (lowest-IsLowest "" infinity [] cs
            (record { origin = inl (refl, refl); none_below = tt }))

  -- Release folds the measured latency into the estimate for its address and fingerprint, by the
  -- weighted mean with the estimate before, and leaves all others.
  pub service-release :
      (p : Scored F) (a fp b gp : String) (latency : ℕ)
      → service fl (release fl p a fp latency) b gp ≡ (
          if (a == b) && (fp == gp)
          then add
              (mul p.w.alpha (div (of_nat latency) (of_nat 1_000_000)))
              (mul (sub (of_nat 1) p.w.alpha) (service fl p a fp))
          else service fl p b gp)
  unfolding service release
  service-release p a fp b gp latency =
      rw (lookup-insert (a, fp) (b, gp) _ p.latency) (split ((a == b) && (fp == gp)) _)
    where
      split :
          (t : Bool) (x : F)
          → or_default p.w.default_service_ms (if t then some x else lookup (b, gp) p.latency)
            ≡ (if t then x else or_default p.w.default_service_ms (lookup (b, gp) p.latency))
      split true x = refl
      split false x = refl

  -- Choose moves no estimate.
  pub service-choose :
      (p : Scored F) (cs : List (Candidate F)) (fp a : String) (p' : Scored F)
      → choose fl p cs fp ≡ some (a, p')
      → (p'.reads ≡ begin_read a p.reads)
        × ((b gp : String) → service fl p' b gp ≡ service fl p b gp)
  unfolding choose service
  service-choose p cs fp a p' h = (ground arith, λ b gp. ground arith)
