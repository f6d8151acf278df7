-- ===== src/Registry/State/Lag.antt =====
-- The lag that Snapshot reports.
use Prim.Native.Nat.{max}
use pgpilot.Base.{
  ℕ, ◌+◌, ◌≡◌, refl, Bool, true, false, ◌&&◌, List, [], ◌∷◌, ◌++◌, Option, none, some, arith,
  if◌then◌else◌, All,
}
use pgpilot.Registry.State.{
  is_primary, is_replica, BackendState, Status, primary_lsn, statuses, snapshot,
}

module _ {F : Type 0} where
  abbrev pub healthy_primary : BackendState F → Bool
  healthy_primary st = is_primary st.role && st.healthy

  primary_lsn-none :
      (sts : List (BackendState F)) (found : Option ℕ)
      → All (λ st. healthy_primary st ≡ false) sts
      → primary_lsn sts found ≡ found
  unfolding primary_lsn
  primary_lsn-none [] found h = refl
  primary_lsn-none (st ∷ sts) found h = rw (h.0) (primary_lsn-none sts found h.1)

  primary_lsn-some :
      (before : List (BackendState F)) (p : BackendState F) (after : List (BackendState F))
      (found : Option ℕ)
      → healthy_primary p ≡ true
      → All (λ st. healthy_primary st ≡ false) after
      → primary_lsn (before ++ (p ∷ after)) found ≡ some p.lsn
  unfolding primary_lsn
  primary_lsn-some [] p after found hp ha =
      rw (hp, primary_lsn) (primary_lsn-none after (some p.lsn) ha)
  primary_lsn-some (st ∷ before) p after found hp ha = primary_lsn-some before p after _ hp ha

  abbrev pub LagIs : Option ℕ → Status F → Type 0
  LagIs none s = s.lag_bytes ≡ 0
  LagIs (some p) s = s.lag_bytes + s.lsn ≡ (if is_replica s.role then max p s.lsn else s.lsn)

  statuses-LagIs : (p : Option ℕ) (sts : List (BackendState F)) → All (LagIs p) (statuses p sts)
  unfolding statuses
  statuses-LagIs p [] = tt
  statuses-LagIs none (st ∷ sts) = (refl, statuses-LagIs none sts)
  statuses-LagIs (some p) (st ∷ sts) = (ground arith, statuses-LagIs (some p) sts)

  -- With p the last healthy primary, a replica's lag is what it lacks of p's position, none if it is
  -- ahead, and every other backend has none; with no healthy primary all lags are 0.
  pub snapshot_lag :
      (before : List (BackendState F)) (p : BackendState F) (after : List (BackendState F))
      → healthy_primary p ≡ true
      → All (λ st. healthy_primary st ≡ false) after
      → All (LagIs (some p.lsn)) (snapshot (before ++ (p ∷ after)))
  unfolding snapshot
  snapshot_lag before p after hp ha =
      rw (primary_lsn-some before p after none hp ha)
        (statuses-LagIs (some p.lsn) (before ++ (p ∷ after)))

  pub snapshot_no_primary :
      (sts : List (BackendState F))
      → All (λ st. healthy_primary st ≡ false) sts
      → All (LagIs none) (snapshot sts)
  unfolding snapshot
  snapshot_no_primary sts h = rw (primary_lsn-none sts none h) (statuses-LagIs none sts)
