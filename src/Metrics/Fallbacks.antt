-- ===== src/Metrics/Fallbacks.antt =====
-- What the routing counters of internal/metrics/metrics.go add up to.
use pgpilot.Base.{ℕ, ◌+◌, ◌≡◌, String, true, false, List, [], ◌∷◌, pair_eq}
use pgpilot.Sql.Classify.{read}
use pgpilot.Metrics.{
  Metrics, target_primary, reason_fence_fallback, decisions, Event, decided, failed_over,
}

-- Whether the event is a read that is placed on the primary.
abbrev falls_back : Event → ℕ
falls_back (decided true read held_addr primary false) = 1
falls_back _ = 0

abbrev fallbacks : List Event → ℕ
fallbacks [] = 0
fallbacks (e ∷ es) = falls_back e + fallbacks es

-- Both counters of fallbacks have grown by the same.
abbrev Grown : Metrics → Metrics → ℕ → Type 0
Grown m m' n =
    (m'.fence_fallbacks ≡ m.fence_fallbacks + n)
    × (decisions target_primary reason_fence_fallback m'
        ≡ decisions target_primary reason_fence_fallback m + n)

-- The routing decisions of all targets and reasons together.
abbrev pub total : List ((String × String) × ℕ) → ℕ
total [] = 0
total ((key, n) ∷ rest) = n + total rest

-- A statement that is sent to a backend, or the hand-over to the extended protocol.
abbrev pub is_routed : Event → ℕ
is_routed failed_over = 0
is_routed _ = 1

abbrev pub routed_count : List Event → ℕ
routed_count [] = 0
routed_count (e ∷ es) = is_routed e + routed_count es

-- The two metrics agree on the number of fallbacks.
abbrev pub Agrees : Metrics → Type 0
Agrees m = m.fence_fallbacks ≡ decisions target_primary reason_fence_fallback m
