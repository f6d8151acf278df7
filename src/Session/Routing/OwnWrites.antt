-- ===== src/Session/Routing/OwnWrites.antt =====
-- Read your writes: after a committed write a strict session's reads on replicas see it.
use pgpilot.Base.{
  ℕ, ◌<◌, ◌≤◌, ◌≡◌, refl, subst, ◌⊎◌, inl, inr, ◌&&◌, ◌||◌, String, Bool, true, false, List, [],
  ◌∷◌, ◌++◌, none, some, arith, length, All, ◌==◌, string_eq,
}
use pgpilot.Base.Float.{Float64}
use pgpilot.Protocol.TxStatus.{status_idle}
use pgpilot.Registry.State.{Status}
use pgpilot.Router.Policy.{Policy, OneOf, Picks}
use pgpilot.Sql.Classify.{Class, write}
use pgpilot.Session.Select.{Fencing}
use pgpilot.Session.Select.Fenced.{Serves, strict-le}
use pgpilot.Session.Dispatch.{Effect, took, returned}
use pgpilot.Session.Messages.{query_string}
use pgpilot.Session.Routing.{
  Analysis, Answers, Routing, next, release_routed, settle, advanced, respond, write_query,
  start_query, turn, class_of, breaks_of, serve_routing, is_write,
}
use pgpilot.Session.Routing.Served.{answered_at, IsServed, Allowed, turn-IsServed}
use pgpilot.Session.Routing.Fence.{Reaches, serve_routing-Reaches}

advanced-covers : (n l : ℕ) → l ≤ advanced n (some l)
unfolding advanced
advanced-covers n l = ground arith

or_true : (b : Bool) → (b || true) ≡ true
or_true b = ground arith

module _ (fl : Float64) (cfg : Fencing) (an : Analysis) (policy : Policy fl.F) (fuel : ℕ) where
  open policy use {State}

  -- In this round a transaction that wrote on the primary ends, and the primary's position `l` is read:
  -- its last statement is the query `full`, on the held connection `c` or on a new one.
  pub record Commits (st : Routing State) (a : Answers fl.F) (full : List ℕ) (c l : ℕ)
      : Type 0 where
    pub is_query : a.message ≡ some (b'Q', full)
    pub pools :
        breaks_of fl cfg an policy fuel
          (class_of fl cfg an policy fuel (an.text (query_string full)))
          (an.text (query_string full))
        ≡ false
    pub wrote :
        ((st.held ≡ some (c, cfg.primary))
          × ((st.wrote_this_tx
                || is_write (class_of fl cfg an policy fuel (an.text (query_string full))))
              ≡ true))
        ⊎ ((st.held ≡ none)
            × (a.acquired ≡ some c)
            × (class_of fl cfg an policy fuel (an.text (query_string full)) ≡ write))
    pub writes : a.writes ≡ true
    pub ends : a.response ≡ some status_idle
    pub position : a.lsn ≡ some l

  write_query_commits :
      (a : Answers fl.F) (class_write : Bool) (c l : ℕ) (wrote : Bool) (fence : ℕ) (p : State)
      (log : List Effect)
      → a.writes ≡ true
      → a.response ≡ some status_idle
      → a.lsn ≡ some l
      → (wrote || class_write) ≡ true
      → write_query fl cfg an policy fuel a class_write false c cfg.primary wrote fence p log
        ≡ next
            (record {
              held = none;
              wrote_this_tx = false;
              fence = advanced fence (some l);
              policy = p;
            })
            (returned cfg.primary c ∷ log)
  unfolding write_query respond release_routed settle
  write_query_commits a class_write c l wrote fence p log w e h k =
      rw (w, write_query, e, respond, same, settle, with_true, k, h, advanced) refl
    where
      same : (cfg.primary == cfg.primary) ≡ true
      same = (string_eq.beq_iff cfg.primary cfg.primary).1 refl

      with_true : (class_write && true) ≡ class_write
      with_true = ground arith

  -- Such a round ends with no backend held, and with a fence at or past the position.
  turn-Commits :
      (st : Routing State) (a : Answers fl.F) (full : List ℕ) (c l : ℕ)
      → Commits st a full c l
      → (st' : Routing State) × (log : List Effect) × (turn fl cfg an policy fuel st a
          ≡ next st' log)
        × (st'.held ≡ none)
        × (l ≤ st'.fence)
  unfolding turn start_query
  turn-Commits st a full c l k = elim k.wrote [
    | inl (held, w) ↦ (
      committed,
      returned cfg.primary c ∷ [],
      rw (k.is_query, turn, held, k.pools)
          (write_query_commits a (is_write class) c l st.wrote_this_tx st.fence st.policy []
            k.writes k.ends k.position w),
      refl,
      advanced-covers st.fence l,
    )
    | inr (held, acquired, w) ↦ (
      committed,
      returned cfg.primary c ∷ took cfg.primary c ∷ [],
      rw (k.is_query, turn, held, k.pools, w, acquired)
          (write_query_commits a true c l st.wrote_this_tx st.fence st.policy
            (took cfg.primary c ∷ []) k.writes k.ends k.position (or_true st.wrote_this_tx)),
      refl,
      advanced-covers st.fence l,
    )
  ]
    where
      committed : Routing State
      committed = record {
        held = none;
        wrote_this_tx = false;
        fence = advanced st.fence (some l);
        policy = st.policy;
      }

      class : Class
      class = class_of fl cfg an policy fuel (an.text (query_string full))

  -- Read your writes, under strict fencing: a round commits a write at position `l`, and the session
  -- goes on for any number of rounds; a later round that starts with no connection held, and after
  -- which the session goes on, was answered by the primary, or by a replica that, by the registry's
  -- snapshot, has replayed past `l`.
  pub read_your_writes :
      (cfg.mode == "relaxed") ≡ false
      → (cfg.mode == "bounded") ≡ false
      → (picks : Picks fl.F policy) (all : List String) → length all < fuel
      → (st : Routing State) (a : Answers fl.F) (full : List ℕ) (c l : ℕ) → Commits st a full c l
      → (rest : List (Answers fl.F)) (now : Routing State) (log : List Effect)
      → serve_routing fl cfg an policy fuel (a ∷ rest) st [] ≡ next now log
      → now.held ≡ none
      → (later : Answers fl.F)
      → ((i : ℕ) → All (λ (s : Status fl.F). OneOf s.addr all) (later.rounds i).snapshot)
      → (st'' : Routing State) (effects : List Effect)
      → turn fl cfg an policy fuel now later ≡ next st'' effects
      → (addr : String) → answered_at st''.held effects ≡ some addr
      → (addr ≡ cfg.primary)
        ⊎ ((i : ℕ) × (tried : List String) × (v : Serves fl cfg now.fence tried
              (later.rounds i).snapshot
              addr)
            × (l ≤ v.status.lsn))
  unfolding serve_routing
  read_your_writes relaxed bounded picks all enough st a full c l k rest now log run free later
        known st'' effects turned addr answered =
      let (st', log', e, _, covers) = turn-Commits st a full c l k in
      let ran : serve_routing fl cfg an policy fuel rest st' (log' ++ []) ≡ next now log =
        rw e at run in
      let kept : st'.fence ≤ now.fence =
        subst (Reaches st'.fence) ran
          (serve_routing-Reaches fl cfg an policy fuel rest st' (log' ++ [])) in
      let served : IsServed (Allowed fl cfg an policy fuel later now.fence) (next st'' effects) =
        subst (IsServed (Allowed fl cfg an policy fuel later now.fence)) turned
          (turn-IsServed fl cfg an policy fuel picks all enough later known now free) in
      elim (served addr answered) [
        | inl primary ↦ inl primary
        | inr (i, tried, v) ↦
            let eligible : now.fence ≤ v.status.lsn =
              strict-le fl cfg v.status now.fence relaxed bounded v.eligible in
            inr (i, tried, v, omega arith)
      ]
