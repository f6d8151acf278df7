-- ===== src/Session/Routing/Served.antt =====
-- Where a round of serveRouting that starts a transaction has its query answered.
use pgpilot.Base.{
  ℕ, ◌<◌, ◌≡◌, refl, subst, ◌⊎◌, inl, inr, not, String, Bool, true, false, List, [], ◌∷◌, Option,
  none, some, length, All, if◌then◌else◌, nat_beq, string_eq,
}
use pgpilot.Base.Float.{Float64}
use pgpilot.Protocol.TxStatus.{TxStatus, status_idle}
use pgpilot.Registry.State.{Status}
use pgpilot.Router.Policy.{Policy, OneOf, Picks}
use pgpilot.Sql.Classify.{Class, read, write}
use pgpilot.Session.Select.{Fencing}
use pgpilot.Session.Select.Fenced.{Serves}
use pgpilot.Session.Dispatch.{Effect, returned, took, Dispatched, sent, refused, panicked}
use pgpilot.Session.Dispatch.Failover.{Landed, dispatch_read-Landed}
use pgpilot.Session.Messages.{query_string}
use pgpilot.Session.Routing.{
  Analysis, Answers, Routing, Turn, next, ended, stuck, drop_held, settle, on_response, respond,
  write_query, on_dispatched, start_query, extended, extended_on, on_query, turn,
}

abbrev returned_at : List Effect → Option String
returned_at (returned addr c ∷ log) = some addr
returned_at _ = none

-- The backend that has answered a round after which the session goes on: the one that the session
-- still holds in a transaction, or the one whose connection the round has returned last.
abbrev pub answered_at : Option (ℕ × String) → List Effect → Option String
answered_at (some (c, addr)) log = some addr
answered_at none log = returned_at log

-- The backend that has answered, if the session goes on, has the property.
abbrev pub IsServed : {S : Type 0} → (String → Type 0) → Turn S → Type 0
IsServed P (next st log) = (addr : String) → answered_at st.held log ≡ some addr → P addr
IsServed P (ended r p log) = Unit
IsServed P stuck = Unit

if-IsServed :
    {S : Type 0} (P : String → Type 0) (b : Bool) (t u : Turn S)
    → IsServed P t
    → IsServed P u
    → IsServed P (if b then t else u)
if-IsServed P true t u h k = h
if-IsServed P false t u h k = k

same :
    (P : String → Type 0) (addr : String)
    → P addr
    → (other : String) → some addr ≡ some other
    → P other
same P addr h other e = subst P (cc e) h

module _ (fl : Float64) (cfg : Fencing) (an : Analysis) (policy : Policy fl.F) (fuel : ℕ) where
  open policy use {State}

  module _ (P : String → Type 0) (a : Answers fl.F) where
    settle-IsServed :
        (breaks : Bool) (status : TxStatus) (c : ℕ) (addr : String) (wrote : Bool) (fence : ℕ)
        (p : State) (log : List Effect)
        → P addr
        → IsServed P (settle fl cfg an policy fuel a breaks status c addr wrote fence p log)
    unfolding settle
    settle-IsServed breaks status c addr wrote fence p log h =
        if-IsServed P breaks _ _ tt
          (if-IsServed P (not (nat_beq status status_idle)) _ _ (same P addr h) (same P addr h))

    on_response-IsServed :
        (response : Option TxStatus) (breaks : Bool) (c : ℕ) (addr : String) (wrote : Bool)
        (fence : ℕ) (q : State × List Effect)
        → P addr
        → IsServed P (on_response fl cfg an policy fuel a response breaks c addr wrote fence q)
    on_response-IsServed none breaks c addr wrote fence q h = tt
    on_response-IsServed (some status) breaks c addr wrote fence (p, log) h =
        settle-IsServed breaks status c addr wrote fence p log h

    respond-IsServed :
        (breaks : Bool) (c : ℕ) (addr : String) (routed : Option String) (fp : String)
        (wrote : Bool) (fence : ℕ) (p : State) (log : List Effect)
        → P addr
        → IsServed P (respond fl cfg an policy fuel a breaks c addr routed fp wrote fence p log)
    unfolding respond
    respond-IsServed breaks c addr routed fp wrote fence p log h =
        on_response-IsServed a.response breaks c addr wrote fence _ h

    on_dispatched-IsServed :
        (wrote : Bool) (fence : ℕ) (fp : String) (o : Option (Dispatched State))
        → ((c : ℕ) (addr : String) (routed : Option String) (p : State) (log : List Effect)
            → o ≡ some (sent c addr routed p log)
            → P addr)
        → IsServed P (on_dispatched fl cfg an policy fuel a wrote fence fp o)
    on_dispatched-IsServed wrote fence fp none h = tt
    on_dispatched-IsServed wrote fence fp (some (sent c addr routed p log)) h =
        respond-IsServed false c addr routed fp wrote fence p log (h c addr routed p log refl)
    on_dispatched-IsServed wrote fence fp (some (refused p log)) h = tt
    on_dispatched-IsServed wrote fence fp (some panicked) h = tt

    extended-IsServed : (p : State) → IsServed P (extended fl cfg an policy fuel a p none)
    unfolding extended extended_on
    extended-IsServed p =
        elim a.acquired
          as (λ o. IsServed P (elim o [
            | none ↦ ended true p []
            | some c ↦ extended_on fl cfg an policy fuel a p c cfg.primary (took cfg.primary c ∷ [])
          ])) [ none ↦ tt | some c ↦ if-IsServed P a.writes _ _ tt tt ]

  -- The primary, or a replica that may serve a read at the fence, by the snapshot of some round.
  abbrev pub Allowed : Answers fl.F → ℕ → String → Type 0
  Allowed a fence addr =
      (addr ≡ cfg.primary)
      ⊎ ((i : ℕ) × (tried : List String) × Serves fl cfg fence tried (a.rounds i).snapshot addr)

  module _ (picks : Picks fl.F policy) (all : List String) (enough : length all < fuel)
      (a : Answers fl.F)
      (known : (i : ℕ) → All (λ (s : Status fl.F). OneOf s.addr all) (a.rounds i).snapshot) where
    Landed-Allowed :
        (fence : ℕ) (fp : String) (c : ℕ) (addr : String) (routed : Option String) (p : State)
        (log : List Effect)
        → Landed fl cfg policy a.rounds fence fp (some (sent c addr routed p log))
        → Allowed a fence addr
    Landed-Allowed fence fp c addr none p log h = inl h
    Landed-Allowed fence fp c addr (some target) p log h = inr (h.1, h.2, h.3)

    start_query-IsServed :
        (class : Class) (breaks : Bool) (fp : String) (wrote : Bool) (fence : ℕ) (p : State)
        → IsServed
            (Allowed a fence)
            (start_query fl cfg an policy fuel a class breaks fp wrote fence p)
    unfolding start_query write_query
    start_query-IsServed read breaks fp wrote fence p =
        on_dispatched-IsServed (Allowed a fence) a wrote fence fp _ λ c addr routed q log e.
          Landed-Allowed fence fp c addr routed q log (
            subst (Landed fl cfg policy a.rounds fence fp) e
              (dispatch_read-Landed fl cfg policy a.rounds fence fp picks all known fuel p enough))
    start_query-IsServed write breaks fp wrote fence p =
        elim a.acquired
          as (λ o. IsServed (Allowed a fence) (elim o [
            | none ↦ ended true p []
            | some c ↦
                write_query fl cfg an policy fuel a true breaks c cfg.primary wrote fence p
                  (took cfg.primary c ∷ [])
          ])) [
            | none ↦ tt
            | some c ↦
                if-IsServed (Allowed a fence) a.writes _ _
                  (respond-IsServed (Allowed a fence) a breaks c cfg.primary none "" _ fence p
                    (took cfg.primary c ∷ []) (inl refl))
                  tt
          ]

    -- A round that starts with no connection held, whatever the client asks for, is answered by the
    -- primary or by a replica that may serve a read at the fence of the session.
    pub turn-IsServed :
        (st : Routing State)
        → st.held ≡ none
        → IsServed (Allowed a st.fence) (turn fl cfg an policy fuel st a)
    unfolding turn
    turn-IsServed st free = rw free (go a.message)
      where
        go :
            (m : Option (ℕ × List ℕ))
            → IsServed (Allowed a st.fence) (elim m [
              | none ↦ ended false st.policy (drop_held none [])
              | some (kind, full) ↦
                  if nat_beq kind b'X'
                  then ended false st.policy (drop_held none [])
                  else if not (nat_beq kind b'Q')
                  then extended fl cfg an policy fuel a st.policy none
                  else on_query fl cfg an policy fuel a
                      (record st { held = none })
                      (an.text (query_string full))
            ])
        go none = tt
        go (some (kind, full)) = if-IsServed (Allowed a st.fence) (nat_beq kind b'X') _ _ tt (
            if-IsServed (Allowed a st.fence) (not (nat_beq kind b'Q')) _ _
              (extended-IsServed (Allowed a st.fence) a st.policy)
              (start_query-IsServed _ _ _ st.wrote_this_tx st.fence st.policy))
