-- ===== src/Session/Routing/Fence.antt =====
-- The write fence of serveRouting: it never goes back, and reads after a committed write see it.
use pgpilot.Base.{
  ℕ, ◌≤◌, ◌&&◌, not, String, Bool, true, false, List, [], ◌∷◌, ◌++◌, Option, none, some, arith,
  if◌then◌else◌, nat_beq, ◌==◌, string_eq,
}
use pgpilot.Base.Float.{Float64}
use pgpilot.Protocol.TxStatus.{TxStatus, status_idle}
use pgpilot.Router.Policy.{Policy}
use pgpilot.Sql.Classify.{Class, read, write}
use pgpilot.Session.Select.{Fencing}
use pgpilot.Session.Dispatch.{Effect, took, Dispatched, sent, refused, panicked, dispatch_read}
use pgpilot.Session.Messages.{query_string}
use pgpilot.Session.Routing.{
  Analysis, Answers, Routing, Turn, next, ended, stuck, drop_held, release_routed, settle, advanced,
  on_response, respond, write_query, on_dispatched, start_query, query, extended_on, extended,
  on_query, turn, then_run, serve_routing, is_write,
}

-- If the session goes on, its fence is at least this.
abbrev pub Reaches : {S : Type 0} → ℕ → Turn S → Type 0
Reaches n (next st log) = n ≤ st.fence
Reaches n (ended r p log) = Unit
Reaches n stuck = Unit

advanced-le : (n : ℕ) (lsn : Option ℕ) → n ≤ advanced n lsn
unfolding advanced
advanced-le n none = omega arith
advanced-le n (some l) = ground arith

if-Reaches :
    {S : Type 0} (t u : Turn S) (n : ℕ) (b : Bool)
    → Reaches n t
    → Reaches n u
    → Reaches n (if b then t else u)
if-Reaches t u n true x y = x
if-Reaches t u n false x y = y

Reaches-le : {S : Type 0} (m n : ℕ) (t : Turn S) → m ≤ n → Reaches n t → Reaches m t
Reaches-le m n (next st log) h r = omega arith
Reaches-le m n (ended x p log) h r = tt
Reaches-le m n stuck h r = tt

module _ (fl : Float64) (cfg : Fencing) (an : Analysis) (policy : Policy fl.F) (fuel : ℕ) where
  open policy use {State}

  settle-Reaches :
      (a : Answers fl.F) (breaks : Bool) (status : TxStatus) (c : ℕ) (addr : String) (wrote : Bool)
      (fence : ℕ) (p : State) (log : List Effect)
      → Reaches fence (settle fl cfg an policy fuel a breaks status c addr wrote fence p log)
  unfolding settle
  settle-Reaches a true status c addr wrote fence p log = tt
  settle-Reaches a false status c addr wrote fence p log =
      if-Reaches _ _ fence (not (nat_beq status status_idle)) (omega arith)
        (grew (addr == cfg.primary && wrote))
    where
      grew : (b : Bool) → fence ≤ (if b then advanced fence a.lsn else fence)
      grew true = advanced-le fence a.lsn
      grew false = omega arith

  respond-Reaches :
      (a : Answers fl.F) (breaks : Bool) (c : ℕ) (addr : String) (routed : Option String)
      (fp : String) (wrote : Bool) (fence : ℕ) (p : State) (log : List Effect)
      → Reaches fence (respond fl cfg an policy fuel a breaks c addr routed fp wrote fence p log)
  unfolding respond
  respond-Reaches a breaks c addr routed fp wrote fence p log =
      go a.response (release_routed fl cfg an policy fuel routed fp a.elapsed p log)
    where
      go :
          (o : Option TxStatus) (q : State × List Effect)
          → Reaches fence (on_response fl cfg an policy fuel a o breaks c addr wrote fence q)
      go none (p', l) = tt
      go (some s) (p', l) = settle-Reaches a breaks s c addr wrote fence p' l

  write_query-Reaches :
      (a : Answers fl.F) (class_write breaks : Bool) (c : ℕ) (addr : String) (wrote : Bool)
      (fence : ℕ) (p : State) (log : List Effect)
      → Reaches fence
          (write_query fl cfg an policy fuel a class_write breaks c addr wrote fence p log)
  unfolding write_query
  write_query-Reaches a class_write breaks c addr wrote fence p log =
      if-Reaches _ _ fence a.writes (respond-Reaches a breaks c addr none "" _ fence p log) tt

  start_query-Reaches :
      (a : Answers fl.F) (class : Class) (breaks : Bool) (fp : String) (wrote : Bool) (fence : ℕ)
      (p : State)
      → Reaches fence (start_query fl cfg an policy fuel a class breaks fp wrote fence p)
  unfolding start_query
  start_query-Reaches a read breaks fp wrote fence p =
      go (dispatch_read fl cfg policy a.rounds fence fp fuel p)
    where
      go :
          (o : Option (Dispatched State))
          → Reaches fence (on_dispatched fl cfg an policy fuel a wrote fence fp o)
      go none = tt
      go (some (sent c addr routed q log)) =
          respond-Reaches a false c addr routed fp wrote fence q log
      go (some (refused q log)) = tt
      go (some panicked) = tt
  start_query-Reaches a write breaks fp wrote fence p =
      elim a.acquired
        as (λ o. Reaches fence (elim o [
          | none ↦ ended true p []
          | some c ↦
              write_query fl cfg an policy fuel a true breaks c cfg.primary wrote fence p
                (took cfg.primary c ∷ [])
        ])) [
          | none ↦ tt
          | some c ↦
              write_query-Reaches a true breaks c cfg.primary wrote fence p
                (took cfg.primary c ∷ [])
        ]

  query-Reaches :
      (a : Answers fl.F) (st : Routing State) (class : Class) (breaks : Bool) (fp : String)
      (held : Option (ℕ × String))
      → Reaches st.fence (query fl cfg an policy fuel a st class breaks fp held)
  query-Reaches a st class breaks fp none =
      start_query-Reaches a class breaks fp st.wrote_this_tx st.fence st.policy
  query-Reaches a st class breaks fp (some (c, addr)) =
      write_query-Reaches a (is_write class) breaks c addr st.wrote_this_tx st.fence st.policy []

  extended-Reaches :
      (n : ℕ) (a : Answers fl.F) (p : State) (held : Option (ℕ × String))
      → Reaches n (extended fl cfg an policy fuel a p held)
  unfolding extended extended_on
  extended-Reaches n a p (some (c, addr)) = if-Reaches _ _ n a.writes tt tt
  extended-Reaches n a p none =
      elim a.acquired
        as (λ o. Reaches n (elim o [
          | none ↦ ended true p []
          | some c ↦ extended_on fl cfg an policy fuel a p c cfg.primary (took cfg.primary c ∷ [])
        ])) [ none ↦ tt | some c ↦ if-Reaches _ _ n a.writes tt tt ]

  turn-Reaches :
      (st : Routing State) (a : Answers fl.F) → Reaches st.fence (turn fl cfg an policy fuel st a)
  unfolding turn
  turn-Reaches st a = go a.message
    where
      go :
          (m : Option (ℕ × List ℕ))
          → Reaches st.fence (elim m [
            | none ↦ ended false st.policy (drop_held st.held [])
            | some (kind, full) ↦
                if nat_beq kind b'X'
                then ended false st.policy (drop_held st.held [])
                else if not (nat_beq kind b'Q')
                then extended fl cfg an policy fuel a st.policy st.held
                else on_query fl cfg an policy fuel a st (an.text (query_string full))
          ])
      go none = tt
      go (some (kind, full)) = if-Reaches _ _ _ (nat_beq kind b'X') tt (
          if-Reaches _ _ _ (not (nat_beq kind b'Q')) (extended-Reaches st.fence a st.policy st.held)
            (query-Reaches a st _ _ _ st.held))

  -- However long a session goes on, its fence never goes back.
  pub serve_routing-Reaches :
      (answers : List (Answers fl.F)) (st : Routing State) (log : List Effect)
      → Reaches st.fence (serve_routing fl cfg an policy fuel answers st log)
  unfolding serve_routing
  serve_routing-Reaches [] st log = omega arith
  serve_routing-Reaches (a ∷ rest) st log =
      go (turn fl cfg an policy fuel st a) (turn-Reaches st a) (serve_routing-Reaches rest)
    where
      go :
          (t : Turn State)
          → Reaches st.fence t
          → ((st' : Routing State) (l : List Effect)
              → Reaches st'.fence (serve_routing fl cfg an policy fuel rest st' l))
          → Reaches st.fence
              (then_run fl cfg an policy fuel t log (serve_routing fl cfg an policy fuel rest))
      go (next st' l) k ih = Reaches-le st.fence st'.fence _ k (ih st' (l ++ log))
      go (ended x p l) k ih = tt
      go stuck k ih = tt
