-- ===== src/Session/Routing/Conserved.antt =====
-- serveRouting neither leaks a connection nor a slot of the policy.
use pgpilot.Base.{
  ℕ, ◌+◌, ◌<◌, ◌≡◌, refl, not, String, Bool, true, false, List, [], ◌∷◌, ◌++◌, Option, none, some,
  arith, length, All, if◌then◌else◌, nat_beq, string_eq,
}
use pgpilot.Base.Float.{Float64}
use pgpilot.Registry.State.{Status}
use pgpilot.Router.Policy.{Policy, OneOf, Picks}
use pgpilot.Sql.Classify.{Class, read, write}
use pgpilot.Session.Select.{Fencing}
use pgpilot.Session.Dispatch.{Effect, took, Dispatched, sent, refused, panicked}
use pgpilot.Session.Dispatch.Log.{
  takes, given_back, one_if, chosen-append, released-append, takes-append, given_back-append,
}
use pgpilot.Session.Dispatch.Failover.{
  Balanced, dispatch_read-Balanced, Landed, dispatch_read-Landed,
}
use pgpilot.Session.Messages.{query_string}
use pgpilot.Session.Routing.{
  Analysis, Answers, Routing, Turn, next, ended, stuck, drop_held, write_query, on_dispatched,
  start_query, query, extended, on_query, turn, then_run, serve_routing, is_write,
}
use pgpilot.Session.Routing.Steps.{
  in_hand, Released, Keeps, if-Keeps, drop_held-Keeps, respond-Keeps, write_query-Keeps,
  extended-Keeps,
}

module _ (fl : Float64) (cfg : Fencing) (an : Analysis) (policy : Policy fl.F) (fuel : ℕ) where
  open policy use {State}

  -- The snapshots of a round name only addresses of one list.
  abbrev pub Known : List String → Answers fl.F → Type 0
  Known all a = (i : ℕ) → All (λ (st : Status fl.F). OneOf st.addr all) (a.rounds i).snapshot

  -- The fuel is more than that list is long; `x` and `y` are the address and the connection that are
  -- counted.
  module _ (picks : Picks fl.F policy) (all : List String) (enough : length all < fuel) (x : String)
      (y : ℕ) where
    on_dispatched-Keeps :
        (a : Answers fl.F) (wrote : Bool) (fence : ℕ) (fp : String) (o : Option (Dispatched State))
        → Balanced o
        → Landed fl cfg policy a.rounds fence fp o
        → Keeps x y 0 (on_dispatched fl cfg an policy fuel a wrote fence fp o)
    on_dispatched-Keeps a wrote fence fp none k l = l
    on_dispatched-Keeps a wrote fence fp (some (sent c addr routed p log)) k l =
        respond-Keeps x y fl cfg an policy fuel 0 a false c addr routed fp wrote fence p log
          (omega (arith, k.1 x y)) k.0
    on_dispatched-Keeps a wrote fence fp (some (refused p log)) k l = (omega (arith, k.1 x y), k.0)
    on_dispatched-Keeps a wrote fence fp (some panicked) k l = l

    start_query-Keeps :
        (a : Answers fl.F) (class : Class) (breaks : Bool) (fp : String) (wrote : Bool) (fence : ℕ)
        (p : State)
        → Known all a
        → Keeps x y 0 (start_query fl cfg an policy fuel a class breaks fp wrote fence p)
    unfolding start_query
    start_query-Keeps a read breaks fp wrote fence p known =
        on_dispatched-Keeps a wrote fence fp _
          (dispatch_read-Balanced fl cfg policy a.rounds fence fp fuel p)
          (dispatch_read-Landed fl cfg policy a.rounds fence fp picks all known fuel p enough)
    start_query-Keeps a write breaks fp wrote fence p known =
        elim a.acquired
          as (λ o. Keeps x y 0 (elim o [
            | none ↦ ended true p []
            | some c ↦
                write_query fl cfg an policy fuel a true breaks c cfg.primary wrote fence p
                  (took cfg.primary c ∷ [])
          ])) [
            | none ↦ (refl, λ b. refl)
            | some c ↦
                write_query-Keeps x y fl cfg an policy fuel 0 a true breaks c cfg.primary wrote
                  fence p (took cfg.primary c ∷ []) (omega arith) λ b. refl
          ]

    query-Keeps :
        (a : Answers fl.F) (st : Routing State) (class : Class) (breaks : Bool) (fp : String)
        (held : Option (ℕ × String))
        → Known all a
        → Keeps x y (in_hand x y held) (query fl cfg an policy fuel a st class breaks fp held)
    query-Keeps a st class breaks fp none known =
        start_query-Keeps a class breaks fp st.wrote_this_tx st.fence st.policy known
    query-Keeps a st class breaks fp (some (c, addr)) known =
        write_query-Keeps x y fl cfg an policy fuel (one_if x y addr c) a (is_write class) breaks c
          addr st.wrote_this_tx st.fence st.policy [] (omega arith) λ b. refl

    turn-Keeps :
        (st : Routing State) (a : Answers fl.F)
        → Known all a
        → Keeps x y (in_hand x y st.held) (turn fl cfg an policy fuel st a)
    unfolding turn
    turn-Keeps st a known = go a.message
      where
        go :
            (m : Option (ℕ × List ℕ))
            → Keeps x y (in_hand x y st.held) (elim m [
              | none ↦ ended false st.policy (drop_held st.held [])
              | some (kind, full) ↦
                  if nat_beq kind b'X'
                  then ended false st.policy (drop_held st.held [])
                  else if not (nat_beq kind b'Q')
                  then extended fl cfg an policy fuel a st.policy st.held
                  else on_query fl cfg an policy fuel a st (an.text (query_string full))
            ])
        go none = drop_held-Keeps x y st.held st.policy
        go (some (kind, full)) =
            let sql = an.text (query_string full) in
            if-Keeps x y _ _ _ (nat_beq kind b'X') (drop_held-Keeps x y st.held st.policy) (
              if-Keeps x y _ _ _ (not (nat_beq kind b'Q'))
                (extended-Keeps x y fl cfg an policy fuel a st.policy st.held)
                (query-Keeps a st _ _ _ st.held known))

    Rest : List (Answers fl.F) → Type 0
    Rest answers =
        (st : Routing State) (log : List Effect)
        → All (Known all) answers
        → takes x y log ≡ given_back x y log + in_hand x y st.held
        → Released log
        → Keeps x y 0 (serve_routing fl cfg an policy fuel answers st log)

    then_run-Keeps :
        (t : Turn State) (n : ℕ) (log : List Effect) (rest : List (Answers fl.F))
        → Keeps x y n t
        → takes x y log ≡ given_back x y log + n
        → Released log
        → All (Known all) rest
        → Rest rest
        → Keeps x y 0
            (then_run fl cfg an policy fuel t log (serve_routing fl cfg an policy fuel rest))
    unfolding Rest
    then_run-Keeps (next st' l) n log rest k h r known ih =
        ih st' (l ++ log) known
          (omega (arith, k.0, h, takes-append x y l log, given_back-append x y l log))
          λ b. omega (arith, k.1 b, r b, chosen-append b l log, released-append b l log)
    then_run-Keeps (ended e p l) n log rest k h r known ih = (
      omega (arith, k.0, h, takes-append x y l log, given_back-append x y l log),
      λ b. omega (arith, k.1 b, r b, chosen-append b l log, released-append b l log),
    )
    then_run-Keeps stuck n log rest k h r known ih = k

    serve_routing-Keeps : (answers : List (Answers fl.F)) → Rest answers
    unfolding Rest serve_routing
    serve_routing-Keeps [] st log known h r = (omega (arith, h), r)
    serve_routing-Keeps (a ∷ rest) st log known h r =
        then_run-Keeps (turn fl cfg an policy fuel st a) (in_hand x y st.held) log rest
          (turn-Keeps st a known.0) h r known.1 (serve_routing-Keeps rest)

  -- Over a whole session that starts with empty hands, whatever the backends, the pools and the client
  -- answer: the loop is never stuck, every slot that the policy gave has been released, and each
  -- connection has been given back at its address as often as it was acquired there, but for the one
  -- that the session still holds.
  pub serve_routing-Conserves :
      (picks : Picks fl.F policy) (all : List String) (enough : length all < fuel)
      (answers : List (Answers fl.F)) (st : Routing State)
      → All (Known all) answers
      → st.held ≡ none
      → (addr : String) (c : ℕ) → Keeps addr c 0 (serve_routing fl cfg an policy fuel answers st [])
  unfolding Rest
  serve_routing-Conserves picks all enough answers st known free addr c =
      serve_routing-Keeps picks all enough addr c answers st [] known (rw free refl) λ b. refl
