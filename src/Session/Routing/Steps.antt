-- ===== src/Session/Routing/Steps.antt =====
-- The parts of a round of serveRouting, and the connections and policy slots that each gives back.
use pgpilot.Base.{
  ℕ, ◌+◌, ◌≡◌, refl, not, String, Bool, true, false, List, [], ◌∷◌, Option, none, some, arith,
  if◌then◌else◌, nat_beq, string_eq,
}
use pgpilot.Base.Float.{Float64}
use pgpilot.Protocol.TxStatus.{TxStatus, status_idle}
use pgpilot.Router.Policy.{Policy}
use pgpilot.Session.Select.{Fencing}
use pgpilot.Session.Dispatch.{Effect, took}
use pgpilot.Session.Dispatch.Log.{chosen, released, takes, given_back, owes, one_if}
use pgpilot.Session.Routing.{
  Analysis, Answers, Turn, next, ended, stuck, drop_held, finish_backend_at, release_routed, settle,
  on_response, respond, write_query, extended_on, extended,
}

-- The connection at an address, if it is the one in a session's hands.
abbrev pub in_hand : String → ℕ → Option (ℕ × String) → ℕ
in_hand a c none = 0
in_hand a c (some (d, b)) = one_if a c b d

-- Every choice of the policy has been released.
abbrev pub Released : List Effect → Type 0
Released log = (b : String) → chosen b log ≡ released b log

-- For one connection at one address, starting with it `n` times in hand: as often as it was in hand or
-- acquired, it has been given back at that address or is held by the next state. No slot of the policy
-- is owed, and the loop is not stuck.
abbrev pub Keeps : String → ℕ → {S : Type 0} → ℕ → Turn S → Type 0
Keeps x y n (next st log) =
    (n + takes x y log ≡ given_back x y log + in_hand x y st.held) × Released log
Keeps x y n (ended r p log) = (n + takes x y log ≡ given_back x y log) × Released log
Keeps x y n stuck = ⊥

-- `x` and `y` are the address and the connection that are counted.
module _ (x : String) (y : ℕ) where
  pub if-Keeps :
      {S : Type 0} (t u : Turn S) (n : ℕ) (b : Bool)
      → Keeps x y n t
      → Keeps x y n u
      → Keeps x y n (if b then t else u)
  if-Keeps t u n true x y = x
  if-Keeps t u n false x y = y

  pub finish_backend_at-Keeps :
      {S : Type 0} (n c : ℕ) (a : String) (clean resets : Bool) (p : S) (log : List Effect)
      → n + takes x y log ≡ given_back x y log + one_if x y a c
      → Released log
      → Keeps x y n (ended false p (finish_backend_at c a clean resets log))
  unfolding finish_backend_at
  finish_backend_at-Keeps n c a false resets p log h r = (omega arith, r)
  finish_backend_at-Keeps n c a true false p log h r = (omega arith, r)
  finish_backend_at-Keeps n c a true true p log h r = (omega arith, r)

  pub drop_held-Keeps :
      {S : Type 0} (held : Option (ℕ × String)) (p : S)
      → Keeps x y (in_hand x y held) (ended false p (drop_held held []))
  unfolding drop_held
  drop_held-Keeps none p = (refl, λ b. refl)
  drop_held-Keeps (some (c, a)) p = (refl, λ b. refl)

  module _ (fl : Float64) (cfg : Fencing) (an : Analysis) (policy : Policy fl.F) (fuel : ℕ) where
    open policy use {State}

    pub settle-Keeps :
        (n : ℕ) (a : Answers fl.F) (breaks : Bool) (status : TxStatus) (c : ℕ) (addr : String)
        (wrote : Bool) (fence : ℕ) (p : State) (log : List Effect)
        → n + takes x y log ≡ given_back x y log + one_if x y addr c
        → Released log
        → Keeps x y n (settle fl cfg an policy fuel a breaks status c addr wrote fence p log)
    unfolding settle
    settle-Keeps n a true status c addr wrote fence p log h r =
        finish_backend_at-Keeps n c addr a.relayed_clean a.resets p log h r
    settle-Keeps n a false status c addr wrote fence p log h r =
        if-Keeps _ _ n (not (nat_beq status status_idle)) (h, r) (omega arith, r)

    pub on_response-Keeps :
        (n : ℕ) (a : Answers fl.F) (response : Option TxStatus) (breaks : Bool) (c : ℕ)
        (addr : String) (wrote : Bool) (fence : ℕ) (q : State × List Effect)
        → n + takes x y q.1 ≡ given_back x y q.1 + one_if x y addr c
        → Released q.1
        → Keeps x y n (on_response fl cfg an policy fuel a response breaks c addr wrote fence q)
    on_response-Keeps n a none breaks c addr wrote fence (p, log) h r = (omega arith, r)
    on_response-Keeps n a (some status) breaks c addr wrote fence (p, log) h r =
        settle-Keeps n a breaks status c addr wrote fence p log h r

    pub respond-Keeps :
        (n : ℕ) (a : Answers fl.F) (breaks : Bool) (c : ℕ) (addr : String) (routed : Option String)
        (fp : String) (wrote : Bool) (fence : ℕ) (p : State) (log : List Effect)
        → n + takes x y log ≡ given_back x y log + one_if x y addr c
        → ((b : String) → chosen b log ≡ released b log + owes b routed)
        → Keeps x y n (respond fl cfg an policy fuel a breaks c addr routed fp wrote fence p log)
    unfolding respond release_routed
    respond-Keeps n a breaks c addr none fp wrote fence p log h r =
        on_response-Keeps n a a.response breaks c addr wrote fence _ h λ b. omega (arith, r b)
    respond-Keeps n a breaks c addr (some routed) fp wrote fence p log h r =
        on_response-Keeps n a a.response breaks c addr wrote fence _ h λ b. omega (arith, r b)

    pub write_query-Keeps :
        (n : ℕ) (a : Answers fl.F) (class_write breaks : Bool) (c : ℕ) (addr : String)
        (wrote : Bool) (fence : ℕ) (p : State) (log : List Effect)
        → n + takes x y log ≡ given_back x y log + one_if x y addr c
        → Released log
        → Keeps x y n
            (write_query fl cfg an policy fuel a class_write breaks c addr wrote fence p log)
    unfolding write_query
    write_query-Keeps n a class_write breaks c addr wrote fence p log h r =
        if-Keeps _ _ n a.writes
          (respond-Keeps n a breaks c addr none "" _ fence p log h λ b. omega (arith, r b))
          (omega arith, r)

    pub extended_on-Keeps :
        (n : ℕ) (a : Answers fl.F) (p : State) (c : ℕ) (addr : String) (log : List Effect)
        → n + takes x y log ≡ given_back x y log + one_if x y addr c
        → Released log
        → Keeps x y n (extended_on fl cfg an policy fuel a p c addr log)
    unfolding extended_on
    extended_on-Keeps n a p c addr log h r =
        if-Keeps _ _ n a.writes
          (finish_backend_at-Keeps n c addr a.relayed_clean a.resets p log h r) (omega arith, r)

    pub extended-Keeps :
        (a : Answers fl.F) (p : State) (held : Option (ℕ × String))
        → Keeps x y (in_hand x y held) (extended fl cfg an policy fuel a p held)
    unfolding extended
    extended-Keeps a p (some (c, addr)) =
        extended_on-Keeps (one_if x y addr c) a p c addr [] (omega arith) λ b. refl
    extended-Keeps a p none =
        elim a.acquired
          as (λ o. Keeps x y 0 (elim o [
            | none ↦ ended true p []
            | some c ↦ extended_on fl cfg an policy fuel a p c cfg.primary (took cfg.primary c ∷ [])
          ])) [
            | none ↦ (refl, λ b. refl)
            | some c ↦
                extended_on-Keeps 0 a p c cfg.primary (took cfg.primary c ∷ []) (omega arith)
                  λ b. refl
          ]
