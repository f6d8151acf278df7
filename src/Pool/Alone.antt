-- ===== src/Pool/Alone.antt =====
-- internal/pool/pool.go: the whole loop of Acquire by a caller that nobody else interferes with. What
-- cfg.New and cfg.Ping answer are arguments.
use mathlib.Core.Path.{subst₂}
use pgpilot.Base.{
  ℕ, zero, suc, ◌+◌, ◌-◌, ◌<◌, ◌≡◌, refl, ◌⊎◌, inl, inr, Bool, true, false, ◌&&◌, ap, ◌∙◌, ◌++◌,
  List, [], ◌∷◌, Option, none, some, arith, length, if◌then◌else◌, ltb,
}
use pgpilot.Pool.State.{
  Config, IdleConn, Pool, Found, is_closed, expired, reuse, open_new, exhausted, waits, free_slot,
  try_acquire, outlived, acquire_from,
}

-- How Acquire ends, or that it starts to wait.
pub data Outcome : Type 0 where
  got : ℕ → Outcome
  err_closed : Outcome
  err_new : Outcome
  err_exhausted : Outcome
  waiting : Outcome

module _ (new : Option ℕ) (ping : ℕ → Bool) (now w : ℕ) where
  abbrev pub opening : Option ℕ → Pool → Pool × Outcome
  opening none p = (free_slot p, err_new)
  opening (some c) p = (p, got c)

  -- checkReused: on failure the slot is freed and the loop goes on.
  abbrev pub checked : Bool → Pool → ℕ → (Pool → Option (Pool × Outcome)) → Option (Pool × Outcome)
  checked true p c again = some (p, got c)
  checked false p c again = again (free_slot p)

  abbrev pub on_found : Pool × Found → (Pool → Option (Pool × Outcome)) → Option (Pool × Outcome)
  on_found (p, is_closed) again = some (p, err_closed)
  on_found (p, expired c) again = again p
  on_found (p, reuse c) again = checked (ping c) p c again
  on_found (p, open_new) again = some (opening new p)
  on_found (p, exhausted) again = some (p, err_exhausted)
  on_found (p, waits) again = some (p, waiting)

  -- `none` is a run out of fuel.
  unfoldable pub acquire : ℕ → Pool → Option (Pool × Outcome)
  acquire zero p = none
  acquire (suc n) p = on_found (try_acquire p now w) (acquire n)

  -- What Acquire promises of the connection that it hands out: a fresh one, or one that was idle,
  -- for less than the timeout if there is one, and has passed its check.
  abbrev pub IsSound : Config → List IdleConn → Outcome → Type 0
  IsSound cfg ics (got c) =
      (new ≡ some c)
      ⊎ ((ic : IdleConn) × (before after : List IdleConn) × (ics ≡ before ++ (ic ∷ after))
          × (ic.conn ≡ c)
          × (ping c ≡ true)
          × ((ltb 0 cfg.idle_timeout && outlived cfg now ic) ≡ false))
  IsSound cfg ics _ = Unit

  -- What one locked section leaves.
  abbrev Left : Config → List IdleConn → Pool × Found → Type 0
  Left cfg ics (q, expired c) =
      (ic : IdleConn) × (rest : List IdleConn) × (ics ≡ ic ∷ rest) × (q.idle ≡ rest) × (q.cfg ≡ cfg)
  Left cfg ics (q, reuse c) =
      (ic : IdleConn) × (rest : List IdleConn) × (ics ≡ ic ∷ rest)
      × (q.idle ≡ rest)
      × (q.cfg ≡ cfg)
      × (ic.conn ≡ c)
      × ((ltb 0 cfg.idle_timeout && outlived cfg now ic) ≡ false)
  Left cfg ics (q, _) = Unit

  try_acquire-Left : (p : Pool) → Left p.cfg p.idle (try_acquire p now w)
  unfolding try_acquire
  try_acquire-Left p = go p.closed p.idle
    where
      idle :
          (ic : IdleConn) (rest : List IdleConn) (b : Bool)
          → (ltb 0 p.cfg.idle_timeout && outlived p.cfg now ic) ≡ b
          → Left p.cfg (ic ∷ rest) (
              if b
              then (record p { idle = rest; opened = p.opened - 1 }, expired ic.conn)
              else (record p { idle = rest }, reuse ic.conn))
      idle ic rest true e = (ic, rest, refl, refl, refl)
      idle ic rest false e = (ic, rest, refl, refl, refl, refl, e)

      full :
          (b : Bool)
          → Left p.cfg []
              (if b then (p, exhausted) else (record p { waiters = p.waiters ++ (w ∷ []) }, waits))
      full true = tt
      full false = tt

      grow :
          (b c : Bool)
          → Left p.cfg [] (
              if b
              then (record p { opened = p.opened + 1 }, open_new)
              else if c
              then (p, exhausted)
              else (record p { waiters = p.waiters ++ (w ∷ []) }, waits))
      grow true c = tt
      grow false c = full c

      go :
          (b : Bool) (ics : List IdleConn)
          → Left p.cfg ics (if b then (p, is_closed) else acquire_from ics p now w)
      go true ics = tt
      go false [] = grow _ _
      go false (ic ∷ rest) = idle ic rest _ refl

  abbrev Good : Config → List IdleConn → Option (Pool × Outcome) → Type 0
  Good cfg ics o = (r : Pool × Outcome) × (o ≡ some r) × IsSound cfg ics r.1

  IsSound-cons :
      (cfg : Config) (ic : IdleConn) (rest ics : List IdleConn) (o : Outcome)
      → ics ≡ ic ∷ rest
      → IsSound cfg rest o
      → IsSound cfg ics o
  IsSound-cons cfg ic rest ics (got c) e (inl h) = inl h
  IsSound-cons cfg ic rest ics (got c) e (inr (jc, before, after, s, x, y, z)) =
      inr (jc, ic ∷ before, after, e ∙ ap (λ l. ic ∷ l) s, x, y, z)
  IsSound-cons cfg ic rest ics _ e h = h

  -- Alone, Acquire ends after at most one round for each idle connection and one more, and what it
  -- hands out is sound.
  pub acquire-IsSound :
      (n : ℕ) (p : Pool)
      → length p.idle < n
      → (r : Pool × Outcome) × (acquire n p ≡ some r) × IsSound p.cfg p.idle r.1
  unfolding acquire free_slot
  acquire-IsSound zero p h = absurd (omega arith)
  acquire-IsSound (suc n) p h =
      go (try_acquire p now w) (try_acquire-Left p) (λ q k. acquire-IsSound n q k)
    where
      further :
          (q : Pool) (ic : IdleConn) (rest : List IdleConn) (o : Option (Pool × Outcome))
          → p.idle ≡ ic ∷ rest
          → q.idle ≡ rest
          → q.cfg ≡ p.cfg
          → Good q.cfg q.idle o
          → Good p.cfg p.idle o
      further q ic rest o s i k (r, e, sound) = (
        r,
        e,
        IsSound-cons p.cfg ic rest p.idle r.1 s
            (subst₂ (λ (c : Config) (l : List IdleConn). IsSound c l r.1) k i sound),
      )

      shorter :
          (q : Pool) (ic : IdleConn) (rest : List IdleConn)
          → p.idle ≡ ic ∷ rest
          → q.idle ≡ rest
          → length q.idle < n
      shorter q ic rest s i =
          omega
            (arith, ap (λ (l : List IdleConn). length l) s, ap (λ (l : List IdleConn). length l) i)

      opened : (o : Option ℕ) → new ≡ o → (q : Pool) → IsSound p.cfg p.idle (opening o q).1
      opened none e q = tt
      opened (some c) e q = inl e

      check :
          (b : Bool) (q : Pool) (c : ℕ) (ic : IdleConn) (rest : List IdleConn)
          → ping c ≡ b
          → p.idle ≡ ic ∷ rest
          → q.idle ≡ rest
          → q.cfg ≡ p.cfg
          → ic.conn ≡ c
          → (ltb 0 p.cfg.idle_timeout && outlived p.cfg now ic) ≡ false
          → ((q : Pool) → length q.idle < n → Good q.cfg q.idle (acquire n q))
          → Good p.cfg p.idle (checked b q c (acquire n))
      check true q c ic rest e s i k a f ih = ((q, got c), refl, inr (ic, [], rest, s, a, e, f))
      check false q c ic rest e s i k a f ih =
          further (free_slot q) ic rest _ s i k (ih (free_slot q) (shorter q ic rest s i))

      go :
          (r : Pool × Found)
          → Left p.cfg p.idle r
          → ((q : Pool) → length q.idle < n → Good q.cfg q.idle (acquire n q))
          → Good p.cfg p.idle (on_found r (acquire n))
      go (q, expired c) (ic, rest, s, i, k) ih =
          further q ic rest _ s i k (ih q (shorter q ic rest s i))
      go (q, reuse c) (ic, rest, s, i, k, a, f) ih = check (ping c) q c ic rest refl s i k a f ih
      go (q, is_closed) l ih = (_, refl, tt)
      go (q, open_new) l ih = (_, refl, opened new refl q)
      go (q, exhausted) l ih = (_, refl, tt)
      go (q, waits) l ih = (_, refl, tt)
