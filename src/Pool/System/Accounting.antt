-- ===== src/Pool/System/Accounting.antt =====
-- The counts of the pool are right in every interleaving, and its limits hold.
use pgpilot.Base.{
  ℕ, suc, ◌+◌, ◌≤◌, ◌≡◌, refl, ap, ◌∙◌, ◌⊎◌, inl, inr, Bool, true, false, List, [], ◌∷◌, ◌++◌, some,
  arith, length, length-append, Option-cases,
}
use pgpilot.Pool.State.{
  Config, IdleConn, Pool, free_slot, try_acquire, release, abandon, remove_waiter, close,
  close_when, reap_once, reaped, kept,
}
use pgpilot.Pool.System.{
  Sys, Step, Reach, start, after_acquire, after_release, after_close, after_reap, acquires, opens,
  open_fails, check_passes, check_fails, receives, wakes, abandons, abandons_late, releases,
  discards, closes_pool, reaps, here, after,
}

-- The connections that hold a slot: idle, being opened, checked, delivered or lent.
abbrev pub held : Sys → ℕ
held s = length s.pool.idle + s.opening + length s.checking + length s.delivered + length s.lent

pub record Inv (s : Sys) : Type 0 where
  -- `open` covers every connection, and counts nothing else until the pool is closed.
  pub covered : held s ≤ s.pool.opened
  pub accounted : s.pool.closed ≡ false → s.pool.opened ≡ held s
  -- Never more than MaxSize are open.
  pub bounded : s.pool.opened ≤ s.pool.cfg.max_size
  pub queue_bounded :
      (s.pool.cfg.max_waiters ≡ 0) ⊎ (length s.pool.waiters ≤ s.pool.cfg.max_waiters)
  -- Nobody waits while a connection is idle.
  pub fair : (s.pool.idle ≡ []) ⊎ (s.pool.waiters ≡ [])
  -- A closed pool holds nothing and nobody.
  pub drained : s.pool.closed ≡ true → (s.pool.idle ≡ []) × (s.pool.waiters ≡ [])

pub length-middle :
    {A : Type 0} (xs : List A) (x : A) (ys : List A) (l : List A)
    → l ≡ xs ++ (x ∷ ys)
    → length l ≡ suc (length (xs ++ ys))
length-middle {A} xs x ys l e =
    ap (λ (l : List A). length l) e ∙ omega (arith, length-append xs (x ∷ ys), length-append xs ys)

length-reaped :
    (cfg : Config) (now : ℕ) (ics : List IdleConn)
    → length (reaped cfg now ics) + length (kept cfg now ics) ≡ length ics
unfolding reaped kept
length-reaped cfg now [] = omega arith
length-reaped cfg now (ic ∷ ics) = ground (arith, length-reaped cfg now ics)

remove_waiter-length :
    (w : ℕ) (ws vs : List ℕ) → remove_waiter w ws ≡ some vs → length ws ≡ suc (length vs)
unfolding remove_waiter
remove_waiter-length w [] vs h = absurd (cc h)
remove_waiter-length w (x ∷ xs) vs h = elim (Option-cases (remove_waiter w xs)) [
  | inl e ↦ ground arith
  | inr (ys, e) ↦ ground (arith, remove_waiter-length w xs ys)
]

acquires-Inv : (s : Sys) (now w : ℕ) → Inv s → Inv (after_acquire s (try_acquire s.pool now w))
unfolding try_acquire
acquires-Inv s now w v = ground (arith, length-append s.pool.waiters (w ∷ []))

release-Inv :
    (s : Sys) (c now : ℕ)
    → suc (held s) ≤ s.pool.opened
    → (s.pool.closed ≡ false → s.pool.opened ≡ suc (held s))
    → s.pool.opened ≤ s.pool.cfg.max_size
    → (s.pool.cfg.max_waiters ≡ 0) ⊎ (length s.pool.waiters ≤ s.pool.cfg.max_waiters)
    → (s.pool.idle ≡ []) ⊎ (s.pool.waiters ≡ [])
    → (s.pool.closed ≡ true → (s.pool.idle ≡ []) × (s.pool.waiters ≡ []))
    → Inv (after_release s c (release s.pool c now))
unfolding release
release-Inv s c now a' a b q f d = ground arith

abandons-Inv : (s : Sys) (w : ℕ) → Inv s → Inv (record s { pool = (abandon s.pool w).0 })
unfolding abandon
abandons-Inv s w v = elim (Option-cases (remove_waiter w s.pool.waiters)) [
  | inl e ↦ rw (e, abandon) v
  | inr (vs, e) ↦
      rw (e, abandon)
        (let shorter : length s.pool.waiters ≡ suc (length vs) = remove_waiter-length w _ vs e in
          ground arith)
]

reaps-Inv : (s : Sys) (now : ℕ) → Inv s → Inv (after_reap s (reap_once s.pool now))
unfolding reap_once
reaps-Inv s now v = record {
  covered = omega (arith, v.covered, length-reaped s.pool.cfg now s.pool.idle);
  accounted = λ c. omega (arith, v.accounted c, length-reaped s.pool.cfg now s.pool.idle);
  bounded = omega (arith, v.bounded);
  queue_bounded = v.queue_bounded;
  fair = fair v.fair;
  drained = λ c. (none_kept (v.drained c).0, (v.drained c).1);
}
  where
    none_kept : s.pool.idle ≡ [] → kept s.pool.cfg now s.pool.idle ≡ []
    none_kept e = rw e (unfold kept in refl)

    fair :
        (s.pool.idle ≡ []) ⊎ (s.pool.waiters ≡ [])
        → (kept s.pool.cfg now s.pool.idle ≡ []) ⊎ (s.pool.waiters ≡ [])
    fair (inl e) = inl (none_kept e)
    fair (inr e) = inr e

closes-Inv : (s : Sys) → Inv s → Inv (after_close s (close s.pool))
unfolding close
closes-Inv s v = go s.pool.closed
  where
    go : (b : Bool) → Inv (after_close s (close_when b s.pool))
    go true = v
    go false = record {
      covered = omega (arith, v.covered);
      accounted = λ e. absurd (cc e);
      bounded = v.bounded;
      queue_bounded = inr (omega arith);
      fair = inl refl;
      drained = λ e. (refl, refl);
    }

-- Each step keeps the invariant.
Step-Inv : {s t : Sys} → Step s t → Inv s → Inv t
unfolding free_slot
Step-Inv {s} (acquires now w) v = acquires-Inv s now w v
Step-Inv (opens n e) v = ground arith
Step-Inv (open_fails n e) v = ground arith
Step-Inv (check_passes xs c ys e) v = ground (arith, length-middle xs c ys _ e)
Step-Inv (check_fails xs c ys e) v = ground (arith, length-middle xs c ys _ e)
Step-Inv (receives xs w c ys e) v = ground (arith, length-middle xs (w, c) ys _ e)
Step-Inv (wakes xs w ys e) v = ground arith
Step-Inv {s} (abandons w) v = abandons-Inv s w v
Step-Inv {s} (abandons_late xs w c now ys e) v =
    release-Inv (record s { delivered = xs ++ ys }) c now
      (omega (arith, v.covered, length-middle xs (w, c) ys _ e))
      (λ k. omega (arith, v.accounted k, length-middle xs (w, c) ys _ e)) v.bounded v.queue_bounded
      v.fair v.drained
Step-Inv {s} (releases xs c now ys e) v =
    release-Inv (record s { lent = xs ++ ys }) c now
      (omega (arith, v.covered, length-middle xs c ys _ e))
      (λ k. omega (arith, v.accounted k, length-middle xs c ys _ e)) v.bounded v.queue_bounded
      v.fair v.drained
Step-Inv (discards xs c ys e) v = ground (arith, length-middle xs c ys _ e)
Step-Inv {s} closes_pool v = closes-Inv s v
Step-Inv {s} (reaps now) v = reaps-Inv s now v

-- So it holds whatever the callers, the backends, the timers and the reaper do, in any order.
pub Reach-Inv : {s t : Sys} → Inv s → Reach s t → Inv t
Reach-Inv v here = v
Reach-Inv v (after r st) = Step-Inv st (Reach-Inv v r)

-- A pool fresh from New, with nothing opened.
pub start-Inv : (p : Pool) → p.idle ≡ [] → p.opened ≡ 0 → p.waiters ≡ [] → Inv (start p)
start-Inv p i o w = ground arith
