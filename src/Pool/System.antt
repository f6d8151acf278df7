-- ===== src/Pool/System.antt =====
-- The pool with everything around it that holds a connection, and the interleavings of its callers:
-- each step is one locked section of pool.go, or what a caller does between two of them.
pub mod Accounting
pub mod Ownership
pub mod Starvation
use pgpilot.Base.{ℕ, suc, ◌+◌, ◌≡◌, ◌++◌, Bool, true, false, List, [], ◌∷◌, map, length, nat_eq}
use pgpilot.Pool.State.{
  Config, IdleConn, Pool, Found, is_closed, expired, reuse, open_new, exhausted, waits, Released,
  closes, delivers, keeps, free_slot, try_acquire, release, abandon, close, reap_once,
}

-- `opening` callers run cfg.New; `checking` holds connections under cfg.Ping; `delivered` those in a
-- waiting channel's buffer, `woken` the channels that hold nil; `lent` those handed out; `gone` those
-- closed; `next` is the next connection to be opened.
pub record Sys : Type 0 where
  pub pool : Pool
  pub opening : ℕ
  pub checking : List ℕ
  pub delivered : List (ℕ × ℕ)
  pub woken : List ℕ
  pub lent : List ℕ
  pub gone : List ℕ
  pub next : ℕ

abbrev pub conns : List IdleConn → List ℕ
conns = map λ ic. ic.conn

abbrev pub mail : List (ℕ × ℕ) → List ℕ
mail = map λ m. m.1

abbrev pub start : Pool → Sys
start p = record {
  pool = p;
  opening = 0;
  checking = [];
  delivered = [];
  woken = [];
  lent = [];
  gone = [];
  next = 0;
}

-- What follows the locked section of Acquire.
abbrev pub after_acquire : Sys → Pool × Found → Sys
after_acquire s (p, is_closed) = record s { pool = p }
after_acquire s (p, expired c) = record s { pool = p; gone = c ∷ s.gone }
after_acquire s (p, reuse c) = record s { pool = p; checking = c ∷ s.checking }
after_acquire s (p, open_new) = record s { pool = p; opening = s.opening + 1 }
after_acquire s (p, exhausted) = record s { pool = p }
after_acquire s (p, waits) = record s { pool = p }

-- What follows Release of `c`.
abbrev pub after_release : Sys → ℕ → Pool × Released → Sys
after_release s c (p, closes) = record s { pool = p; gone = c ∷ s.gone }
after_release s c (p, delivers w) = record s { pool = p; delivered = (w, c) ∷ s.delivered }
after_release s c (p, keeps) = record s { pool = p }

abbrev pub after_close : Sys → Pool × List IdleConn × List ℕ → Sys
after_close s (p, ics, ws) = record s {
  pool = p;
  gone = conns ics ++ s.gone;
  woken = ws ++ s.woken;
}

abbrev pub after_reap : Sys → Pool × List IdleConn → Sys
after_reap s (p, ics) = record s { pool = p; gone = conns ics ++ s.gone }

pub data Step (s : Sys) : Sys → Type 0 where
  -- Acquire enters, or goes round its loop.
  acquires : (now w : ℕ) → Step s (after_acquire s (try_acquire s.pool now w))
  -- cfg.New returns a connection, or fails.
  opens :
      (n : ℕ)
      → s.opening ≡ suc n
      → Step s (record s { opening = n; lent = s.next ∷ s.lent; next = suc s.next })
  open_fails :
      (n : ℕ) → s.opening ≡ suc n → Step s (record s { pool = free_slot s.pool; opening = n })
  -- checkReused passes, as it always does without cfg.Ping, or fails.
  check_passes :
      (xs : List ℕ) (c : ℕ) (ys : List ℕ)
      → s.checking ≡ xs ++ (c ∷ ys)
      → Step s (record s { checking = xs ++ ys; lent = c ∷ s.lent })
  check_fails :
      (xs : List ℕ) (c : ℕ) (ys : List ℕ)
      → s.checking ≡ xs ++ (c ∷ ys)
      → Step s (record s { pool = free_slot s.pool; checking = xs ++ ys; gone = c ∷ s.gone })
  -- waitFor receives a connection, or nil.
  receives :
      (xs : List (ℕ × ℕ)) (w c : ℕ) (ys : List (ℕ × ℕ))
      → s.delivered ≡ xs ++ ((w, c) ∷ ys)
      → Step s (record s { delivered = xs ++ ys; checking = c ∷ s.checking })
  wakes :
      (xs : List ℕ) (w : ℕ) (ys : List ℕ)
      → s.woken ≡ xs ++ (w ∷ ys)
      → Step s (record s { woken = xs ++ ys })
  -- abandonWaiter, in time; or after a connection was delivered, which it releases.
  abandons : (w : ℕ) → Step s (record s { pool = (abandon s.pool w).0 })
  abandons_late :
      (xs : List (ℕ × ℕ)) (w c now : ℕ) (ys : List (ℕ × ℕ))
      → s.delivered ≡ xs ++ ((w, c) ∷ ys)
      → Step s (after_release (record s { delivered = xs ++ ys }) c (release s.pool c now))
  -- The caller returns a connection that it holds, exactly once.
  releases :
      (xs : List ℕ) (c now : ℕ) (ys : List ℕ)
      → s.lent ≡ xs ++ (c ∷ ys)
      → Step s (after_release (record s { lent = xs ++ ys }) c (release s.pool c now))
  discards :
      (xs : List ℕ) (c : ℕ) (ys : List ℕ)
      → s.lent ≡ xs ++ (c ∷ ys)
      → Step s (record s { pool = free_slot s.pool; lent = xs ++ ys; gone = c ∷ s.gone })
  closes_pool : Step s (after_close s (close s.pool))
  reaps : (now : ℕ) → Step s (after_reap s (reap_once s.pool now))

pub data Reach (s : Sys) : Sys → Type 0 where
  here : Reach s s
  after : {t u : Sys} → Reach s t → Step t u → Reach s u
