-- ===== src/Pool/System/Ownership.antt =====
-- No connection is lost, held twice or made up: each one that was ever opened is in one place.
use pgpilot.Base.{
  ℕ, ◌+◌, ◌≡◌, refl, sym, ap, ◌∙◌, Bool, true, false, List, [], ◌∷◌, ◌++◌, Option, none, some,
  arith, if◌then◌else◌, ltb, nat_eq, count, count-append,
}
use pgpilot.Pool.State.{
  Config, IdleConn, Pool, Found, is_closed, expired, reuse, open_new, exhausted, waits, Released,
  closes, delivers, keeps, free_slot, try_acquire, release, abandon, with_waiters, remove_waiter,
  close, close_when, reap_once, reaped, kept,
}
use pgpilot.Pool.System.{
  Sys, Step, Reach, conns, mail, after_acquire, after_release, after_close, after_reap, acquires,
  opens, open_fails, check_passes, check_fails, receives, wakes, abandons, abandons_late, releases,
  discards, closes_pool, reaps, here, after,
}

-- 1 for a connection that has been opened, with `next` the first that has not.
abbrev pub present : ℕ → ℕ → ℕ
present c next = if ltb c next then 1 else 0

-- In how many places a connection is.
abbrev pub copies : ℕ → Sys → ℕ
copies c s =
    count c (conns s.pool.idle)
    + count c s.checking
    + count c (mail s.delivered)
    + count c s.lent
    + count c s.gone

count-middle :
    (a : ℕ) (xs : List ℕ) (x : ℕ) (ys : List ℕ) (l : List ℕ)
    → l ≡ xs ++ (x ∷ ys)
    → count a l ≡ count a (x ∷ []) + count a (xs ++ ys)
count-middle a xs x ys l e =
    ap (count a) e ∙ omega (arith, count-append a xs (x ∷ ys), count-append a xs ys)

mail-append : (xs ys : List (ℕ × ℕ)) → mail (xs ++ ys) ≡ mail xs ++ mail ys
mail-append [] ys = refl
mail-append (x ∷ xs) ys = ap (λ l. x.1 ∷ l) (mail-append xs ys)

count-mail-middle :
    (a : ℕ) (xs : List (ℕ × ℕ)) (w x : ℕ) (ys l : List (ℕ × ℕ))
    → l ≡ xs ++ ((w, x) ∷ ys)
    → count a (mail l) ≡ count a (x ∷ []) + count a (mail (xs ++ ys))
count-mail-middle a xs w x ys l e =
    count-middle a (mail xs) x (mail ys) (mail l) (ap mail e ∙ mail-append xs ((w, x) ∷ ys))
    ∙ rw (mail-append xs ys) refl

count-reaped :
    (a : ℕ) (cfg : Config) (now : ℕ) (ics : List IdleConn)
    → count a (conns (reaped cfg now ics)) + count a (conns (kept cfg now ics))
      ≡ count a (conns ics)
unfolding reaped kept
count-reaped a cfg now [] = omega arith
count-reaped a cfg now (ic ∷ ics) = ground (arith, count-reaped a cfg now ics)

copies-acquires :
    (a : ℕ) (s : Sys) (now w : ℕ)
    → copies a (after_acquire s (try_acquire s.pool now w)) ≡ copies a s
unfolding try_acquire
copies-acquires a s now w = ground arith

copies-release :
    (a : ℕ) (s : Sys) (c now : ℕ)
    → copies a (after_release s c (release s.pool c now)) ≡ count a (c ∷ []) + copies a s
unfolding release
copies-release a s c now = ground arith

copies-close : (a : ℕ) (s : Sys) → copies a (after_close s (close s.pool)) ≡ copies a s
unfolding close
copies-close a s = go s.pool.closed
  where
    go : (b : Bool) → copies a (after_close s (close_when b s.pool)) ≡ copies a s
    go true = refl
    go false = omega (arith, count-append a (conns s.pool.idle) s.gone)

copies-reap :
    (a : ℕ) (s : Sys) (now : ℕ) → copies a (after_reap s (reap_once s.pool now)) ≡ copies a s
unfolding reap_once
copies-reap a s now = omega (
  arith,
  count-append a (conns (reaped s.pool.cfg now s.pool.idle)) s.gone,
  count-reaped a s.pool.cfg now s.pool.idle,
)

copies-abandons :
    (a : ℕ) (s : Sys) (w : ℕ) → copies a (record s { pool = (abandon s.pool w).0 }) ≡ copies a s
unfolding abandon
copies-abandons a s w = go (remove_waiter w s.pool.waiters)
  where
    go :
        (o : Option (List ℕ))
        → copies a (record s { pool = (with_waiters s.pool o).0 }) ≡ copies a s
    go none = refl
    go (some ws) = refl

next-acquire : (s : Sys) (r : Pool × Found) → (after_acquire s r).next ≡ s.next
next-acquire s (p, is_closed) = refl
next-acquire s (p, expired c) = refl
next-acquire s (p, reuse c) = refl
next-acquire s (p, open_new) = refl
next-acquire s (p, exhausted) = refl
next-acquire s (p, waits) = refl

next-release : (s : Sys) (c : ℕ) (r : Pool × Released) → (after_release s c r).next ≡ s.next
next-release s c (p, closes) = refl
next-release s c (p, delivers w) = refl
next-release s c (p, keeps) = refl

next-close : (s : Sys) (r : Pool × List IdleConn × List ℕ) → (after_close s r).next ≡ s.next
next-close s (p, ics, ws) = refl

same_next : (a : ℕ) {m n : ℕ} → m ≡ n → present a m ≡ present a n
same_next a e = ap (present a) e

moved : (x y c n : ℕ) → c + x ≡ y → y ≡ n → c + x ≡ n
moved x y c n p q = p ∙ q

-- Only a successful cfg.New makes a copy, one of a new connection.
abbrev pub IsOnePlace : Sys → Type 0
IsOnePlace s = (c : ℕ) → copies c s ≡ present c s.next

Step-IsOnePlace : {s t : Sys} → Step s t → IsOnePlace s → IsOnePlace t
unfolding free_slot
Step-IsOnePlace {s} (acquires now w) v a =
    copies-acquires a s now w ∙ v a ∙ same_next a (sym (next-acquire s (try_acquire s.pool now w)))
Step-IsOnePlace (opens n e) v a = ground (arith, v a)
Step-IsOnePlace (open_fails n e) v a = v a
Step-IsOnePlace (check_passes xs c ys e) v a = omega (arith, v a, count-middle a xs c ys _ e)
Step-IsOnePlace (check_fails xs c ys e) v a = omega (arith, v a, count-middle a xs c ys _ e)
Step-IsOnePlace (receives xs w c ys e) v a = omega (arith, v a, count-mail-middle a xs w c ys _ e)
Step-IsOnePlace (wakes xs w ys e) v a = v a
Step-IsOnePlace {s} (abandons w) v a = copies-abandons a s w ∙ v a
Step-IsOnePlace {s} (abandons_late xs w c now ys e) v a =
    copies-release a (record s { delivered = xs ++ ys }) c now
    ∙ moved (copies a (record s { delivered = xs ++ ys })) (copies a s) (count a (c ∷ [])) _
        (omega (arith, count-mail-middle a xs w c ys _ e)) (v a)
    ∙ same_next a (sym (next-release (record s { delivered = xs ++ ys }) c _))
Step-IsOnePlace {s} (releases xs c now ys e) v a =
    copies-release a (record s { lent = xs ++ ys }) c now
    ∙ moved (copies a (record s { lent = xs ++ ys })) (copies a s) (count a (c ∷ [])) _
        (omega (arith, count-middle a xs c ys _ e)) (v a)
    ∙ same_next a (sym (next-release (record s { lent = xs ++ ys }) c _))
Step-IsOnePlace (discards xs c ys e) v a = omega (arith, v a, count-middle a xs c ys _ e)
Step-IsOnePlace {s} closes_pool v a =
    copies-close a s ∙ v a ∙ same_next a (sym (next-close s (close s.pool)))
Step-IsOnePlace {s} (reaps now) v a = copies-reap a s now ∙ v a

-- In every interleaving, each connection opened so far is in exactly one place (idle, under its
-- check, in a waiter's channel, lent or closed), and no other is anywhere.
pub Reach-IsOnePlace : {s t : Sys} → IsOnePlace s → Reach s t → IsOnePlace t
Reach-IsOnePlace v here = v
Reach-IsOnePlace v (after r st) = Step-IsOnePlace st (Reach-IsOnePlace v r)
