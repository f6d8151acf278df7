-- ===== src/Server/Drain.antt =====
-- The sessions of the server of internal/proxy/proxy.go, their numbers and their metrics.
use pgpilot.Base.{
  ℕ, suc, ◌+◌, ◌<◌, ◌≡◌, refl, ap, subst, ◌∙◌, true, false, List, [], ◌∷◌, ◌++◌, arith, length,
  length-append, All, All-mono,
}
use pgpilot.Base.Int.{pos, inc, dec}
use pgpilot.Metrics.{session_opened, session_closed}
use pgpilot.Server.{
  Server, serving, accept, open_session, close_session, Step, accepts, opens, closes, cancels,
  unlistens, breaks, returns, Reach, here, later,
}

-- Numbers that are less than those before them.
abbrev pub Falls : List ℕ → Type 0
Falls [] = Unit
Falls (n ∷ ns) = All (λ m. m < n) ns × Falls ns

-- The wait group counts the goroutines; the gauge counts the open sessions and the counters those
-- that were ever opened and closed; the numbers of the open sessions differ; and once Serve has
-- returned no goroutine is left.
pub record Accounted (s : Server) : Type 0 where
  pub waits : s.wg ≡ s.spawned + length s.live
  pub active : s.metrics.sessions_active ≡ pos (length s.live)
  pub counted : s.metrics.sessions_opened ≡ s.metrics.sessions_closed + length s.live
  pub numbered : s.metrics.sessions_opened ≡ s.sessions
  pub below : All (λ n. n < suc s.sessions) s.live
  pub apart : Falls s.live
  pub quiet : s.returned ≡ true → (s.accepting ≡ false) × (s.wg ≡ 0)

All-drop {κ} :
    (P : ℕ → Type κ) (before after : List ℕ) (n : ℕ)
    → All P (before ++ (n ∷ after))
    → All P (before ++ after)
All-drop P [] after n h = h.1
All-drop P (m ∷ ms) after n h = (h.0, All-drop P ms after n h.1)

Falls-drop :
    (before after : List ℕ) (n : ℕ) → Falls (before ++ (n ∷ after)) → Falls (before ++ after)
Falls-drop [] after n h = h.1
Falls-drop (m ∷ ms) after n h = (All-drop _ ms after n h.0, Falls-drop ms after n h.1)

open_session-Accounted :
    (s : Server) (n : ℕ) → s.spawned ≡ suc n → Accounted s → Accounted (open_session s)
unfolding open_session session_opened
open_session-Accounted s n e v = record {
  waits = omega (arith, v.waits, e);
  active = ap inc v.active;
  counted = omega (arith, v.counted);
  numbered = omega (arith, v.numbered);
  below = (omega arith, All-mono _ _ s.live (λ m h. omega (arith, h)) v.below);
  apart = (All-mono _ _ s.live (λ m h. omega (arith, h)) v.below, v.apart);
  quiet = λ r. absurd (omega (arith, (v.quiet r).1, v.waits, e));
}

close_session-Accounted :
    (s : Server) (before after : List ℕ) (id : ℕ)
    → s.live ≡ before ++ (id ∷ after)
    → Accounted s
    → Accounted (close_session before after s)
unfolding close_session session_closed
close_session-Accounted s before after id e v =
    let size : length s.live ≡ suc (length (before ++ after)) =
      omega (arith, ap length e, length-append before (id ∷ after), length-append before after) in
    record {
      waits = omega (arith, v.waits, size);
      active = ap dec (v.active ∙ ap pos size);
      counted = omega (arith, v.counted, size);
      numbered = v.numbered;
      below = All-drop _ before after id (subst (All (λ n. n < suc s.sessions)) e v.below);
      apart = Falls-drop before after id (subst Falls e v.apart);
      quiet = λ r. absurd (omega (arith, (v.quiet r).1, v.waits, size));
    }

Step-Accounted : (s t : Server) → Step s t → Accounted s → Accounted t
unfolding accept
Step-Accounted s t (accepts l a) v = record {
  waits = omega (arith, v.waits);
  active = v.active;
  counted = v.counted;
  numbered = v.numbered;
  below = v.below;
  apart = v.apart;
  quiet = λ r. let stopped = (v.quiet r).0 in absurd (cc (a, stopped));
}
Step-Accounted s t (opens n e) v = open_session-Accounted s n e v
Step-Accounted s t (closes before after id e) v = close_session-Accounted s before after id e v
Step-Accounted s t cancels v = record {
  waits = v.waits;
  active = v.active;
  counted = v.counted;
  numbered = v.numbered;
  below = v.below;
  apart = v.apart;
  quiet = v.quiet;
}
Step-Accounted s t (unlistens d) v = record {
  waits = v.waits;
  active = v.active;
  counted = v.counted;
  numbered = v.numbered;
  below = v.below;
  apart = v.apart;
  quiet = v.quiet;
}
Step-Accounted s t (breaks d a) v = record {
  waits = v.waits;
  active = v.active;
  counted = v.counted;
  numbered = v.numbered;
  below = v.below;
  apart = v.apart;
  quiet = λ r. (refl, (v.quiet r).1);
}
Step-Accounted s t (returns a w) v = record {
  waits = v.waits;
  active = v.active;
  counted = v.counted;
  numbered = v.numbered;
  below = v.below;
  apart = v.apart;
  quiet = λ r. (a, w);
}

-- In every interleaving of clients, sessions and the shutdown, the wait group counts exactly the
-- goroutines of sessions, the gauge of active sessions is the number of open ones and so never
-- negative, the open sessions have different numbers, and after Serve has returned none is left.
pub Reach-Accounted : (s : Server) → Reach serving s → Accounted s
Reach-Accounted s here = record {
  waits = omega arith;
  active = refl;
  counted = omega arith;
  numbered = omega arith;
  below = tt;
  apart = tt;
  quiet = λ r. absurd (cc r);
}
Reach-Accounted s (later {t} reach step) = Step-Accounted t s step (Reach-Accounted t reach)

length-zero : {A : Type 0} (xs : List A) → length xs ≡ 0 → xs ≡ []
length-zero [] h = refl
length-zero (x ∷ xs) h = absurd (omega (arith, h))

-- When Serve has returned, every session that was opened has been closed, and the gauge is at zero.
pub Reach-returned :
    (s : Server)
    → Reach serving s
    → s.returned ≡ true
    → (s.live ≡ [])
      × (s.metrics.sessions_active ≡ pos 0)
      × (s.metrics.sessions_opened ≡ s.metrics.sessions_closed)
Reach-returned s reach returned =
    let v = Reach-Accounted s reach in
    let none_left : length s.live ≡ 0 = omega (arith, (v.quiet returned).1, v.waits) in
    (length-zero s.live none_left, v.active ∙ ap pos none_left, omega (arith, v.counted, none_left))
