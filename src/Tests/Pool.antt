-- ===== src/Tests/Pool.antt =====
-- Runs of internal/pool/pool.go.
use pgpilot.Base.{
  ℕ, ◌≡◌, refl, Bool, true, false, [], ◌∷◌, none, some, arith, if◌then◌else◌, nat_beq,
}
use pgpilot.Pool.State.{Config, Pool, try_acquire, release}
use pgpilot.Pool.System.{Sys, Reach, start, after_release, acquires, opens, here, after}
use pgpilot.Pool.System.Accounting.{Inv, start-Inv, Reach-Inv}
use pgpilot.Pool.System.Ownership.{IsOnePlace, Reach-IsOnePlace}
use pgpilot.Pool.System.Starvation.{release_serves_oldest}
use pgpilot.Pool.Alone.{Outcome, acquire, IsSound, acquire-IsSound}

abbrev config : Config
config = record { max_size = 1; max_waiters = 2; idle_timeout = 0 }

abbrev empty : Pool
empty = record { cfg = config; idle = []; opened = 0; waiters = []; closed = false }

-- One caller holds the only connection and another waits on channel 9.
abbrev contended : Sys
contended = record {
  pool = record { cfg = config; idle = []; opened = 1; waiters = 9 ∷ []; closed = false };
  opening = 0;
  checking = [];
  delivered = [];
  woken = [];
  lent = 0 ∷ [];
  gone = [];
  next = 1;
}

run : Reach (start empty) contended
unfolding try_acquire
run = after (after (after here (acquires 0 8)) (opens 0 refl)) (acquires 1 9)

Reach-Inv_example : Inv contended
Reach-Inv_example = Reach-Inv (start-Inv empty refl refl refl) run

empty-IsOnePlace : IsOnePlace (start empty)
empty-IsOnePlace c = ground arith

Reach-IsOnePlace_example : IsOnePlace contended
Reach-IsOnePlace_example = Reach-IsOnePlace empty-IsOnePlace run

release_serves_oldest_run :
    let t = after_release contended 0 (release contended.pool 0 5) in
    (t.delivered ≡ (9, 0) ∷ []) × (t.pool.waiters ≡ []) × (t.pool.idle ≡ []) × (t.pool.opened ≡ 1)
release_serves_oldest_run = release_serves_oldest contended 0 5 9 [] Reach-Inv_example refl

-- Connection 3 has failed its check, connection 4 passes.
abbrev ping : ℕ → Bool
ping c = if nat_beq c 3 then false else true

abbrev rested : Pool
rested = record {
  cfg = record { max_size = 5; max_waiters = 0; idle_timeout = 100 };
  idle = (record { conn = 3; idle_since = 40 }) ∷ (record { conn = 4; idle_since = 20 }) ∷ [];
  opened = 2;
  waiters = [];
  closed = false;
}

acquire-IsSound_example :
    (r : Pool × Outcome) × (acquire none ping 50 7 3 rested ≡ some r)
    × IsSound none ping 50 7 rested.cfg rested.idle r.1
acquire-IsSound_example = acquire-IsSound none ping 50 7 3 rested (omega arith)
