-- ===== src/Pool/State.antt =====
-- internal/pool/pool.go: the pool and each section of its methods that runs under the mutex, as a
-- function on the pool. Connections and waiting channels are numbers; times are arguments.
use pgpilot.Base.{
  ℕ, ◌+◌, ◌-◌, ◌&&◌, ◌++◌, Bool, true, false, List, [], ◌∷◌, Option, none, some, if◌then◌else◌, leb,
  ltb, nat_beq, length,
}
use pgpilot.Base.Int.{ℤ, is_positive, to_ℕ}

pub record Config : Type 0 where
  pub max_size : ℕ
  pub max_waiters : ℕ
  pub idle_timeout : ℕ

pub record IdleConn : Type 0 where
  pub conn : ℕ
  pub idle_since : ℕ

-- `idle` is the slice read from its end, so the connection that Acquire takes stands first;
-- `waiters` is the queue, the oldest first.
pub record Pool : Type 0 where
  pub cfg : Config
  pub idle : List IdleConn
  pub opened : ℕ
  pub waiters : List ℕ
  pub closed : Bool

-- New, on a MaxSize that may not be positive; the reaper is started elsewhere.
unfoldable pub new : ℤ → ℕ → ℕ → Bool → Option Pool
new max_size max_waiters idle_timeout has_new =
    if is_positive max_size && has_new
    then some (record {
      cfg = record {
        max_size = to_ℕ max_size;
        max_waiters = max_waiters;
        idle_timeout = idle_timeout;
      };
      idle = [];
      opened = 0;
      waiters = [];
      closed = false;
    })
    else none

-- `p.open--`, as Discard does it, and Acquire where a connection fails to open or its check.
unfoldable pub free_slot : Pool → Pool
free_slot p = record p { opened = p.opened - 1 }

-- What Acquire found in its locked section, and what it does next.
pub data Found : Type 0 where
  is_closed : Found
  expired : ℕ → Found
  reuse : ℕ → Found
  open_new : Found
  exhausted : Found
  waits : Found

-- Whether an idle connection has outlived the idle timeout.
unfoldable pub outlived : Config → ℕ → IdleConn → Bool
outlived cfg now ic = leb cfg.idle_timeout (now - ic.idle_since)

abbrev pub take_idle : Pool → ℕ → IdleConn → List IdleConn → Pool × Found
take_idle p now ic rest =
    if ltb 0 p.cfg.idle_timeout && outlived p.cfg now ic
    then (record p { idle = rest; opened = p.opened - 1 }, expired ic.conn)
    else (record p { idle = rest }, reuse ic.conn)

abbrev pub grow_or_wait : Pool → ℕ → Pool × Found
grow_or_wait p w =
    if ltb p.opened p.cfg.max_size
    then (record p { opened = p.opened + 1 }, open_new)
    else if ltb 0 p.cfg.max_waiters && leb p.cfg.max_waiters (length p.waiters)
    then (p, exhausted)
    else (record p { waiters = p.waiters ++ (w ∷ []) }, waits)

abbrev pub acquire_from : List IdleConn → Pool → ℕ → ℕ → Pool × Found
acquire_from [] p now w = grow_or_wait p w
acquire_from (ic ∷ rest) p now w = take_idle p now ic rest

-- One round of the loop of Acquire up to the unlock; `w` is the channel that it would wait on.
unfoldable pub try_acquire : Pool → ℕ → ℕ → Pool × Found
unfolding outlived
try_acquire p now w = if p.closed then (p, is_closed) else acquire_from p.idle p now w

-- What Release does with the connection.
pub data Released : Type 0 where
  closes : Released
  delivers : ℕ → Released
  keeps : Released

abbrev pub hand_over : List ℕ → Pool → ℕ → ℕ → Pool × Released
hand_over [] p c now = (record p { idle = (record { conn = c; idle_since = now }) ∷ p.idle }, keeps)
hand_over (w ∷ ws) p c now = (record p { waiters = ws }, delivers w)

unfoldable pub release : Pool → ℕ → ℕ → Pool × Released
unfolding free_slot
release p c now = if p.closed then (free_slot p, closes) else hand_over p.waiters p c now

abbrev pub after_head : ℕ → Option (List ℕ) → Option (List ℕ)
after_head x none = none
after_head x (some ys) = some (x ∷ ys)

-- The first occurrence of a channel removed from the queue; `none` if it is not there.
unfoldable pub remove_waiter : ℕ → List ℕ → Option (List ℕ)
remove_waiter w [] = none
remove_waiter w (x ∷ xs) = if nat_beq x w then some xs else after_head x (remove_waiter w xs)

abbrev pub with_waiters : Pool → Option (List ℕ) → Pool × Bool
with_waiters p none = (p, false)
with_waiters p (some ws) = (record p { waiters = ws }, true)

-- The locked section of abandonWaiter; `false` if a releaser or Close has already answered `w`.
unfoldable pub abandon : Pool → ℕ → Pool × Bool
unfolding remove_waiter
abandon p w = with_waiters p (remove_waiter w p.waiters)

abbrev pub close_when : Bool → Pool → Pool × List IdleConn × List ℕ
close_when true p = (p, [], [])
close_when false p = (record p { closed = true; idle = []; waiters = [] }, p.idle, p.waiters)

-- Close: the pool, the idle connections that it closes and the channels that it wakes.
unfoldable pub close : Pool → Pool × List IdleConn × List ℕ
close p = close_when p.closed p

-- The two halves of the idle list that reapOnce makes.
unfoldable pub reaped : Config → ℕ → List IdleConn → List IdleConn
unfolding outlived
reaped cfg now [] = []
reaped cfg now (ic ∷ ics) =
    let rest = reaped cfg now ics in if outlived cfg now ic then ic ∷ rest else rest

unfoldable pub kept : Config → ℕ → List IdleConn → List IdleConn
unfolding outlived
kept cfg now [] = []
kept cfg now (ic ∷ ics) =
    let rest = kept cfg now ics in if outlived cfg now ic then rest else ic ∷ rest

-- reapOnce: the pool and the connections that it closes.
unfoldable pub reap_once : Pool → ℕ → Pool × List IdleConn
unfolding reaped kept
reap_once p now = (
  record p { idle = kept p.cfg now p.idle; opened = p.opened - length (reaped p.cfg now p.idle) },
  reaped p.cfg now p.idle,
)

pub record Stats : Type 0 where
  pub total : ℕ
  pub idle : ℕ
  pub in_use : ℕ
  pub waiters : ℕ

unfoldable pub stats : Pool → Stats
stats p = record {
  total = p.opened;
  idle = length p.idle;
  in_use = p.opened - length p.idle;
  waiters = length p.waiters;
}
