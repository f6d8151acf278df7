-- ===== src/Router/InFlight.antt =====
-- The counts of outstanding reads that the load-aware policies keep for each address. An address
-- that is absent has none.
use pgpilot.Base.{
  ℕ, ◌+◌, ◌-◌, ◌≡◌, refl, String, List, [], ◌∷◌, Option, none, some, arith, if◌then◌else◌, leb,
  ◌==◌, string_eq, count, erase, count-erase, Bool, true, false,
}
use pgpilot.Base.Dict.{lookup, insert, delete, lookup-insert, lookup-delete}

abbrev pub InFlight : Type 0
InFlight = List (String × ℕ)

abbrev pub or_zero : Option ℕ → ℕ
or_zero none = 0
or_zero (some n) = n

-- `p.inFlight[addr]`
unfoldable pub in_flight : InFlight → String → ℕ
in_flight m a = or_zero (lookup a m)

-- `p.inFlight[best]++`
unfoldable pub begin_read : String → InFlight → InFlight
begin_read a m = insert a (in_flight m a + 1) m

-- The decrement of Release, which drops an address whose count reaches zero.
unfoldable pub end_read : String → InFlight → InFlight
end_read a m = if leb (in_flight m a) 1 then delete a m else insert a (in_flight m a - 1) m

pub in_flight-begin_read :
    (a b : String) (m : InFlight)
    → in_flight (begin_read a m) b ≡ (if a == b then in_flight m a + 1 else in_flight m b)
unfolding in_flight begin_read
in_flight-begin_read a b m = rw (lookup-insert a b (in_flight m a + 1) m) (split (a == b))
  where
    split :
        (t : Bool)
        → or_zero (if t then some (in_flight m a + 1) else lookup b m)
          ≡ (if t then in_flight m a + 1 else or_zero (lookup b m))
    split true = refl
    split false = refl

pub in_flight-end_read :
    (a b : String) (m : InFlight)
    → in_flight (end_read a m) b ≡ (if a == b then in_flight m b - 1 else in_flight m b)
unfolding in_flight end_read
in_flight-end_read a b m =
    ground
      (arith, string_eq.beq_iff a b, lookup-insert a b (in_flight m a - 1) m, lookup-delete a b m)

-- Reads begun and ended, newest first.
pub data Event : Type 0 where
  began ended : String → Event

-- The counts after a history of events, and the reads that it leaves outstanding.
unfoldable pub track : List Event → InFlight
track [] = []
track (began a ∷ h) = begin_read a (track h)
track (ended a ∷ h) = end_read a (track h)

unfoldable pub outstanding : List Event → List String
outstanding [] = []
outstanding (began a ∷ h) = a ∷ outstanding h
outstanding (ended a ∷ h) = erase a (outstanding h)

-- The counts are exact: after any history, an address has as many reads in flight as the multiset
-- of outstanding reads holds.
pub in_flight-track :
    (h : List Event) (a : String) → in_flight (track h) a ≡ count a (outstanding h)
unfolding track outstanding
in_flight-track [] a = unfold in_flight lookup in refl
in_flight-track (began b ∷ h) a =
    ground (arith, string_eq.beq_iff b a, in_flight-begin_read b a (track h), in_flight-track h a)
in_flight-track (ended b ∷ h) a =
    ground (
      arith,
      in_flight-end_read b a (track h),
      in_flight-track h a,
      count-erase b a (outstanding h),
    )
