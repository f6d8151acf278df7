-- ===== src/Router/LeastInFlight/Minimal.antt =====
-- Choose takes the earliest of the candidates with the fewest outstanding reads.
use mathlib.Core.List.{append_assoc, append-nil}
use mathlib.Core.Path.{subst₂}
use pgpilot.Base.{
  ℕ, ◌≤◌, ◌<◌, ◌≡◌, refl, sym, ap, ◌∙◌, inl, inr, Bool-cases, String, List, [], ◌∷◌, ◌++◌, some,
  arith, if◌then◌else◌, ltb, ltb→lt, ltb-false, All, All-append, All-mono, subst, Bool, true, false,
}
use pgpilot.Router.Policy.{Candidate}
use pgpilot.Router.InFlight.{InFlight, in_flight, begin_read}
use pgpilot.Router.LeastInFlight.{least, choose}

module _ {F : Type 0} (m : InFlight) where
  -- Every earlier candidate has more reads in flight, and every later one at least as many.
  pub record IsFirstLeast (a : String) (cs : List (Candidate F)) : Type 0 where
    pub before : List (Candidate F)
    pub best : Candidate F
    pub after : List (Candidate F)
    pub splits : cs ≡ before ++ (best ∷ after)
    pub address : best.addr ≡ a
    pub above : All (λ c. in_flight m a < in_flight m c.addr) before
    pub least_of : All (λ c. in_flight m a ≤ in_flight m c.addr) after

  IsFirstLeast-le :
      (a : String) (cs : List (Candidate F))
      → IsFirstLeast a cs
      → All (λ c. in_flight m a ≤ in_flight m c.addr) cs
  IsFirstLeast-le a cs h = subst (All (λ c. in_flight m a ≤ in_flight m c.addr)) (sym h.splits) (
      All-append _ h.before (h.best ∷ h.after) (All-mono _ _ h.before (λ c lt. omega arith) h.above)
        (rw h.address (omega arith), h.least_of))

  -- One more candidate at the end of those seen.
  IsFirstLeast-extend :
      (a : String) (seen : List (Candidate F)) (c : Candidate F)
      → IsFirstLeast a seen
      → IsFirstLeast
          (if ltb (in_flight m c.addr) (in_flight m a) then c.addr else a)
          (seen ++ (c ∷ []))
  IsFirstLeast-extend a seen c h = elim (Bool-cases (ltb (in_flight m c.addr) (in_flight m a))) [
    | inl fewer ↦ rw fewer (record {
      before = seen;
      best = c;
      after = [];
      splits = refl;
      address = refl;
      above =
          All-mono _ _ seen (λ d le. omega (arith, ltb→lt _ _ fewer)) (IsFirstLeast-le a seen h);
      least_of = tt;
    })
    | inr more ↦ rw more (record {
      before = h.before;
      best = h.best;
      after = h.after ++ (c ∷ []);
      splits = ap (λ l. l ++ (c ∷ [])) h.splits ∙ append_assoc h.before (h.best ∷ h.after) (c ∷ []);
      address = h.address;
      above = h.above;
      least_of = All-append _ h.after (c ∷ []) h.least_of (ltb-false _ _ more, tt);
    })
  ]

  least-IsFirstLeast :
      (a : String) (seen cs : List (Candidate F))
      → IsFirstLeast a seen
      → IsFirstLeast (least m a (in_flight m a) cs) (seen ++ cs)
  unfolding least
  least-IsFirstLeast a seen [] h = subst (IsFirstLeast a) (sym (append-nil seen)) h
  least-IsFirstLeast a seen (c ∷ cs) h =
      subst₂
        (λ (n : ℕ) (l : List (Candidate F)).
          IsFirstLeast
            (least m (if ltb (in_flight m c.addr) (in_flight m a) then c.addr else a) n cs) l)
        (in_flight-if c.addr a (ltb (in_flight m c.addr) (in_flight m a)))
        (append_assoc seen (c ∷ []) cs)
        (least-IsFirstLeast (if ltb (in_flight m c.addr) (in_flight m a) then c.addr else a)
          (seen ++ (c ∷ [])) cs (IsFirstLeast-extend a seen c h))
    where
      in_flight-if :
          (x y : String) (b : Bool)
          → in_flight m (if b then x else y) ≡ (if b then in_flight m x else in_flight m y)
      in_flight-if x y true = refl
      in_flight-if x y false = refl

  -- Choose gives an address with the fewest outstanding reads, the earliest of those, and counts one
  -- more read there.
  pub choose-IsFirstLeast :
      (cs : List (Candidate F)) (fp a : String) (m' : InFlight)
      → choose m cs fp ≡ some (a, m')
      → IsFirstLeast a cs × (m' ≡ begin_read a m)
  unfolding choose
  choose-IsFirstLeast [] fp a m' h = cc
  choose-IsFirstLeast (c ∷ cs) fp a m' h =
      let first : String = least m c.addr (in_flight m c.addr) cs in
      let same : first ≡ a = ground arith in
      (
        subst (λ x. IsFirstLeast x (c ∷ cs)) same
            (least-IsFirstLeast c.addr (c ∷ []) cs (record {
              before = [];
              best = c;
              after = [];
              splits = refl;
              address = refl;
              above = tt;
              least_of = tt;
            })),
        ground arith,
      )
