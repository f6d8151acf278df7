-- ===== src/Session/Select/Fenced.antt =====
-- A read goes to a healthy replica that is fresh enough, or to the primary.
use pgpilot.Base.{
  ℕ, ◌≤◌, ◌≡◌, refl, ap, ◌∙◌, inl, inr, ◌⊎◌, String, Bool, true, false, List, [], ◌∷◌, ◌++◌, Option,
  some, arith, if◌then◌else◌, leb→le, ◌==◌, string_eq, contains, All, subst, sym,
}
use pgpilot.Base.Float.{Float64}
use pgpilot.Registry.State.{Status, replica}
use pgpilot.Router.Policy.{Candidate, Policy, addrs, OneOf, Picks}
use pgpilot.Session.Select.{
  Fencing, replica_eligible, is_candidate, candidates, to_candidate, routed, select_from,
  select_read_target,
}

module _ (fl : Float64) (cfg : Fencing) where
  open fl use {F, le, mul, of_nat, of_int}

  -- A backend of the snapshot that may serve a read under the fence.
  pub record Serves (fence : ℕ) (exclude : List String) (snapshot : List (Status F)) (a : String)
      : Type 0 where
    pub before : List (Status F)
    pub status : Status F
    pub after : List (Status F)
    pub splits : snapshot ≡ before ++ (status ∷ after)
    pub address : status.addr ≡ a
    pub is_a_replica : status.role ≡ replica
    pub is_healthy : status.healthy ≡ true
    pub not_tried : contains exclude a ≡ false
    pub eligible : replica_eligible fl cfg status fence ≡ true

  Serves-cons :
      (fence : ℕ) (exclude : List String) (st : Status F) (sts : List (Status F)) (a : String)
      → Serves fence exclude sts a
      → Serves fence exclude (st ∷ sts) a
  Serves-cons fence exclude st sts a v = record {
    before = st ∷ v.before;
    status = v.status;
    after = v.after;
    splits = ap (λ l. st ∷ l) v.splits;
    address = v.address;
    is_a_replica = v.is_a_replica;
    is_healthy = v.is_healthy;
    not_tried = v.not_tried;
    eligible = v.eligible;
  }

  is_candidate-Serves :
      (fence : ℕ) (exclude : List String) (st : Status F) (sts : List (Status F))
      → is_candidate fl cfg fence exclude st ≡ true
      → Serves fence exclude (st ∷ sts) st.addr
  unfolding is_candidate
  is_candidate-Serves fence exclude st sts h = record {
    before = [];
    status = st;
    after = sts;
    splits = refl;
    address = refl;
    is_a_replica = ground arith;
    is_healthy = ground arith;
    not_tried = ground arith;
    eligible = ground arith;
  }

  candidates-Serves :
      (fence : ℕ) (exclude : List String) (sts : List (Status F)) (a : String)
      → OneOf a (addrs (candidates fl cfg fence exclude sts))
      → Serves fence exclude sts a
  unfolding candidates
  candidates-Serves fence exclude [] a h = absurd h
  candidates-Serves fence exclude (st ∷ sts) a h =
      go (is_candidate fl cfg fence exclude st) refl (candidates-Serves fence exclude sts a) h
    where
      rest : List (Candidate F)
      rest = candidates fl cfg fence exclude sts

      go :
          (b : Bool)
          → is_candidate fl cfg fence exclude st ≡ b
          → (OneOf a (addrs rest) → Serves fence exclude sts a)
          → OneOf a (addrs (if b then to_candidate fl cfg st ∷ rest else rest))
          → Serves fence exclude (st ∷ sts) a
      go true e ih (inl same) =
          subst (Serves fence exclude (st ∷ sts)) same (is_candidate-Serves fence exclude st sts e)
      go true e ih (inr k) = Serves-cons fence exclude st sts a (ih k)
      go false e ih k = Serves-cons fence exclude st sts a (ih k)

  candidates-none :
      (fence : ℕ) (exclude : List String) (sts : List (Status F))
      → candidates fl cfg fence exclude sts ≡ []
      → All (λ st. is_candidate fl cfg fence exclude st ≡ false) sts
  unfolding candidates
  candidates-none fence exclude [] h = tt
  candidates-none fence exclude (st ∷ sts) h =
      go (is_candidate fl cfg fence exclude st) refl (candidates-none fence exclude sts) h
    where
      go :
          (b : Bool)
          → is_candidate fl cfg fence exclude st ≡ b
          → (candidates fl cfg fence exclude sts ≡ []
              → All (λ st. is_candidate fl cfg fence exclude st ≡ false) sts)
          → (if b
              then to_candidate fl cfg st ∷ candidates fl cfg fence exclude sts
              else candidates fl cfg fence exclude sts)
            ≡ []
          → All (λ st. is_candidate fl cfg fence exclude st ≡ false) (st ∷ sts)
      go true e ih k = absurd (cc k)
      go false e ih k = (e, ih k)

  -- Under strict fencing an eligible backend has replayed at least up to the fence.
  pub strict-le :
      (st : Status F) (fence : ℕ)
      → (cfg.mode == "relaxed") ≡ false
      → (cfg.mode == "bounded") ≡ false
      → replica_eligible fl cfg st fence ≡ true
      → fence ≤ st.lsn
  unfolding replica_eligible
  strict-le st fence r b h = leb→le fence st.lsn (rw (r, b) at h)

  module _ (policy : Policy F) (picks : Picks F policy) where
    -- How a selection ends: with a backend that may serve the read, or with the primary because no
    -- backend may, the policy not asked.
    abbrev pub Selected :
        policy.State → List (Status F) → ℕ → List String → String → Bool → policy.State → Type 0
    Selected p snapshot fence exclude a r p' =
        ((r ≡ true) × Serves fence exclude snapshot a)
        ⊎ ((r ≡ false)
            × (a ≡ cfg.primary)
            × (p' ≡ p)
            × All (λ st. is_candidate fl cfg fence exclude st ≡ false) snapshot)

    -- A selection never fails. It gives a healthy, eligible replica that has not been tried, or,
    -- exactly if the snapshot has none, the primary.
    pub select_read_target-Selected :
        (p : policy.State) (snapshot : List (Status F)) (fence : ℕ) (fp : String)
        (exclude : List String)
        → (a : String) × (r : Bool) × (p' : policy.State) × (select_read_target fl cfg policy p
              snapshot fence fp exclude
            ≡ some (a, r, p'))
          × Selected p snapshot fence exclude a r p'
    unfolding select_read_target
    select_read_target-Selected p snapshot fence fp exclude =
        go (candidates fl cfg fence exclude snapshot) refl
      where
        go :
            (cs : List (Candidate F))
            → candidates fl cfg fence exclude snapshot ≡ cs
            → (a : String) × (r : Bool) × (p' : policy.State) × (select_from fl cfg policy p cs fp
                ≡ some (a, r, p'))
              × Selected p snapshot fence exclude a r p'
        go [] e = (
          cfg.primary,
          false,
          p,
          refl,
          inr (refl, refl, refl, candidates-none fence exclude snapshot e),
        )
        go (c ∷ cs) e =
            let (a, p', chosen, among) = picks p c cs fp in
            (
              a,
              true,
              p',
              ap (routed fl cfg policy) chosen,
              inl (
                refl,
                candidates-Serves fence exclude snapshot a
                    (subst (λ l. OneOf a (addrs l)) (sym e) among),
              ),
            )

    -- Read your writes: under strict fencing a selected replica has replayed the session's fence.
    pub select_strict :
        (p p' : policy.State) (snapshot : List (Status F)) (fence : ℕ) (fp a : String)
        (exclude : List String)
        → (cfg.mode == "relaxed") ≡ false
        → (cfg.mode == "bounded") ≡ false
        → select_read_target fl cfg policy p snapshot fence fp exclude ≡ some (a, true, p')
        → (v : Serves fence exclude snapshot a) × (fence ≤ v.status.lsn)
    select_strict p p' snapshot fence fp a exclude relaxed bounded h =
        let (b, r, q, e, s) = select_read_target-Selected p snapshot fence fp exclude in
        let (same, asked) = same_target b a r true q p' (sym e ∙ h) in go b r q s same asked
      where
        same_target :
            (b a : String) (r t : Bool) (q p' : policy.State)
            → ◌≡◌ {A = Option (String × Bool × policy.State)} (some (b, r, q)) (some (a, t, p'))
            → (b ≡ a) × (r ≡ t)
        same_target b a r t q p' h = ground arith

        strict : (v : Serves fence exclude snapshot a) → fence ≤ v.status.lsn
        strict v = strict-le v.status fence relaxed bounded v.eligible

        go :
            (b : String) (r : Bool) (q : policy.State)
            → Selected p snapshot fence exclude b r q
            → b ≡ a
            → r ≡ true
            → (v : Serves fence exclude snapshot a) × (fence ≤ v.status.lsn)
        go b r q (inl (t, v)) same asked =
            let w = subst (Serves fence exclude snapshot) same v in (w, strict w)
        go b r q (inr (f, _, _, _)) same asked = absurd (cc)
