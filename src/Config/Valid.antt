-- ===== src/Config/Valid.antt =====
-- What a configuration that loads satisfies: the fields that the rest of the program relies on.
use pgpilot.Base.{
  ℕ, ◌≡◌, refl, ◌⊎◌, inl, inr, String, true, false, List, [], ◌∷◌, subst, Option, none, some,
  Option-cases, arith, ◌==◌, string_eq,
}
use pgpilot.Base.Int.{is_positive}
use pgpilot.Config.Users.{
  IsUserList, validate_users-IsUserList, IsUserList-validate_users, not-true,
}
use pgpilot.Config.{
  User, Config, Error, apply_defaults, validate_users, validate_rest, validate, first_error,
  no_user_list, loaded, load, PolicyKind, policy_named,
}

loaded_inj : {c d : Config} → loaded c ≡ loaded d → c ≡ d
loaded_inj h = cc h

-- What validate wants of the fields.
pub record IsValid (c : Config) : Type 0 where
  pub listens : ¬ (c.listen ≡ "")
  pub has_primary : ¬ (c.primary ≡ "")
  pub has_users : ¬ (c.users ≡ [])
  pub users : IsUserList c.users
  pub max_size : is_positive c.pool.max_size ≡ true
  pub pool_mode : (c.pool.mode ≡ "session") ⊎ (c.pool.mode ≡ "transaction")
  pub fencing_mode :
      (c.fencing.mode ≡ "strict") ⊎ (c.fencing.mode ≡ "bounded") ⊎ (c.fencing.mode ≡ "relaxed")
  pub policy : (k : PolicyKind) × (policy_named c.routing_policy ≡ some k)

rest-validate_rest :
    (c : Config)
    → (is_positive c.pool.max_size ≡ true)
    → ((c.pool.mode ≡ "session") ⊎ (c.pool.mode ≡ "transaction"))
    → ((c.fencing.mode ≡ "strict") ⊎ (c.fencing.mode ≡ "bounded") ⊎ (c.fencing.mode ≡ "relaxed"))
    → ((k : PolicyKind) × (policy_named c.routing_policy ≡ some k))
    → validate_rest c ≡ none
unfolding validate_rest policy_named
rest-validate_rest c m p f (k, e) = ground (
  arith,
  string_eq.beq_iff c.pool.mode "session",
  string_eq.beq_iff c.pool.mode "transaction",
  string_eq.beq_iff c.fencing.mode "strict",
  string_eq.beq_iff c.fencing.mode "bounded",
  string_eq.beq_iff c.fencing.mode "relaxed",
)

validate_rest-none :
    (c : Config)
    → validate_rest c ≡ none
    → (is_positive c.pool.max_size ≡ true)
      × ((c.pool.mode ≡ "session") ⊎ (c.pool.mode ≡ "transaction"))
      × ((c.fencing.mode ≡ "strict") ⊎ (c.fencing.mode ≡ "bounded") ⊎ (c.fencing.mode ≡ "relaxed"))
unfolding validate_rest
validate_rest-none c h = ground (
  arith,
  string_eq.beq_iff c.pool.mode "session",
  string_eq.beq_iff c.pool.mode "transaction",
  string_eq.beq_iff c.fencing.mode "strict",
  string_eq.beq_iff c.fencing.mode "bounded",
  string_eq.beq_iff c.fencing.mode "relaxed",
)

validate_rest-policy :
    (c : Config)
    → validate_rest c ≡ none
    → (k : PolicyKind) × (policy_named c.routing_policy ≡ some k)
unfolding validate_rest policy_named
validate_rest-policy c h = elim (Option-cases (policy_named c.routing_policy)) [
  | inl e ↦ absurd (ground arith)
  | inr s ↦ s
]

first_error-none : (a b : Option Error) → first_error a b ≡ none → (a ≡ none) × (b ≡ none)
first_error-none none b h = (refl, h)
first_error-none (some e) b h = absurd (cc h)

some_user : (us : List User) → no_user_list us ≡ false → ¬ (us ≡ [])
some_user us h e = absurd (cc (rw e at h))

user_some : (us : List User) → ¬ (us ≡ []) → no_user_list us ≡ false
user_some [] h = absurd (h refl)
user_some (u ∷ us) h = refl

not_empty : (s : String) → (s == "") ≡ false → ¬ (s ≡ "")
not_empty s h e = absurd (ground (arith, string_eq.beq_iff s ""))

empty_false : (s : String) → ¬ (s ≡ "") → (s == "") ≡ false
empty_false s h = not-true (s == "") λ e. h (ground (arith, string_eq.beq_iff s ""))

-- A configuration that validate accepts is valid.
pub validate-IsValid : (c : Config) → validate c ≡ none → IsValid c
unfolding validate
validate-IsValid c h =
    let (l, p, n, k) = parts in
    let (us, rest) = first_error-none _ _ k in
    let (size, mode, fencing) = validate_rest-none c rest in
    record {
      listens = not_empty c.listen l;
      has_primary = not_empty c.primary p;
      has_users = some_user c.users n;
      users = (validate_users-IsUserList [] c.users us).0;
      max_size = size;
      pool_mode = mode;
      fencing_mode = fencing;
      policy = validate_rest-policy c rest;
    }
  where
    parts :
        ((c.listen == "") ≡ false)
        × ((c.primary == "") ≡ false)
        × (no_user_list c.users ≡ false)
        × (first_error (validate_users [] c.users) (validate_rest c) ≡ none)
    parts = ground arith

-- validate accepts every valid configuration.
pub IsValid-validate : (c : Config) → IsValid c → validate c ≡ none
unfolding validate
IsValid-validate c v =
    rw
      (
        empty_false c.listen v.listens,
        empty_false c.primary v.has_primary,
        user_some c.users v.has_users,
        IsUserList-validate_users [] c.users v.users λ a h. absurd (cc h),
      )
      (rest-validate_rest c v.max_size v.pool_mode v.fencing_mode v.policy)

-- A configuration that Load returns is valid, and is the decoded file with the defaults applied.
pub load-IsValid :
    (decode : List ℕ → Option Config) (file : Option (List ℕ)) (c : Config)
    → load decode file ≡ loaded c
    → IsValid c
      × (raw : List ℕ) × (d : Config) × (file ≡ some raw)
      × (decode raw ≡ some d)
      × (apply_defaults d ≡ c)
unfolding load
load-IsValid decode none c h = absurd (cc h)
load-IsValid decode (some raw) c h = elim (Option-cases (decode raw)) [
  | inl e ↦ absurd (cc (rw e at h))
  | inr (d, e) ↦ elim (Option-cases (validate (apply_defaults d))) [
    | inr (x, bad) ↦ absurd (cc (rw (e, bad) at h))
    | inl good ↦
        let same : apply_defaults d ≡ c = loaded_inj (rw (e, good) at h) in
        (validate-IsValid c (subst (λ k. validate k ≡ none) same good), raw, d, refl, e, same)
  ]
]
