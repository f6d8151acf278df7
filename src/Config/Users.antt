-- ===== src/Config/Users.antt =====
-- The list of users of a configuration: what validate wants of it, and what User finds in it.
use pgpilot.Base.{
  ◌≡◌, refl, ◌⊎◌, inl, inr, String, Bool, true, false, Bool-cases, List, [], ◌∷◌, subst, ap, sym,
  ◌∙◌, none, some, arith, ◌==◌, string_eq, contains,
}
use pgpilot.Config.{User, validate_users, user_in}

-- A user of the list has this name.
abbrev pub Named : String → List User → Type 0
Named a [] = ⊥
Named a (u ∷ us) = (u.name ≡ a) ⊎ Named a us

-- No user has an empty name and no name stands twice.
abbrev pub IsUserList : List User → Type 0
IsUserList [] = Unit
IsUserList (u ∷ us) = ¬ (u.name ≡ "") × ¬ Named u.name us × IsUserList us

-- The names of the list are none of these.
abbrev pub AreNew : List String → List User → Type 0
AreNew seen us = (a : String) → contains seen a ≡ true → ¬ Named a us

pub validate_users-IsUserList :
    (seen : List String) (us : List User)
    → validate_users seen us ≡ none
    → IsUserList us × AreNew seen us
unfolding validate_users
validate_users-IsUserList seen [] h = (tt, λ a c n. elim n [ ])
validate_users-IsUserList seen (u ∷ us) h =
    let (e, fresh, k) = parts in
    let (l, new) = validate_users-IsUserList (u.name ∷ seen) us k in
    (
      (
        λ p. absurd (ground (arith, string_eq.beq_iff u.name "")),
        new u.name (ground (arith, string_eq.beq_iff u.name u.name)),
        l,
      ),
      λ a c n. elim n [ inl p ↦ absurd (cc (p, c, fresh)) | inr m ↦ new a (ground arith) m ],
    )
  where
    parts :
        ((u.name == "") ≡ false)
        × (contains seen u.name ≡ false)
        × (validate_users (u.name ∷ seen) us ≡ none)
    parts = ground arith

pub not-true : (b : Bool) → ¬ (b ≡ true) → b ≡ false
not-true true h = absurd (h refl)
not-true false h = refl

Named-same : (a b : String) (us : List User) → a ≡ b → Named a us → Named b us
Named-same a b us e = subst (λ s. Named s us) e

pub IsUserList-validate_users :
    (seen : List String) (us : List User)
    → IsUserList us
    → AreNew seen us
    → validate_users seen us ≡ none
unfolding validate_users
IsUserList-validate_users seen [] l new = refl
IsUserList-validate_users seen (u ∷ us) l new =
    rw
      (
        not-true (u.name == "") (λ h. l.0 (ground (arith, string_eq.beq_iff u.name ""))),
        not-true (contains seen u.name) (λ h. new u.name h (inl refl)),
      )
      (IsUserList-validate_users (u.name ∷ seen) us l.2 λ a c m.
        elim (Bool-cases (contains seen a)) [
          | inl old ↦ new a old (inr m)
          | inr e ↦ l.1 (Named-same a u.name us (ground (arith, string_eq.beq_iff u.name a)) m)
        ])

some_inj : {u v : User} → some u ≡ some v → u ≡ v
some_inj h = cc h

-- The user of a list that has the name is the one that User finds.
abbrev pub Among : User → List User → Type 0
Among u [] = ⊥
Among u (v ∷ us) = (v ≡ u) ⊎ Among u us

Among-Named : (u : User) (us : List User) → Among u us → Named u.name us
Among-Named u [] a = elim a [ ]
Among-Named u (v ∷ us) (inl e) = inl (ap (λ (w : User). w.name) e)
Among-Named u (v ∷ us) (inr a) = inr (Among-Named u us a)

-- In a valid list of users, User finds each user of the list by its name.
pub user_in-Among :
    (u : User) (us : List User) → IsUserList us → Among u us → user_in us u.name ≡ some u
unfolding user_in
user_in-Among u [] l a = elim a [ ]
user_in-Among u (v ∷ us) l (inl e) =
    rw ((string_eq.beq_iff v.name u.name).1 (ap (λ (w : User). w.name) e)) (ap some e)
user_in-Among u (v ∷ us) l (inr a) =
    rw
      (not-true (v.name == u.name) λ h. l.1 (
        Named-same u.name v.name us (sym ((string_eq.beq_iff v.name u.name).0 h))
          (Among-Named u us a)))
      (user_in-Among u us l.2 a)

-- User answers only users of the list, with the name asked for.
pub user_in-found :
    (us : List User) (name : String) (u : User)
    → user_in us name ≡ some u
    → Among u us × (u.name ≡ name)
unfolding user_in
user_in-found [] name u h = absurd (cc h)
user_in-found (v ∷ us) name u h = elim (Bool-cases (v.name == name)) [
  | inl e ↦
      let same : v ≡ u = some_inj (rw (e, user_in) at h) in
      (inl same, ap (λ (w : User). w.name) (sym same) ∙ (string_eq.beq_iff v.name name).0 e)
  | inr e ↦ let (a, n) = user_in-found us name u (rw (e, user_in) at h) in (inr a, n)
]
