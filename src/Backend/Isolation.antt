-- ===== src/Backend/Isolation.antt =====
-- The pools of different users, databases and addresses do not touch one another.
use pgpilot.Base.{
  ℕ, ◌≡◌, refl, ◌∙◌, String, Bool, true, false, Option, none, some, ◌==◌, string_eq, pair_eq,
}
use pgpilot.Base.Dict.{lookup, insert, lookup-insert}
use pgpilot.Pool.State.{Pool, new, free_slot, release}
use pgpilot.Pool.Alone.{Outcome, acquire}
use pgpilot.Backend.{
  PoolKey, Manager, added, pool_or_new, for_user, pool_for, acquire_in, put_back, acquire_at,
  released_to, release_at, discarded_to, discard_at,
}

-- A manager that differs from another in the pool of one key at most.
abbrev pub Apart : PoolKey → Manager → Manager → Type 0
Apart key m m' =
    (m'.users ≡ m.users)
    × ((j : PoolKey) → (key == j) ≡ false → lookup j m'.pools ≡ lookup j m.pools)

insert-Apart :
    (key : PoolKey) (p : Pool) (m : Manager)
    → Apart key m (record m { pools = insert key p m.pools })
insert-Apart key p m = (refl, λ j h. rw (lookup-insert key j p m.pools, h) refl)

Apart-trans : (key : PoolKey) (a b c : Manager) → Apart key a b → Apart key b c → Apart key a c
Apart-trans key a b c h k = (k.0 ∙ h.0, λ j e. k.1 j e ∙ h.1 j e)

-- The second of a result, if there is one.
abbrev pub ApartIn {ℓ} : {A : Type ℓ} → PoolKey → Manager → Option (A × Manager) → Type 0
ApartIn key m none = Unit
ApartIn key m (some (a, m')) = Apart key m m'

pool_for-Apart :
    (m : Manager) (user database addr : String)
    → ApartIn (user, (database, addr)) m (pool_for m user database addr)
unfolding pool_for
pool_for-Apart m user database addr = go (lookup user m.users)
  where
    key : PoolKey
    key = (user, (database, addr))

    add : (o : Option Pool) → ApartIn key m (added m key o)
    add none = tt
    add (some p) = insert-Apart key p m

    found : (o : Option Pool) → ApartIn key m (pool_or_new m key o)
    found (some p) = (refl, λ j h. refl)
    found none = add (new m.pool_cfg.max_size m.pool_cfg.max_waiters m.pool_cfg.idle_timeout true)

    go : (o : Option String) → ApartIn key m (for_user o m key)
    go none = tt
    go (some password) = found (lookup key m.pools)

-- ReleaseAt and DiscardAt change the pool of their own user, database and address at most, and no user.
pub release_at-Apart :
    (m : Manager) (user database addr : String) (c now : ℕ)
    → Apart (user, (database, addr)) m (release_at m user database addr c now).1
      × Apart (user, (database, addr)) m (discard_at m user database addr)
unfolding release_at discard_at
release_at-Apart m user database addr c now = (
  released (lookup (user, (database, addr)) m.pools),
  gone (lookup (user, (database, addr)) m.pools),
)
  where
    key : PoolKey
    key = (user, (database, addr))

    released : (o : Option Pool) → Apart key m (released_to m key c now o).1
    released none = (refl, λ j h. refl)
    released (some p) = insert-Apart key (release p c now).0 m

    gone : (o : Option Pool) → Apart key m (discarded_to m key o)
    gone none = (refl, λ j h. refl)
    gone (some p) = insert-Apart key (free_slot p) m

module _ (dialed : Option ℕ) (ping : ℕ → Bool) (now w fuel : ℕ) where
  -- AcquireAt changes the pool of its own user, database and address at most, and no user.
  pub acquire_at-Apart :
      (m : Manager) (user database addr : String)
      → ApartIn (user, (database, addr)) m (acquire_at dialed ping now w fuel m user database addr)
  unfolding acquire_at
  acquire_at-Apart m user database addr =
      go (pool_for m user database addr) (pool_for-Apart m user database addr)
    where
      key : PoolKey
      key = (user, (database, addr))

      got :
          (m' : Manager) (o : Option (Pool × Outcome))
          → Apart key m m'
          → ApartIn key m (elim (put_back dialed ping now w fuel m' key o) [
            | none ↦ none
            | some (x, m'') ↦ some (some x, m'')
          ])
      got m' none h = tt
      got m' (some (p, x)) h =
          Apart-trans key m m' (record m' { pools = insert key p m'.pools }) h
            (insert-Apart key p m')

      go :
          (o : Option (Pool × Manager))
          → ApartIn key m o
          → ApartIn key m (acquire_in dialed ping now w fuel key o (some (none, m)))
      go none h = (refl, λ j k. refl)
      go (some (p, m')) h = got m' (acquire dialed ping now w fuel p) h
