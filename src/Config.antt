-- ===== src/Config.antt =====
-- internal/config/config.go: the configuration after the JSON decoder, its defaults, its validation
-- and the lookup of a user; and New of internal/router/router.go, which takes a policy by its name.
pub mod Users
pub mod Valid
use pgpilot.Base.{
  ℕ, ◌&&◌, ◌||◌, not, String, Bool, true, false, List, [], ◌∷◌, Option, none, some, if◌then◌else◌,
  ◌==◌, string_eq, contains,
}
use pgpilot.Base.Int.{ℤ, pos, is_zero, is_positive}

pub record User : Type 0 where
  pub name : String
  pub password : String

-- Durations are in nanoseconds.
pub record Pool : Type 0 where
  pub mode : String
  pub max_size : ℤ
  pub max_waiters : ℤ
  pub acquire_timeout : ℤ
  pub idle_timeout : ℤ

pub record Health : Type 0 where
  pub interval : ℤ
  pub failure_threshold : ℤ
  pub base_backoff : ℤ
  pub max_backoff : ℤ

pub record Fencing : Type 0 where
  pub mode : String
  pub bounded_ms : ℤ

pub record Observability : Type 0 where
  pub metrics_addr : String
  pub pprof : Bool

pub record Config : Type 0 where
  pub listen : String
  pub primary : String
  pub replicas : List String
  pub users : List User
  pub pool : Pool
  pub health : Health
  pub fencing : Fencing
  pub routing_policy : String
  pub observability : Observability

pub data Error : Type 0 where
  unreadable : Error
  unparseable : Error
  no_listen no_primary no_users nameless_user : Error
  duplicate_user : String → Error
  bad_max_size : Error
  bad_pool_mode bad_fencing_mode bad_policy : String → Error

-- The text of a field, or its default when it is empty; and so for a number that is zero.
abbrev pub text_or : String → String → String
text_or s d = if s == "" then d else s

abbrev pub int_or : ℤ → ℤ → ℤ
int_or x d = if is_zero x then d else x

abbrev second : ℤ
second = pos 1_000_000_000

unfoldable pub apply_defaults : Config → Config
apply_defaults c = record c {
  pool = record {
    mode = text_or c.pool.mode "session";
    max_size = int_or c.pool.max_size (pos 10);
    max_waiters = c.pool.max_waiters;
    acquire_timeout = int_or c.pool.acquire_timeout (pos 5_000_000_000);
    idle_timeout = int_or c.pool.idle_timeout (pos 300_000_000_000);
  };
  health = record {
    interval = int_or c.health.interval second;
    failure_threshold = int_or c.health.failure_threshold (pos 3);
    base_backoff = int_or c.health.base_backoff second;
    max_backoff = int_or c.health.max_backoff (pos 30_000_000_000);
  };
  fencing = record {
    mode = text_or c.fencing.mode "strict";
    bounded_ms = int_or c.fencing.bounded_ms (pos 100);
  };
  routing_policy = text_or c.routing_policy "least-in-flight";
}

-- The loop over the users, with the names seen so far; `none` is no error.
unfoldable pub validate_users : List String → List User → Option Error
validate_users seen [] = none
validate_users seen (u ∷ us) =
    let rest = validate_users (u.name ∷ seen) us in
    if u.name == ""
    then some nameless_user
    else if contains seen u.name
    then some (duplicate_user u.name)
    else rest

unfoldable pub validate_rest : Config → Option Error
validate_rest c =
    if not (is_positive c.pool.max_size)
    then some bad_max_size
    else if not (c.pool.mode == "session") && not (c.pool.mode == "transaction")
    then some (bad_pool_mode c.pool.mode)
    else if not
        (c.fencing.mode == "strict" || c.fencing.mode == "bounded" || c.fencing.mode == "relaxed")
    then some (bad_fencing_mode c.fencing.mode)
    else if not (
        c.routing_policy == "round-robin"
        || c.routing_policy == "least-in-flight"
        || c.routing_policy == "scored")
    then some (bad_policy c.routing_policy)
    else none

abbrev pub no_user_list : List User → Bool
no_user_list [] = true
no_user_list (_ ∷ _) = false

abbrev pub first_error : Option Error → Option Error → Option Error
first_error none r = r
first_error (some e) r = some e

unfoldable pub validate : Config → Option Error
unfolding validate_users validate_rest
validate c =
    if c.listen == ""
    then some no_listen
    else if c.primary == ""
    then some no_primary
    else if no_user_list c.users
    then some no_users
    else first_error (validate_users [] c.users) (validate_rest c)

pub data Loaded : Type 0 where
  loaded : Config → Loaded
  failed : Error → Loaded

abbrev pub checked : Config → Option Error → Loaded
checked c none = loaded c
checked c (some e) = failed e

-- Load, on the bytes that ReadFile answers and the strict JSON decoder `decode`.
abbrev pub decoded : Option Config → Loaded
decoded none = failed unparseable
decoded (some c) = checked (apply_defaults c) (validate (apply_defaults c))

unfoldable pub load : (decode : List ℕ → Option Config) → Option (List ℕ) → Loaded
load decode none = failed unreadable
load decode (some raw) = decoded (decode raw)

-- The method User.
unfoldable pub user_in : List User → String → Option User
user_in [] name = none
user_in (u ∷ us) name = let rest = user_in us name in if u.name == name then some u else rest

pub data PolicyKind : Type 0 where
  round_robin least_in_flight scored : PolicyKind

-- router.New: which policy a name stands for; `none` is the error.
unfoldable pub policy_named : String → Option PolicyKind
policy_named name =
    if name == "round-robin"
    then some round_robin
    else if name == "least-in-flight"
    then some least_in_flight
    else if name == "scored"
    then some scored
    else none
