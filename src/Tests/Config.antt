-- ===== src/Tests/Config.antt =====
-- Runs of internal/config/config.go.
use pgpilot.Base.{
  ℕ, ◌≡◌, refl, inl, inr, String, false, ◌==◌, string_eq, List, [], ◌∷◌, Option, none, some,
}
use pgpilot.Base.Int.{pos}
use pgpilot.Config.{User, Config, apply_defaults, validate, load, loaded, user_in}
use pgpilot.Config.Users.{IsUserList, user_in-Among}
use pgpilot.Config.Valid.{IsValid, load-IsValid, IsValid-validate}

abbrev users : List User
users = (record { name = "app"; password = "a" }) ∷ (record { name = "ops"; password = "b" }) ∷ []

-- A file that sets only what has no default.
abbrev minimal : Config
minimal = record {
  listen = ":6432";
  primary = "db:5432";
  replicas = [];
  users = users;
  pool = record {
    mode = "";
    max_size = pos 0;
    max_waiters = pos 0;
    acquire_timeout = pos 0;
    idle_timeout = pos 0;
  };
  health = record {
    interval = pos 0;
    failure_threshold = pos 0;
    base_backoff = pos 0;
    max_backoff = pos 0;
  };
  fencing = record { mode = ""; bounded_ms = pos 0 };
  routing_policy = "";
  observability = record { metrics_addr = ""; pprof = false };
}

abbrev decode : List ℕ → Option Config
decode [] = none
decode (_ ∷ _) = some minimal

minimal_loads : load decode (some (b'{' ∷ [])) ≡ loaded (apply_defaults minimal)
unfolding load validate apply_defaults
minimal_loads = refl

load-IsValid_example :
    IsValid (apply_defaults minimal)
    × (raw : List ℕ) × (d : Config) × (some (b'{' ∷ []) ≡ some raw)
    × (decode raw ≡ some d)
    × (apply_defaults d ≡ apply_defaults minimal)
load-IsValid_example = load-IsValid decode (some (b'{' ∷ [])) (apply_defaults minimal) minimal_loads

differ : (a b : String) → (a == b) ≡ false → ¬ (a ≡ b)
differ a b h e = absurd (cc ((string_eq.beq_iff a b).1 e, h))

users-IsUserList : IsUserList users
users-IsUserList = (
  differ "app" "" refl,
  (λ h. elim h [ inl e ↦ differ "ops" "app" refl e | inr n ↦ n ]),
  (differ "ops" "" refl, (λ h. h), tt),
)

IsValid-validate_run : validate (apply_defaults minimal) ≡ none
IsValid-validate_run = IsValid-validate (apply_defaults minimal) (load-IsValid_example.0)

user_in-Among_run : user_in users "ops" ≡ some (record { name = "ops"; password = "b" })
user_in-Among_run =
    user_in-Among (record { name = "ops"; password = "b" }) users users-IsUserList (inr (inl refl))
