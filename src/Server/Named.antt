-- ===== src/Server/Named.antt =====
-- The server of internal/proxy/proxy.go runs the policy that its configuration names.
use pgpilot.Base.{
  ℕ, ◌≡◌, refl, sym, ap, ◌∙◌, String, false, List, Option, none, some, ◌==◌, string_eq, Bool-cases,
  inl, inr,
}
use pgpilot.Config.{Config, PolicyKind, policy_named, load, loaded}
use pgpilot.Config.Valid.{load-IsValid}
use pgpilot.Server.{resolve_policy}

not_empty : (name : String) (k : PolicyKind) → policy_named name ≡ some k → (name == "") ≡ false
unfolding policy_named
not_empty name k h = elim (Bool-cases (name == "")) [
  | inl e ↦ let empty : name ≡ "" = (string_eq.beq_iff name "").0 e in absurd (cc (rw empty at h))
  | inr e ↦ e
]

-- With a configuration that Load has returned, and no policy injected, the policy of the server is
-- the one that the configuration names; the default for an unknown name is never taken.
pub load-resolve_policy :
    (decode : List ℕ → Option Config) (file : Option (List ℕ)) (c : Config)
    → load decode file ≡ loaded c
    → policy_named c.routing_policy ≡ some (resolve_policy none (some c.routing_policy))
unfolding resolve_policy
load-resolve_policy decode file c h =
    let valid = (load-IsValid decode file c h).0 in
    let (k, e) = valid.policy in e ∙ ap some (sym (rw (not_empty c.routing_policy k e) (rw e refl)))
