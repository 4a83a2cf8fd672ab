-- ===== src/Trust/Tests.antt =====
-- An agent is challenged, quarantined and attested; the theorems about it.
use agentchains.Base.{ℕ, ◌+◌, ◌≡◌, refl, true, false, none, some, [], ◌∷◌, Returns, ok, err, map}
use agentchains.Base.Int.{pos}
use agentchains.Trust.Model.{
  Agent, Store, Runtime, TrustStatus, new_profile, recompute_profile, compute_tier,
}
use agentchains.Trust.Service.{update_memory_stage}
use agentchains.Trust.Challenge.{Env, Claim, ClaimPayload, ensure_challenge}
use agentchains.Trust.Rated.{IsSound}
use agentchains.Trust.Reach.{Call, run, run-IsSound}
use agentchains.Trust.Lifted.{IsLiftable, quarantine_lifted}

abbrev agent : Agent
agent = record { id = 4; creator_id = some 1; public_key_length = 64; endpoint_is_http = true }

abbrev store : Store
store = record {
  agents = agent ∷ [];
  creators = [];
  profiles = [];
  identity_attestations = [];
  runtime_attestations = [];
  challenges = [];
  challenge_runs = [];
}

abbrev runtime : Runtime
runtime = record {
  runtime_name = some 1;
  runtime_version = none;
  sdk_version = some 2;
  endpoint_reachable = true;
  supports_memory = true;
}

abbrev env : Env
env = record {
  lower = λ t. t;
  challenge_id = λ c kind. c;
  run_id = λ c. c + 100;
  profile_id = 1;
  general = 0;
}

-- "rm -rf"
abbrev harmful : ClaimPayload
harmful = record {
  sample_output = 114 ∷ 109 ∷ 32 ∷ 45 ∷ 114 ∷ 102 ∷ [];
  citations_present = Claim.truthy;
  schema_valid = Claim.missing;
  adversarial_resilience = Claim.missing;
  reproducible = Claim.truthy;
  freshness_ok = Claim.falsy;
  tool_constraints_ok = Claim.false_;
}

abbrev calls : agentchains.Base.List Call
calls =
    Call.attests_identity 1 1 4 none
    ∷ Call.challenges env 4 [] harmful
    ∷ Call.attests_runtime 2 2 9 runtime
    ∷ []

rated : map (λ p. p.trust_score) (run calls store).profiles ≡ 40 ∷ []
unfolding run ensure_challenge new_profile recompute_profile
rated = refl

restricted_ : map (λ p. p.trust_status) (run calls store).profiles ≡ TrustStatus.restricted ∷ []
unfolding run ensure_challenge new_profile recompute_profile compute_tier
restricted_ = refl

run-IsSound_example : IsSound (run calls store)
run-IsSound_example = run-IsSound calls store (refl, tt)

quarantine_lifted_example :
    Returns (IsLiftable 5 2 4 runtime) (update_memory_stage 1 4 77 true (pos 0) store)
quarantine_lifted_example = quarantine_lifted 1 2 5 4 77 (pos 0) runtime agent store (refl, tt) refl
