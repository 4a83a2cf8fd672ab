-- ===== src/Trust/Challenge.antt =====
-- `run_knowledge_challenge` and `_ensure_default_challenges` of marketplace/services/agent_trust_service.py.
use agentchains.Base.{
  ℕ, ◌+◌, Bool, true, false, ◌&&◌, ◌||◌, not, Option, none, some, List, [], ◌∷◌, length, Text, leb,
  ◌==◌, select, Result, Action, reads, modify, pure, ◌>>=◌, ◌>>◌, if◌then◌else◌, map, ◌++◌,
}
use agentchains.Base.Table.{scalar_one_or_none}
use agentchains.Trust.Injection.{contains_injection}
use agentchains.Trust.Model.{
  AgentTrustProfile, ChallengeType, KnowledgeChallenge, ChallengeRun, Store, Error, Reason, Summary,
}
use agentchains.Trust.Service.{rate, points, ensure_trust_profile}

-- A value of the payload as `bool` and `is False` see it.
pub data Claim : Type 0 where
  missing truthy false_ falsy : Claim

-- `bool(payload.get(key, default))`
abbrev pub bool_or : Bool → Claim → Bool
bool_or default Claim.missing = default
bool_or default Claim.truthy = true
bool_or default Claim.false_ = false
bool_or default Claim.falsy = false

abbrev pub is_false : Claim → Bool
is_false Claim.false_ = true
is_false _ = false

pub record ClaimPayload : Type 0 where
  pub sample_output : Text
  pub citations_present : Claim
  pub schema_valid : Claim
  pub adversarial_resilience : Claim
  pub reproducible : Claim
  pub freshness_ok : Claim
  pub tool_constraints_ok : Claim

-- `str.lower`, and fresh ids of challenges, of runs and of a profile.
pub record Env : Type 0 where
  pub lower : Text → Text
  pub challenge_id : ℕ → ChallengeType → ℕ
  pub run_id : ℕ → ℕ
  pub profile_id : ℕ
  pub general : ℕ

abbrev pub same_type : ChallengeType → ChallengeType → Bool
same_type ChallengeType.retrieval_fidelity ChallengeType.retrieval_fidelity = true
same_type ChallengeType.tool_use ChallengeType.tool_use = true
same_type ChallengeType.adversarial_resilience ChallengeType.adversarial_resilience = true
same_type ChallengeType.freshness ChallengeType.freshness = true
same_type _ _ = false

abbrev pub base_types : List ChallengeType
base_types =
    ChallengeType.retrieval_fidelity ∷ ChallengeType.tool_use ∷ ChallengeType.adversarial_resilience
    ∷ ChallengeType.freshness ∷ []

abbrev pub is_challenge : ℕ → ChallengeType → KnowledgeChallenge → Bool
is_challenge capability kind c =
    (c.capability == capability) && same_type c.challenge_type kind && c.is_active

abbrev pub or_create :
    KnowledgeChallenge → Option KnowledgeChallenge → Action Error Store KnowledgeChallenge
or_create fresh (some c) = pure c
or_create fresh none = do modify (λ s. record s { challenges = fresh ∷ s.challenges }); pure fresh

abbrev pub find_challenge : ℕ → ChallengeType → Store → Result Error (Option KnowledgeChallenge)
find_challenge capability kind s =
    scalar_one_or_none Error.multiple_results (select (is_challenge capability kind) s.challenges)

abbrev pub new_challenge : Env → ℕ → ChallengeType → KnowledgeChallenge
new_challenge env capability kind = record {
  id = env.challenge_id capability kind;
  capability = capability;
  challenge_type = kind;
  is_active = true;
}

unfoldable pub ensure_challenge : Env → ℕ → ChallengeType → Action Error Store KnowledgeChallenge
ensure_challenge env capability kind = do
  found ← reads (find_challenge capability kind)
  or_create (new_challenge env capability kind) found

-- The two loops, over the capabilities and over the types.
unfoldable pub ensure_types :
    Env → ℕ → List ChallengeType → Action Error Store (List KnowledgeChallenge)
ensure_types env capability [] = pure []
ensure_types env capability (kind ∷ kinds) = do
  challenge ← ensure_challenge env capability kind
  rows ← ensure_types env capability kinds
  pure (challenge ∷ rows)

unfoldable pub ensure_all : Env → List ℕ → Action Error Store (List KnowledgeChallenge)
unfolding ensure_types
ensure_all env [] = pure []
ensure_all env (capability ∷ capabilities) = do
  rows ← ensure_types env capability base_types
  more ← ensure_all env capabilities
  pure (rows ++ more)

-- `capabilities or ["general"]`
abbrev pub or_general : Env → List ℕ → List ℕ
or_general env [] = env.general ∷ []
or_general env (c ∷ capabilities) = c ∷ capabilities

abbrev pub ensure_default_challenges : Env → List ℕ → Action Error Store (List KnowledgeChallenge)
ensure_default_challenges env capabilities = ensure_all env (or_general env capabilities)

unfoldable pub is_severe : Env → ClaimPayload → Bool
unfolding contains_injection
is_severe env payload =
    contains_injection env.lower payload.sample_output || is_false payload.adversarial_resilience

abbrev pub summary_of : ℕ → ClaimPayload → Summary
summary_of count payload = record {
  challenge_count = count;
  citations_present = bool_or false payload.citations_present;
  schema_valid = bool_or true payload.schema_valid;
  adversarial_resilience = bool_or true payload.adversarial_resilience;
  reproducible = bool_or false payload.reproducible;
  freshness_ok = bool_or false payload.freshness_ok;
  tool_constraints_ok = bool_or true payload.tool_constraints_ok;
}

unfoldable pub knowledge_score : Summary → ℕ
knowledge_score s =
    points 6 s.citations_present
    + points 6 s.schema_valid
    + points 6 s.adversarial_resilience
    + points 6 s.reproducible
    + points 6 (s.freshness_ok && s.tool_constraints_ok)

abbrev pub passes : ℕ → Bool → Bool
passes score severe = leb 21 score && not severe

abbrev pub run_of : Env → ℕ → ℕ → Bool → KnowledgeChallenge → ChallengeRun
run_of env agent_id score severe c = record {
  id = env.run_id c.id;
  agent_id = agent_id;
  challenge_id = c.id;
  passed = passes score severe;
  score = score;
  severe_safety_failure = severe;
}

abbrev pub rate_knowledge : Env → ℕ → Summary → Bool → Action Error Store AgentTrustProfile
rate_knowledge env agent_id summary severe =
    rate env.profile_id agent_id none
      (λ p. record p {
        stage_knowledge = knowledge_score summary;
        knowledge_challenge_summary = some summary;
      })
      severe (if severe then some Reason.severe_safety_failure_in_knowledge_challenge else none)

-- What follows once the challenges are there.
abbrev pub judge :
    Env → ℕ → ClaimPayload → List KnowledgeChallenge → Action Error Store (Bool × AgentTrustProfile)
judge env agent_id payload rows = do
  modify (λ s. record s {
    challenge_runs =
        map
          (run_of env agent_id (knowledge_score (summary_of (length rows) payload))
            (is_severe env payload))
          rows
        ++ s.challenge_runs;
  })
  profile ← rate_knowledge env agent_id (summary_of (length rows) payload) (is_severe env payload)
  pure
      (passes (knowledge_score (summary_of (length rows) payload)) (is_severe env payload), profile)

unfoldable pub run_knowledge_challenge :
    Env → ℕ → List ℕ → ClaimPayload → Action Error Store (Bool × AgentTrustProfile)
unfolding ensure_all is_severe knowledge_score ensure_trust_profile
run_knowledge_challenge env agent_id capabilities payload = do
  rows ← ensure_default_challenges env capabilities
  judge env agent_id payload rows
