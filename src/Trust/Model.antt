-- ===== src/Trust/Model.antt =====
-- The rows of marketplace/models/agent_trust.py that rate an agent, and the rating itself, of
-- marketplace/services/agent_trust_service.py. Texts are numbers, an empty one is none; times are left out.
use agentchains.Base.{ℕ, ◌+◌, Bool, true, false, Option, none, some, List, ltb, if◌then◌else◌}

pub data TrustStatus : Type 0 where
  unverified provisional verified restricted : TrustStatus

pub data TrustTier : Type 0 where
  t0 t1 t2 t3 : TrustTier

pub data Reason : Type 0 where
  severe_safety_failure_in_knowledge_challenge memory_quarantined_for_safety : Reason

-- The summary of the last challenge.
pub record Summary : Type 0 where
  pub challenge_count : ℕ
  pub citations_present : Bool
  pub schema_valid : Bool
  pub adversarial_resilience : Bool
  pub reproducible : Bool
  pub freshness_ok : Bool
  pub tool_constraints_ok : Bool

pub record AgentTrustProfile : Type 0 where
  pub id : ℕ
  pub agent_id : ℕ
  pub creator_id : Option ℕ
  pub trust_status : TrustStatus
  pub trust_tier : TrustTier
  pub trust_score : ℕ
  pub stage_identity : ℕ
  pub stage_runtime : ℕ
  pub stage_knowledge : ℕ
  pub stage_memory : ℕ
  pub stage_abuse : ℕ
  pub restricted_reason : Option Reason
  pub knowledge_challenge_summary : Option Summary
  pub memory_snapshot_id : Option ℕ

-- What is read of an agent: its creator, how long its key is, and whether its endpoint begins with "http".
pub record Agent : Type 0 where
  pub id : ℕ
  pub creator_id : Option ℕ
  pub public_key_length : ℕ
  pub endpoint_is_http : Bool

pub record Creator : Type 0 where
  pub id : ℕ
  pub is_active : Bool

pub record IdentityAttestation : Type 0 where
  pub id : ℕ
  pub agent_id : ℕ
  pub creator_id : Option ℕ
  pub score : ℕ

-- What an agent says of its runtime.
pub record Runtime : Type 0 where
  pub runtime_name : Option ℕ
  pub runtime_version : Option ℕ
  pub sdk_version : Option ℕ
  pub endpoint_reachable : Bool
  pub supports_memory : Bool

pub record RuntimeAttestation : Type 0 where
  pub id : ℕ
  pub agent_id : ℕ
  pub runtime : Runtime
  pub score : ℕ

pub data ChallengeType : Type 0 where
  retrieval_fidelity tool_use adversarial_resilience freshness : ChallengeType

pub record KnowledgeChallenge : Type 0 where
  pub id : ℕ
  pub capability : ℕ
  pub challenge_type : ChallengeType
  pub is_active : Bool

pub record ChallengeRun : Type 0 where
  pub id : ℕ
  pub agent_id : ℕ
  pub challenge_id : ℕ
  pub passed : Bool
  pub score : ℕ
  pub severe_safety_failure : Bool

pub record Store : Type 0 where
  pub agents : List Agent
  pub creators : List Creator
  pub profiles : List AgentTrustProfile
  pub identity_attestations : List IdentityAttestation
  pub runtime_attestations : List RuntimeAttestation
  pub challenges : List KnowledgeChallenge
  pub challenge_runs : List ChallengeRun

pub data Error : Type 0 where
  agent_not_found profile_missing multiple_results : Error

unfoldable pub compute_tier : ℕ → Bool → TrustStatus × TrustTier
compute_tier score true = (TrustStatus.restricted, TrustTier.t0)
compute_tier score false =
    if ltb score 40
    then (TrustStatus.unverified, TrustTier.t0)
    else if ltb score 70
    then (TrustStatus.provisional, TrustTier.t1)
    else if ltb score 85
    then (TrustStatus.verified, TrustTier.t2)
    else (TrustStatus.verified, TrustTier.t3)

abbrev pub total_score : AgentTrustProfile → ℕ
total_score p =
    p.stage_identity + p.stage_runtime + p.stage_knowledge + p.stage_memory + p.stage_abuse

-- A new reason replaces the old one, which otherwise stays.
abbrev pub reason_or : Option Reason → Option Reason → Option Reason
reason_or none old = old
reason_or (some r) old = some r

unfoldable pub recompute_profile : Bool → Option Reason → AgentTrustProfile → AgentTrustProfile
recompute_profile severe reason p = record p {
  trust_score = total_score p;
  trust_status = (compute_tier (total_score p) severe).0;
  trust_tier = (compute_tier (total_score p) severe).1;
  restricted_reason = reason_or reason p.restricted_reason;
}

unfoldable pub new_profile : ℕ → ℕ → Option ℕ → AgentTrustProfile
new_profile id agent_id creator_id = record {
  id = id;
  agent_id = agent_id;
  creator_id = creator_id;
  trust_status = TrustStatus.unverified;
  trust_tier = TrustTier.t0;
  trust_score = 0;
  stage_identity = 0;
  stage_runtime = 0;
  stage_knowledge = 0;
  stage_memory = 0;
  stage_abuse = 8;
  restricted_reason = none;
  knowledge_challenge_summary = none;
  memory_snapshot_id = none;
}
