-- ===== src/Trust/Rated.antt =====
-- What a profile of marketplace/services/agent_trust_service.py keeps: the bounds of its stages, and the rating
-- that follows from its score.
use agentchains.Base.{
  ℕ, ◌≤◌, ◌≡◌, refl, Bool, true, false, Option, some, All, ◌⊎◌, inl, inr, arith, ◌==◌,
}
use agentchains.Base.Table.{find_key, distinct}
use agentchains.Trust.Model.{
  AgentTrustProfile, Store, Reason, TrustStatus, TrustTier, compute_tier, total_score,
  recompute_profile, new_profile,
}
use agentchains.Trust.Service.{agent_id_of}

-- The stages are within their points.
pub record IsBounded (p : AgentTrustProfile) : Type 0 where
  pub identity : p.stage_identity ≤ 20
  pub runtime : p.stage_runtime ≤ 20
  pub knowledge : p.stage_knowledge ≤ 30
  pub memory : p.stage_memory ≤ 20
  pub abuse : p.stage_abuse ≡ 8

-- The status and the tier are those of the score, or the profile is restricted.
abbrev pub HasTier : AgentTrustProfile → Type 0
HasTier p =
    ((p.trust_status ≡ TrustStatus.restricted) × (p.trust_tier ≡ TrustTier.t0))
    ⊎ ((p.trust_status ≡ (compute_tier p.trust_score false).0)
        × (p.trust_tier ≡ (compute_tier p.trust_score false).1))

pub record IsRated (p : AgentTrustProfile) : Type 0 where
  pub bounded : IsBounded p
  pub scored : p.trust_score ≤ total_score p
  pub tier : HasTier p

abbrev pub same_agent : AgentTrustProfile → AgentTrustProfile → Bool
same_agent x y = agent_id_of x == agent_id_of y

-- One profile for an agent, and all of them rated.
abbrev pub IsSound : Store → Type 0
IsSound s = (distinct same_agent s.profiles ≡ true) × All IsRated s.profiles

pub new_profile-IsRated :
    (id agent_id : ℕ) (creator_id : Option ℕ) → IsRated (new_profile id agent_id creator_id)
unfolding new_profile compute_tier
new_profile-IsRated id agent_id creator_id = record {
  bounded = record {
    identity = omega arith;
    runtime = omega arith;
    knowledge = omega arith;
    memory = omega arith;
    abuse = refl;
  };
  scored = omega arith;
  tier = inr (refl, refl);
}

pub recompute_profile-IsRated :
    (severe : Bool) (reason : Option Reason) (p : AgentTrustProfile)
    → IsBounded p
    → IsRated (recompute_profile severe reason p)
unfolding recompute_profile compute_tier
recompute_profile-IsRated true reason p b = record {
  bounded = record {
    identity = b.identity;
    runtime = b.runtime;
    knowledge = b.knowledge;
    memory = b.memory;
    abuse = b.abuse;
  };
  scored = omega arith;
  tier = inl (refl, refl);
}
recompute_profile-IsRated false reason p b = record {
  bounded = record {
    identity = b.identity;
    runtime = b.runtime;
    knowledge = b.knowledge;
    memory = b.memory;
    abuse = b.abuse;
  };
  scored = omega arith;
  tier = inr (refl, refl);
}

-- A rating sets one stage, within its points, and leaves the agent.
pub record SetsStage (f : AgentTrustProfile → AgentTrustProfile) : Type 0 where
  pub keeps_agent : (p : AgentTrustProfile) → (f p).agent_id ≡ p.agent_id
  pub keeps_bounds : (p : AgentTrustProfile) → IsBounded p → IsBounded (f p)

-- What a rating leaves: the agent's profile is the rating of a profile that was sound.
pub record HasRated (f : AgentTrustProfile → AgentTrustProfile) (severe : Bool)
    (reason : Option Reason) (agent_id : ℕ) (before : Store) (p : AgentTrustProfile) (s : Store)
    : Type 0 where
  pub old : AgentTrustProfile
  pub was_bounded : IsBounded old
  pub rated : p ≡ recompute_profile severe reason (f old)
  pub stored : find_key agent_id_of agent_id s.profiles ≡ some p
  pub sound : IsSound s
  pub same_agents : s.agents ≡ before.agents
  pub was_there :
      (q : AgentTrustProfile) → find_key agent_id_of agent_id before.profiles ≡ some q → old ≡ q
