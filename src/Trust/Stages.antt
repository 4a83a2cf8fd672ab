-- ===== src/Trust/Stages.antt =====
-- The stages that the operations of marketplace/services/agent_trust_service.py set stay within their points.
use Prim.Native.Nat.{min}
use agentchains.Base.{ℕ, ◌≤◌, refl, Bool, true, false, ◌&&◌, Option, some, arith, leb}
use agentchains.Base.Int.{ℤ, pos_part}
use agentchains.Trust.Model.{Agent, Runtime, Summary}
use agentchains.Trust.Service.{points, is_given, identity_score, runtime_score}
use agentchains.Trust.Challenge.{knowledge_score}
use agentchains.Trust.Rated.{SetsStage}

points_le : (n : ℕ) (b : Bool) → points n b ≤ n
points_le n true = omega arith
points_le n false = omega arith

pub identity-SetsStage :
    (creator_id : Option ℕ) (active : Bool) (agent : Agent)
    → SetsStage (λ p. record p { stage_identity = identity_score creator_id active agent })
unfolding identity_score
identity-SetsStage creator_id active agent = record {
  keeps_agent = λ p. refl;
  keeps_bounds = λ p b. record {
    identity = omega (
      arith,
      points_le 8 (is_given creator_id),
      points_le 4 active,
      points_le 4 (leb 20 agent.public_key_length),
      points_le 4 agent.endpoint_is_http,
    );
    runtime = b.runtime;
    knowledge = b.knowledge;
    memory = b.memory;
    abuse = b.abuse;
  };
}

pub runtime-SetsStage :
    (r : Runtime) → SetsStage (λ p. record p { stage_runtime = runtime_score r })
unfolding runtime_score
runtime-SetsStage r = record {
  keeps_agent = λ p. refl;
  keeps_bounds = λ p b. record {
    identity = b.identity;
    runtime = omega (
      arith,
      points_le 5 (is_given r.runtime_name),
      points_le 5 (is_given r.sdk_version),
      points_le 5 r.endpoint_reachable,
      points_le 5 r.supports_memory,
    );
    knowledge = b.knowledge;
    memory = b.memory;
    abuse = b.abuse;
  };
}

pub knowledge-SetsStage :
    (s : Summary)
    → SetsStage (λ p. record p {
      stage_knowledge = knowledge_score s;
      knowledge_challenge_summary = some s;
    })
unfolding knowledge_score
knowledge-SetsStage s = record {
  keeps_agent = λ p. refl;
  keeps_bounds = λ p b. record {
    identity = b.identity;
    runtime = b.runtime;
    knowledge = omega (
      arith,
      points_le 6 s.citations_present,
      points_le 6 s.schema_valid,
      points_le 6 s.adversarial_resilience,
      points_le 6 s.reproducible,
      points_le 6 (s.freshness_ok && s.tool_constraints_ok),
    );
    memory = b.memory;
    abuse = b.abuse;
  };
}

pub memory-SetsStage :
    (snapshot_id : ℕ) (score : ℤ)
    → SetsStage (λ p. record p {
      stage_memory = min (pos_part score) 20;
      memory_snapshot_id = some snapshot_id;
    })
memory-SetsStage snapshot_id score = record {
  keeps_agent = λ p. refl;
  keeps_bounds = λ p b. record {
    identity = b.identity;
    runtime = b.runtime;
    knowledge = b.knowledge;
    memory = omega arith;
    abuse = b.abuse;
  };
}
