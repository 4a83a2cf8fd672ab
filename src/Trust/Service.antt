-- ===== src/Trust/Service.antt =====
-- The operations of marketplace/services/agent_trust_service.py. Broadcasts are left out; the evidence of a row
-- is what else the row is computed from.
use Prim.Native.Nat.{min}
use agentchains.Base.{
  ℕ, ◌+◌, Bool, true, false, Option, none, some, ◌∷◌, leb, ◌==◌, select, Result, Action, reads,
  modify, pure, or_raise, ◌>>=◌, ◌>>◌, if◌then◌else◌,
}
use agentchains.Base.Int.{ℤ, pos_part}
use agentchains.Base.Table.{scalar_one_or_none, update}
use agentchains.Trust.Model.{
  AgentTrustProfile, Agent, Creator, Runtime, Store, Error, Reason, recompute_profile, new_profile,
}

abbrev pub agent_id_of : AgentTrustProfile → ℕ
agent_id_of p = p.agent_id

abbrev pub is_of : ℕ → AgentTrustProfile → Bool
is_of agent_id p = p.agent_id == agent_id

abbrev pub get_profile : ℕ → Store → Result Error (Option AgentTrustProfile)
get_profile agent_id s =
    scalar_one_or_none Error.multiple_results (select (is_of agent_id) s.profiles)

abbrev pub add_profile : AgentTrustProfile → Store → Store
add_profile p s = record s { profiles = p ∷ s.profiles }

abbrev pub or_add :
    AgentTrustProfile → Option AgentTrustProfile → Action Error Store AgentTrustProfile
or_add fresh (some p) = pure p
or_add fresh none = do modify (add_profile fresh); pure fresh

-- The row that is made where there is none has the given id.
unfoldable pub ensure_trust_profile : ℕ → ℕ → Option ℕ → Action Error Store AgentTrustProfile
ensure_trust_profile id agent_id creator_id = do
  found ← reads (get_profile agent_id)
  or_add (new_profile id agent_id creator_id) found

-- The row that the query for the agent finds is changed.
abbrev pub change : ℕ → (AgentTrustProfile → AgentTrustProfile) → Store → Store
change agent_id f s = record s { profiles = update agent_id_of agent_id f s.profiles }

-- A stage is set, and the rating recomputed.
abbrev pub rate :
    ℕ
    → ℕ
    → Option ℕ
    → (AgentTrustProfile → AgentTrustProfile)
    → Bool
    → Option Reason
    → Action Error Store AgentTrustProfile
rate id agent_id creator_id set_stage severe reason = do
  profile ← ensure_trust_profile id agent_id creator_id
  modify (change agent_id (λ p. recompute_profile severe reason (set_stage p)))
  pure (recompute_profile severe reason (set_stage profile))

abbrev pub find_agent : ℕ → Store → Result Error (Option Agent)
find_agent agent_id s =
    scalar_one_or_none Error.multiple_results (select (λ (a : Agent). a.id == agent_id) s.agents)

abbrev pub require_agent : ℕ → Action Error Store Agent
require_agent agent_id = do row ← reads (find_agent agent_id); or_raise row Error.agent_not_found

abbrev pub find_creator : ℕ → Store → Result Error (Option Creator)
find_creator creator_id s =
    scalar_one_or_none Error.multiple_results
      (select (λ (c : Creator). c.id == creator_id) s.creators)

abbrev pub is_active_creator : Option Creator → Bool
is_active_creator none = false
is_active_creator (some c) = c.is_active

abbrev pub creator_active : Option ℕ → Action Error Store Bool
creator_active none = pure false
creator_active (some creator_id) = do
  row ← reads (find_creator creator_id)
  pure (is_active_creator row)

abbrev pub points : ℕ → Bool → ℕ
points n true = n
points n false = 0

abbrev pub is_given : Option ℕ → Bool
is_given none = false
is_given (some n) = true

unfoldable pub identity_score : Option ℕ → Bool → Agent → ℕ
identity_score creator_id active agent =
    points 8 (is_given creator_id)
    + points 4 active
    + points 4 (leb 20 agent.public_key_length)
    + points 4 agent.endpoint_is_http

-- The ids of the attestation and of a profile are given.
unfoldable pub run_identity_attestation :
    ℕ → ℕ → ℕ → Option ℕ → Action Error Store AgentTrustProfile
unfolding identity_score ensure_trust_profile
run_identity_attestation row_id profile_id agent_id creator_id = do
  agent ← require_agent agent_id
  active ← creator_active creator_id
  modify (λ s. record s {
    identity_attestations =
        record {
          id = row_id;
          agent_id = agent_id;
          creator_id = creator_id;
          score = identity_score creator_id active agent;
        }
        ∷ s.identity_attestations;
  })
  rate profile_id agent_id creator_id
      (λ p. record p { stage_identity = identity_score creator_id active agent }) false none

unfoldable pub runtime_score : Runtime → ℕ
runtime_score r =
    points 5 (is_given r.runtime_name)
    + points 5 (is_given r.sdk_version)
    + points 5 r.endpoint_reachable
    + points 5 r.supports_memory

unfoldable pub run_runtime_attestation : ℕ → ℕ → ℕ → Runtime → Action Error Store AgentTrustProfile
unfolding runtime_score ensure_trust_profile
run_runtime_attestation row_id profile_id agent_id runtime = do
  agent ← require_agent agent_id
  modify (λ s. record s {
    runtime_attestations =
        record {
          id = row_id;
          agent_id = agent_id;
          runtime = runtime;
          score = runtime_score runtime;
        }
        ∷ s.runtime_attestations;
  })
  rate profile_id agent_id none (λ p. record p { stage_runtime = runtime_score runtime }) false none

-- `max(0, min(score, 20))`, and a quarantined snapshot is a severe failure.
unfoldable pub update_memory_stage : ℕ → ℕ → ℕ → Bool → ℤ → Action Error Store AgentTrustProfile
unfolding ensure_trust_profile
update_memory_stage profile_id agent_id snapshot_id quarantined score =
    rate profile_id agent_id none
      (λ p. record p {
        stage_memory = min (pos_part score) 20;
        memory_snapshot_id = some snapshot_id;
      })
      quarantined (if quarantined then some Reason.memory_quarantined_for_safety else none)

unfoldable pub get_trust_profile : ℕ → Action Error Store AgentTrustProfile
get_trust_profile agent_id = do
  found ← reads (get_profile agent_id)
  or_raise found Error.profile_missing

abbrev pub or_make : ℕ → ℕ → Option AgentTrustProfile → Action Error Store AgentTrustProfile
or_make profile_id agent_id (some p) = pure p
or_make profile_id agent_id none = do
  agent ← require_agent agent_id
  ensure_trust_profile profile_id agent_id agent.creator_id

unfoldable pub get_or_create_trust_profile : ℕ → ℕ → Action Error Store AgentTrustProfile
unfolding ensure_trust_profile
get_or_create_trust_profile profile_id agent_id = do
  found ← reads (get_profile agent_id)
  or_make profile_id agent_id found
