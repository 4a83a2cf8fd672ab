-- ===== src/Trust/Kept.antt =====
-- Each operation of marketplace/services/agent_trust_service.py leaves sound tables sound.
use agentchains.Base.{
  ℕ, Bool, false, Option, none, some, List, [], ◌∷◌, length, Result, Ensures, Action, reads, pure,
  or_raise, ◌>>=◌, reads_bind, call_bind, or_raise_ends,
}
use agentchains.Base.Int.{ℤ}
use agentchains.Trust.Model.{
  AgentTrustProfile, Store, Error, Runtime, ChallengeType, KnowledgeChallenge, Summary,
}
use agentchains.Trust.Service.{
  find_agent, find_creator, is_active_creator, get_profile, require_agent, creator_active, or_make,
  run_identity_attestation, run_runtime_attestation, update_memory_stage,
  get_or_create_trust_profile,
}
use agentchains.Trust.Challenge.{
  Env, ClaimPayload, find_challenge, new_challenge, ensure_challenge, ensure_types, ensure_all,
  or_create, or_general, base_types, run_knowledge_challenge, judge, rate_knowledge, passes,
  is_severe, knowledge_score, summary_of, ensure_default_challenges,
}
use agentchains.Trust.Rated.{IsSound}
use agentchains.Trust.Rates.{ensure-IsSound, rate-IsSound}
use agentchains.Trust.Stages.{
  identity-SetsStage, runtime-SetsStage, knowledge-SetsStage, memory-SetsStage,
}

-- A call leaves sound tables sound.
abbrev pub KeepsSound : {A : Type 0} → Action Error Store A → Type 0
KeepsSound m = (s : Store) → IsSound s → Ensures (λ _ s'. IsSound s') (m s)

-- A query, and what follows it.
reads-KeepsSound :
    {A B : Type 0} (g : Store → Result Error A) (f : A → Action Error Store B)
    → ((a : A) → KeepsSound (f a))
    → KeepsSound (reads g >>= f)
reads-KeepsSound g f k s h = reads_bind (λ _ s'. IsSound s') f s g λ a _. k a s h

bind-KeepsSound :
    {A B : Type 0} (m : Action Error Store A) (f : A → Action Error Store B)
    → KeepsSound m
    → ((a : A) → KeepsSound (f a))
    → KeepsSound (m >>= f)
bind-KeepsSound m f km k s h =
    call_bind (λ _ s'. IsSound s') f s m (λ _ s'. IsSound s') (km s h) λ a s' h'. k a s' h'

require_agent-KeepsSound : (agent_id : ℕ) → KeepsSound (require_agent agent_id)
require_agent-KeepsSound agent_id =
    reads-KeepsSound (find_agent agent_id) (λ row. or_raise row Error.agent_not_found)
      λ row s h. or_raise_ends (λ _ s'. IsSound s') s row Error.agent_not_found λ a _. h

creator_active-KeepsSound : (creator_id : Option ℕ) → KeepsSound (creator_active creator_id)
creator_active-KeepsSound none s h = h
creator_active-KeepsSound (some c) s h =
    reads-KeepsSound (find_creator c) (λ row. pure (is_active_creator row)) (λ row s' h'. h') s h

pub identity-KeepsSound :
    (row_id profile_id agent_id : ℕ) (creator_id : Option ℕ)
    → KeepsSound (run_identity_attestation row_id profile_id agent_id creator_id)
unfolding run_identity_attestation
identity-KeepsSound row_id profile_id agent_id creator_id s h =
    call_bind (λ _ s'. IsSound s') _ s (require_agent agent_id) (λ _ s'. IsSound s')
      (require_agent-KeepsSound agent_id s h)
      λ agent s₁ h₁.
        call_bind (λ _ s'. IsSound s') _ s₁ (creator_active creator_id) (λ _ s'. IsSound s')
          (creator_active-KeepsSound creator_id s₁ h₁)
          λ active s₂ h₂.
            rate-IsSound profile_id agent_id creator_id _ false none _
              (identity-SetsStage creator_id active agent) h₂

pub runtime-KeepsSound :
    (row_id profile_id agent_id : ℕ) (runtime : Runtime)
    → KeepsSound (run_runtime_attestation row_id profile_id agent_id runtime)
unfolding run_runtime_attestation
runtime-KeepsSound row_id profile_id agent_id runtime s h =
    call_bind (λ _ s'. IsSound s') _ s (require_agent agent_id) (λ _ s'. IsSound s')
      (require_agent-KeepsSound agent_id s h)
      λ agent s₁ h₁.
        rate-IsSound profile_id agent_id none _ false none _ (runtime-SetsStage runtime) h₁

pub memory-KeepsSound :
    (profile_id agent_id snapshot_id : ℕ) (quarantined : Bool) (score : ℤ)
    → KeepsSound (update_memory_stage profile_id agent_id snapshot_id quarantined score)
unfolding update_memory_stage
memory-KeepsSound profile_id agent_id snapshot_id quarantined score s h =
    rate-IsSound profile_id agent_id none _ quarantined _ s (memory-SetsStage snapshot_id score) h

or_make-KeepsSound :
    (profile_id agent_id : ℕ) (found : Option AgentTrustProfile)
    → KeepsSound (or_make profile_id agent_id found)
or_make-KeepsSound profile_id agent_id (some p) s h = h
or_make-KeepsSound profile_id agent_id none s h =
    call_bind (λ _ s'. IsSound s') _ s (require_agent agent_id) (λ _ s'. IsSound s')
      (require_agent-KeepsSound agent_id s h)
      λ agent s₁ h₁. ensure-IsSound profile_id agent_id agent.creator_id s₁ h₁

pub create-KeepsSound :
    (profile_id agent_id : ℕ) → KeepsSound (get_or_create_trust_profile profile_id agent_id)
unfolding get_or_create_trust_profile
create-KeepsSound profile_id agent_id =
    reads-KeepsSound (get_profile agent_id) (or_make profile_id agent_id)
      (or_make-KeepsSound profile_id agent_id)

or_create-KeepsSound :
    (fresh : KnowledgeChallenge) (found : Option KnowledgeChallenge)
    → KeepsSound (or_create fresh found)
or_create-KeepsSound fresh none s h = h
or_create-KeepsSound fresh (some c) s h = h

ensure_challenge-KeepsSound :
    (env : Env) (capability : ℕ) (kind : ChallengeType)
    → KeepsSound (ensure_challenge env capability kind)
unfolding ensure_challenge
ensure_challenge-KeepsSound env capability kind =
    reads-KeepsSound (find_challenge capability kind)
      (or_create (new_challenge env capability kind))
      (or_create-KeepsSound (new_challenge env capability kind))

ensure_types-KeepsSound :
    (env : Env) (capability : ℕ) (kinds : List ChallengeType)
    → KeepsSound (ensure_types env capability kinds)
unfolding ensure_types
ensure_types-KeepsSound env capability [] s h = h
ensure_types-KeepsSound env capability (kind ∷ kinds) s h =
    call_bind (λ _ s'. IsSound s') _ s (ensure_challenge env capability kind) (λ _ s'. IsSound s')
      (ensure_challenge-KeepsSound env capability kind s h)
      λ c s₁ h₁.
        call_bind (λ _ s'. IsSound s') _ s₁ (ensure_types env capability kinds) (λ _ s'. IsSound s')
          (ensure_types-KeepsSound env capability kinds s₁ h₁) λ rows s₂ h₂. h₂

ensure_all-KeepsSound :
    (env : Env) (capabilities : List ℕ) → KeepsSound (ensure_all env capabilities)
unfolding ensure_all
ensure_all-KeepsSound env [] s h = h
ensure_all-KeepsSound env (capability ∷ capabilities) s h =
    call_bind (λ _ s'. IsSound s') _ s (ensure_types env capability base_types) (λ _ s'. IsSound s')
      (ensure_types-KeepsSound env capability base_types s h)
      λ c s₁ h₁.
        call_bind (λ _ s'. IsSound s') _ s₁ (ensure_all env capabilities) (λ _ s'. IsSound s')
          (ensure_all-KeepsSound env capabilities s₁ h₁) λ rows s₂ h₂. h₂

judge-KeepsSound :
    (env : Env) (agent_id : ℕ) (payload : ClaimPayload) (rows : List KnowledgeChallenge)
    → KeepsSound (judge env agent_id payload rows)
judge-KeepsSound env agent_id payload rows s h =
    call_bind (λ _ s'. IsSound s')
      (λ profile. pure (passes (knowledge_score summary) (is_severe env payload), profile)) _
      (rate_knowledge env agent_id summary (is_severe env payload)) (λ _ s'. IsSound s')
      (rate-IsSound env.profile_id agent_id none _ (is_severe env payload) _ _
        (knowledge-SetsStage summary) h)
      λ p s₂ h₂. h₂
  where
    summary : Summary
    summary = summary_of (length rows) payload

pub knowledge-KeepsSound :
    (env : Env) (agent_id : ℕ) (capabilities : List ℕ) (payload : ClaimPayload)
    → KeepsSound (run_knowledge_challenge env agent_id capabilities payload)
unfolding run_knowledge_challenge
knowledge-KeepsSound env agent_id capabilities payload =
    bind-KeepsSound (ensure_default_challenges env capabilities) (judge env agent_id payload)
      (ensure_all-KeepsSound env (or_general env capabilities))
      (judge-KeepsSound env agent_id payload)
