-- ===== src/Trust/Lifted.antt =====
-- A restriction of marketplace/services/agent_trust_service.py lasts until the next rating.
use Prim.Native.Nat.{min}
use mathlib.Core.Path.{subst}
use agentchains.Base.{
  or_raise, ◌∷◌, Returns-mono, select, ◌==◌, ℕ, ◌≡◌, ◌≢◌, sym, ap, ◌∙◌, true, false, none, some,
  arith, ok, Returns, reads, ◌>>=◌,
}
use agentchains.Base.Int.{ℤ, pos_part}
use agentchains.Base.Table.{find_key, scalar_one_or_none}
use agentchains.Trust.Model.{
  AgentTrustProfile, Agent, Store, Error, Reason, TrustStatus, Runtime, compute_tier, total_score,
  recompute_profile,
}
use agentchains.Trust.Service.{
  agent_id_of, find_agent, rate, runtime_score, run_runtime_attestation, update_memory_stage,
}
use agentchains.Trust.Rated.{IsSound, HasRated}
use agentchains.Trust.Rates.{rate-HasRated}
use agentchains.Trust.Stages.{runtime-SetsStage, memory-SetsStage}

compute_tier-unrestricted : (score : ℕ) → (compute_tier score false).0 ≢ TrustStatus.restricted
unfolding compute_tier
compute_tier-unrestricted score = λ e. ground (arith, e)

module _ (row_id profile_id agent_id : ℕ) (runtime : Runtime) where
  abbrev with_row : Store → Store
  with_row s = record s {
    runtime_attestations =
        record {
          id = row_id;
          agent_id = agent_id;
          runtime = runtime;
          score = runtime_score runtime;
        }
        ∷ s.runtime_attestations;
  }

  abbrev set_runtime : AgentTrustProfile → AgentTrustProfile
  set_runtime p = record p { stage_runtime = runtime_score runtime }

  runtime-HasRated :
      (agent : Agent) (s : Store)
      → IsSound s
      → find_agent agent_id s ≡ ok (some agent)
      → Returns
          (λ (p, s'). HasRated set_runtime false none agent_id (with_row s) p s')
          (run_runtime_attestation row_id profile_id agent_id runtime s)
  unfolding run_runtime_attestation
  runtime-HasRated agent s sound known =
      subst
        (λ r.
          Returns (λ (p, s'). HasRated set_runtime false none agent_id (with_row s) p s')
            ((reads (λ _. r) >>= (λ row. or_raise row Error.agent_not_found) >>= λ _ t.
                rate profile_id agent_id none set_runtime false none (with_row t))
              s))
        (sym known)
        (rate-HasRated profile_id agent_id none set_runtime false none (with_row s)
          (runtime-SetsStage runtime) sound)

-- Not restricted any more, with the reason still there.
abbrev pub IsLifted : ℕ → AgentTrustProfile × Store → Type 0
IsLifted agent_id (p, s) =
    (p.trust_status ≢ TrustStatus.restricted)
    × (p.restricted_reason ≡ some Reason.memory_quarantined_for_safety)
    × (find_key agent_id_of agent_id s.profiles ≡ some p)

-- Restricted, until the runtime is attested.
abbrev pub IsLiftable : ℕ → ℕ → ℕ → Runtime → AgentTrustProfile × Store → Type 0
IsLiftable row_id profile_id agent_id runtime (p, s) =
    (p.trust_status ≡ TrustStatus.restricted)
    × Returns (IsLifted agent_id) (run_runtime_attestation row_id profile_id agent_id runtime s)

module _ (row_id profile_id agent_id snapshot_id : ℕ) (score : ℤ) (runtime : Runtime) where
  abbrev set_memory : AgentTrustProfile → AgentTrustProfile
  set_memory p = record p {
    stage_memory = min (pos_part score) 20;
    memory_snapshot_id = some snapshot_id;
  }

  abbrev WasQuarantined : Store → AgentTrustProfile × Store → Type 0
  WasQuarantined s (p, s') =
      HasRated set_memory true (some Reason.memory_quarantined_for_safety) agent_id s p s'

  quarantined-IsLiftable :
      (agent : Agent) (s : Store) (x : AgentTrustProfile × Store)
      → find_agent agent_id s ≡ ok (some agent)
      → WasQuarantined s x
      → IsLiftable row_id profile_id agent_id runtime x
  unfolding recompute_profile compute_tier
  quarantined-IsLiftable agent s (p, s₁) known first = (
    ap (λ q. q.trust_status) first.rated,
    Returns-mono
        (λ (p', s₂).
          HasRated (set_runtime row_id profile_id agent_id runtime) false none agent_id
            (with_row row_id profile_id agent_id runtime s₁) p' s₂)
        (IsLifted agent_id) (run_runtime_attestation row_id profile_id agent_id runtime s₁)
        (λ x. lifted x)
        (runtime-HasRated row_id profile_id agent_id runtime agent s₁ first.sound (
          ap
            (λ agents.
              scalar_one_or_none Error.multiple_results
                (select (λ (a : Agent). a.id == agent_id) agents))
            first.same_agents
          ∙ known)),
  )
    where
      lifted :
          (x : AgentTrustProfile × Store)
          → HasRated
              (set_runtime row_id profile_id agent_id runtime)
              false
              none
              agent_id
              (with_row row_id profile_id agent_id runtime s₁)
              x.0
              x.1
          → IsLifted agent_id x
      lifted (p', s₂) second = (
        (λ e.
            compute_tier-unrestricted
              (total_score (record second.old { stage_runtime = runtime_score runtime }))
              (sym (ap (λ q. q.trust_status) second.rated) ∙ e)),
        ap (λ q. q.restricted_reason) second.rated
            ∙ ap (λ q. q.restricted_reason) (second.was_there p first.stored)
            ∙ ap (λ q. q.restricted_reason) first.rated,
        second.stored,
      )

-- The snapshot of a known agent is quarantined, which restricts the agent; the runtime attestation that
-- follows, whatever it says, lifts the restriction and leaves its reason on the profile. Neither call raises.
pub quarantine_lifted :
    (profile_id profile_id' row_id agent_id snapshot_id : ℕ) (score : ℤ) (runtime : Runtime)
    (agent : Agent) (s : Store)
    → IsSound s
    → find_agent agent_id s ≡ ok (some agent)
    → Returns
        (IsLiftable row_id profile_id' agent_id runtime)
        (update_memory_stage profile_id agent_id snapshot_id true score s)
unfolding update_memory_stage
quarantine_lifted profile_id profile_id' row_id agent_id snapshot_id score runtime agent s sound
      known =
    Returns-mono (WasQuarantined row_id profile_id' agent_id snapshot_id score runtime s)
      (IsLiftable row_id profile_id' agent_id runtime)
      (update_memory_stage profile_id agent_id snapshot_id true score s)
      (λ x.
        quarantined-IsLiftable row_id profile_id' agent_id snapshot_id score runtime agent s x
          known)
      (rate-HasRated profile_id agent_id none
        (set_memory row_id profile_id' agent_id snapshot_id score runtime) true
        (some Reason.memory_quarantined_for_safety) s (memory-SetsStage snapshot_id score) sound)
