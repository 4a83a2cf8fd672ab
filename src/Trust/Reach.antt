-- ===== src/Trust/Reach.antt =====
-- Sequences of calls of marketplace/services/agent_trust_service.py.
use agentchains.Base.{ℕ, Bool, Option, List, [], ◌∷◌, Result, ok, err, Ensures}
use agentchains.Base.Int.{ℤ}
use agentchains.Trust.Model.{Store, Error, Runtime}
use agentchains.Trust.Service.{
  run_identity_attestation, run_runtime_attestation, update_memory_stage,
  get_or_create_trust_profile,
}
use agentchains.Trust.Challenge.{Env, ClaimPayload, run_knowledge_challenge}
use agentchains.Trust.Rated.{IsSound}
use agentchains.Trust.Kept.{
  identity-KeepsSound, runtime-KeepsSound, memory-KeepsSound, create-KeepsSound,
  knowledge-KeepsSound,
}

pub data Call : Type 0 where
  attests_identity : ℕ → ℕ → ℕ → Option ℕ → Call
  attests_runtime : ℕ → ℕ → ℕ → Runtime → Call
  challenges : Env → ℕ → List ℕ → ClaimPayload → Call
  updates_memory : ℕ → ℕ → ℕ → Bool → ℤ → Call
  creates : ℕ → ℕ → Call

-- A call that raises leaves the tables as they were.
abbrev left : {A : Type 0} → Store → Result Error (A × Store) → Store
left s (err e) = s
left s (ok (a, s')) = s'

unfoldable step : Call → Store → Store
unfolding run_identity_attestation run_runtime_attestation run_knowledge_challenge
    update_memory_stage get_or_create_trust_profile
step (Call.attests_identity row profile agent_id creator_id) s =
    left s (run_identity_attestation row profile agent_id creator_id s)
step (Call.attests_runtime row profile agent_id runtime) s =
    left s (run_runtime_attestation row profile agent_id runtime s)
step (Call.challenges env agent_id capabilities payload) s =
    left s (run_knowledge_challenge env agent_id capabilities payload s)
step (Call.updates_memory profile agent_id snapshot quarantined score) s =
    left s (update_memory_stage profile agent_id snapshot quarantined score s)
step (Call.creates profile agent_id) s = left s (get_or_create_trust_profile profile agent_id s)

unfoldable pub run : List Call → Store → Store
unfolding step
run [] s = s
run (c ∷ calls) s = run calls (step c s)

left-IsSound :
    {A : Type 0} (s : Store) (r : Result Error (A × Store))
    → IsSound s
    → Ensures (λ _ s'. IsSound s') r
    → IsSound (left s r)
left-IsSound s (err e) h k = h
left-IsSound s (ok (a, s')) h k = k

step-IsSound : (c : Call) (s : Store) → IsSound s → IsSound (step c s)
unfolding step
step-IsSound (Call.attests_identity row profile agent_id creator_id) s h =
    left-IsSound s _ h (identity-KeepsSound row profile agent_id creator_id s h)
step-IsSound (Call.attests_runtime row profile agent_id runtime) s h =
    left-IsSound s _ h (runtime-KeepsSound row profile agent_id runtime s h)
step-IsSound (Call.challenges env agent_id capabilities payload) s h =
    left-IsSound s _ h (knowledge-KeepsSound env agent_id capabilities payload s h)
step-IsSound (Call.updates_memory profile agent_id snapshot quarantined score) s h =
    left-IsSound s _ h (memory-KeepsSound profile agent_id snapshot quarantined score s h)
step-IsSound (Call.creates profile agent_id) s h =
    left-IsSound s _ h (create-KeepsSound profile agent_id s h)

-- Sound tables, such as ones without profiles, stay sound through any calls, whether they return or raise:
-- an agent has one profile; its stages stay within 20 points for the identity, 20 for the runtime, 30 for
-- the knowledge and 20 for the memory, with 8 for the missing abuse; the score is at most their sum; and the
-- profile is restricted in the lowest tier, or has the status and the tier of its score.
pub run-IsSound : (calls : List Call) (s : Store) → IsSound s → IsSound (run calls s)
unfolding run
run-IsSound [] s h = h
run-IsSound (c ∷ calls) s h = run-IsSound calls (step c s) (step-IsSound c s h)
