-- ===== src/Trust/Rates.antt =====
-- What the ratings of marketplace/services/agent_trust_service.py leave in sound tables.
use mathlib.Core.Path.{subst}
use agentchains.Base.{
  ℕ, ◌≡◌, refl, sym, ◌∙◌, Bool, Option, none, some, ==_self, Result, ok, err, Returns, Ensures,
  reads, ◌>>=◌,
}
use agentchains.Base.Table.{
  find_key, distinct-update, scalar-find_key, taken_of_none, All-update, All-find,
  find_key-update_self,
}
use agentchains.Trust.Model.{
  AgentTrustProfile, Store, Error, Reason, recompute_profile, new_profile,
}
use agentchains.Trust.Service.{agent_id_of, is_of, or_add, change, rate, ensure_trust_profile}
use agentchains.Trust.Rated.{
  IsBounded, IsRated, SetsStage, HasRated, same_agent, IsSound, new_profile-IsRated,
  recompute_profile-IsRated,
}

-- What `ensure_trust_profile` answers with in sound tables.
abbrev IsEnsured : ℕ → Store → AgentTrustProfile × Store → Type 0
IsEnsured agent_id before (p, s) =
    (find_key agent_id_of agent_id s.profiles ≡ some p)
    × IsBounded p
    × IsSound s
    × (s.agents ≡ before.agents)
    × ((q : AgentTrustProfile) → find_key agent_id_of agent_id before.profiles ≡ some q → p ≡ q)

ensure-IsEnsured :
    (id agent_id : ℕ) (creator_id : Option ℕ) (s : Store)
    → IsSound s
    → Returns (IsEnsured agent_id s) (ensure_trust_profile id agent_id creator_id s)
unfolding ensure_trust_profile new_profile
ensure-IsEnsured id agent_id creator_id s (one, rated) =
    subst
      (λ r.
        Returns (IsEnsured agent_id s)
          ((reads (λ _. r) >>= or_add (new_profile id agent_id creator_id)) s))
      (sym (scalar-find_key agent_id_of agent_id Error.multiple_results s.profiles one))
      (by_row (find_key agent_id_of agent_id s.profiles) refl)
  where
    by_row :
        (o : Option AgentTrustProfile)
        → find_key agent_id_of agent_id s.profiles ≡ o
        → Returns (IsEnsured agent_id s) (or_add (new_profile id agent_id creator_id) o s)
    by_row (some p) q = (
      q,
      (All-find IsRated (is_of agent_id) s.profiles p rated q).bounded,
      (one, rated),
      refl,
      (λ r k. cc),
    )
    by_row none q =
        let free =
          taken_of_none agent_id_of agent_id (new_profile id agent_id creator_id) s.profiles refl
            q in
        (
          rw (==_self agent_id) refl,
          (new_profile-IsRated id agent_id creator_id).bounded,
          (rw (free, one) refl, (new_profile-IsRated id agent_id creator_id, rated)),
          refl,
          λ r k. cc,
        )

pub rate-HasRated :
    (id agent_id : ℕ) (creator_id : Option ℕ) (f : AgentTrustProfile → AgentTrustProfile)
    (severe : Bool) (reason : Option Reason) (s : Store)
    → SetsStage f
    → IsSound s
    → Returns
        (λ (p, s'). HasRated f severe reason agent_id s p s')
        (rate id agent_id creator_id f severe reason s)
unfolding recompute_profile
rate-HasRated id agent_id creator_id f severe reason s sets sound =
    by_result (ensure_trust_profile id agent_id creator_id s)
      (ensure-IsEnsured id agent_id creator_id s sound)
  where
    g : AgentTrustProfile → AgentTrustProfile
    g p = recompute_profile severe reason (f p)

    by_result :
        (r : Result Error (AgentTrustProfile × Store))
        → Returns (IsEnsured agent_id s) r
        → Returns
            (λ (p, s'). HasRated f severe reason agent_id s p s')
            (elim r as (λ _. Result Error (AgentTrustProfile × Store)) [
              | ok (p, s') ↦ ok (g p, change agent_id g s')
              | err e ↦ err e
            ])
    by_result (err e) h = h
    by_result (ok (p, s')) (found, bounded, (one, rated), agents, was) = record {
      old = p;
      was_bounded = bounded;
      rated = refl;
      same_agents = agents;
      was_there = was;
      stored = find_key-update_self agent_id_of 0 agent_id g sets.keeps_agent s'.profiles p found;
      sound = (
        distinct-update agent_id_of agent_id g same_agent (λ x y. rw (sets.keeps_agent x) refl)
              (λ x y. rw (sets.keeps_agent x) refl) s'.profiles
            ∙ one,
        All-update agent_id_of IsRated agent_id g s'.profiles
            (λ x _ r. recompute_profile-IsRated severe reason (f x) (sets.keeps_bounds x r.bounded))
            rated,
      );
    }

pub ensure-IsSound :
    (id agent_id : ℕ) (creator_id : Option ℕ) (s : Store)
    → IsSound s
    → Ensures (λ _ s'. IsSound s') (ensure_trust_profile id agent_id creator_id s)
ensure-IsSound id agent_id creator_id s sound =
    by_result (ensure_trust_profile id agent_id creator_id s)
      (ensure-IsEnsured id agent_id creator_id s sound)
  where
    by_result :
        (r : Result Error (AgentTrustProfile × Store))
        → Returns (IsEnsured agent_id s) r
        → Ensures (λ _ s'. IsSound s') r
    by_result (err e) h = tt
    by_result (ok (p, s')) (_, _, sound', _, _) = sound'

pub rate-IsSound :
    (id agent_id : ℕ) (creator_id : Option ℕ) (f : AgentTrustProfile → AgentTrustProfile)
    (severe : Bool) (reason : Option Reason) (s : Store)
    → SetsStage f
    → IsSound s
    → Ensures (λ _ s'. IsSound s') (rate id agent_id creator_id f severe reason s)
rate-IsSound id agent_id creator_id f severe reason s sets sound =
    by_result _ (rate-HasRated id agent_id creator_id f severe reason s sets sound)
  where
    by_result :
        (r : Result Error (AgentTrustProfile × Store))
        → Returns (λ (p, s'). HasRated f severe reason agent_id s p s') r
        → Ensures (λ _ s'. IsSound s') r
    by_result (err e) h = tt
    by_result (ok (p, s')) h = h.sound
