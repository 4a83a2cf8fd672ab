-- ===== src/Roles/Tests.antt =====
-- A moderator is appointed and dismissed; calls after the first start; the theorems about them.
use agentchains.Base.{
  ℕ, ◌+◌, ◌≡◌, refl, true, false, none, some, [], ◌∷◌, All, arith, Result, ok, err, Returns, ◌==◌,
}
use agentchains.Roles.RoleName
use agentchains.Roles.Permission
use agentchains.Roles.Model.{Role, ActorRole, Store, Fresh, Error, empty}
use agentchains.Roles.Service.{assign_role, revoke_role, delete_role, has_permission}
use agentchains.Roles.Reach.{Call, run, IsSeeded, run-IsSeeded}
use agentchains.Roles.Access.{IsRevoked, assign_then_revoke}

abbrev fresh : ℕ → Fresh
fresh id = record { id = id; can_log = true }

abbrev moderator : Role
moderator = record {
  id = 102;
  name = RoleName.moderator;
  description = RoleName.moderator;
  permissions =
      Permission.agents_read ∷ Permission.agents_suspend ∷ Permission.listings_read
      ∷ Permission.listings_moderate ∷ Permission.users_read ∷ Permission.auth_events_read ∷ [];
  is_system = true;
}

-- The moderator's role and a role of reporters, which agent 8 has.
abbrev store : Store
store = record {
  roles =
      moderator
      ∷ record { id = 7; name = 70; description = 0; permissions = 99 ∷ []; is_system = false }
      ∷ [];
  actor_roles = record { id = 1; actor_id = 8; actor_type = 0; role_id = 7; granted_by = 1 } ∷ [];
  auth_events = [];
}

abbrev appointed : Store
appointed = record store {
  actor_roles =
      record { id = 2; actor_id = 9; actor_type = 0; role_id = 102; granted_by = 1 }
      ∷ store.actor_roles;
  auth_events =
      record {
        actor_id = 9;
        actor_type = some 0;
        action = agentchains.Roles.Model.Action.assign;
        role = RoleName.moderator;
        granted_by = some 1;
      }
      ∷ [];
}

assigns : assign_role (fresh 2) 9 0 RoleName.moderator 1 store ≡ ok appointed
unfolding assign_role
assigns = refl

system_stays : delete_role 102 store ≡ err Error.system_role_kept
unfolding delete_role
system_stays = refl

reporters_go : has_permission 8 99 store ≡ true
unfolding has_permission
reporters_go = refl

abbrev calls : agentchains.Base.List Call
calls =
    Call.creates (fresh 7) 70 0 (99 ∷ [])
    ∷ Call.assigns (fresh 1) 8 0 70 1
    ∷ Call.deletes 101
    ∷ Call.updates 101 none (some [])
    ∷ Call.deletes 7
    ∷ Call.seeds (λ name. 200 + name)
    ∷ []

run-IsSeeded_example : IsSeeded (run calls (run (Call.seeds (λ name. 100 + name) ∷ []) empty))
run-IsSeeded_example = run-IsSeeded (λ name. 100 + name) calls

assign_then_revoke_example :
    (has_permission 9 Permission.agents_suspend appointed ≡ true)
    × Returns
        (IsRevoked 9 8 RoleName.moderator store)
        (revoke_role (fresh 3) 9 RoleName.moderator appointed)
assign_then_revoke_example =
    assign_then_revoke (fresh 2) (fresh 3) 9 0 8 RoleName.moderator 1 Permission.agents_suspend
      moderator store appointed (refl, refl, (refl, tt)) (omega arith) refl refl assigns
