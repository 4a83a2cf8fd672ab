-- ===== src/Roles/Reach.antt =====
-- Sequences of calls of marketplace/services/role_service.py, from the first start on.
use agentchains.Base.{ℕ, ◌≡◌, refl, true, Option, List, [], ◌∷◌, All, Result, ok, err, IfReturns}
use agentchains.Roles.Model.{Store, Error, Fresh, empty, system_roles}
use agentchains.Roles.Service.{
  seed_system_roles, create_role, update_role, delete_role, assign_role, revoke_role, seed,
}
use agentchains.Roles.Rows.{has_system}
use agentchains.Roles.Sound.{IsSound, Keeps, Keeps-trans, same_store}
use agentchains.Roles.Kept.{
  seed-Keeps, create_role-Keeps, update_role-Keeps, delete_role-Keeps, assign_role-Keeps,
  revoke_role-Keeps,
}

pub data Call : Type 0 where
  seeds : (ℕ → ℕ) → Call
  creates : Fresh → ℕ → ℕ → List ℕ → Call
  updates : ℕ → Option ℕ → Option (List ℕ) → Call
  deletes : ℕ → Call
  assigns : Fresh → ℕ → ℕ → ℕ → ℕ → Call
  revokes : Fresh → ℕ → ℕ → Call

unfoldable step : Call → Store → Result Error Store
unfolding seed_system_roles create_role update_role delete_role assign_role revoke_role
step (Call.seeds ids) = seed_system_roles ids
step (Call.creates fresh name d p) = create_role fresh name d p
step (Call.updates role_id d p) = update_role role_id d p
step (Call.deletes role_id) = delete_role role_id
step (Call.assigns fresh actor_id actor_type name by) =
    assign_role fresh actor_id actor_type name by
step (Call.revokes fresh actor_id name) = revoke_role fresh actor_id name

-- A call that raises leaves the tables as they were.
abbrev after : Store → Result Error Store → Store
after s (err e) = s
after s (ok s') = s'

unfoldable pub run : List Call → Store → Store
unfolding step
run [] s = s
run (c ∷ calls) s = run calls (after s (step c s))

-- Sound tables with a system role for every name that is seeded.
abbrev pub IsSeeded : Store → Type 0
IsSeeded s = IsSound s × All (λ d. has_system d.name s.roles ≡ true) system_roles

step-Keeps : (c : Call) (s : Store) → IsSound s → IfReturns (Keeps s) (step c s)
unfolding step seed_system_roles
step-Keeps (Call.seeds ids) s h = seed-Keeps ids system_roles s h
step-Keeps (Call.creates fresh name d p) s h = create_role-Keeps fresh name d p s h
step-Keeps (Call.updates role_id d p) s h = update_role-Keeps role_id d p s h
step-Keeps (Call.deletes role_id) s h = delete_role-Keeps role_id s h
step-Keeps (Call.assigns fresh actor_id actor_type name by) s h =
    assign_role-Keeps fresh actor_id actor_type name by s h
step-Keeps (Call.revokes fresh actor_id name) s h = revoke_role-Keeps fresh actor_id name s h

after-Keeps :
    (s : Store) (o : Result Error Store) → IsSound s → IfReturns (Keeps s) o → Keeps s (after s o)
after-Keeps s (err e) h k = same_store s h
after-Keeps s (ok s') h k = k

run-Keeps : (calls : List Call) (s : Store) → IsSound s → Keeps s (run calls s)
unfolding run
run-Keeps [] s h = same_store s h
run-Keeps (c ∷ calls) s h =
    let once = after-Keeps s (step c s) h (step-Keeps c s h) in
    let s' = after s (step c s) in Keeps-trans s s' (run calls s') once (run-Keeps calls s' once.0)

-- From empty tables, after the seeding at the first start and whatever calls follow, further seedings among
-- them, refused or not: no two roles have the same name, no actor has the same role assigned twice, every
-- assignment is of a role that there is, and there is a system role for every name that is seeded.
pub run-IsSeeded :
    (ids : ℕ → ℕ) (calls : List Call) → IsSeeded (run calls (run (Call.seeds ids ∷ []) empty))
unfolding run seed_system_roles seed
run-IsSeeded ids calls =
    let s = run (Call.seeds ids ∷ []) empty in
    let (sound, keeps) = run-Keeps calls s (refl, refl, tt) in
    (
      sound,
      (
        keeps _ refl,
        (keeps _ refl, (keeps _ refl, (keeps _ refl, (keeps _ refl, (keeps _ refl, tt))))),
      ),
    )
