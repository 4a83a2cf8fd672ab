-- ===== src/Roles/Service.antt =====
-- The operations of marketplace/services/role_service.py on the tables of models/role.py, with the events that
-- they log. A text is a number.
use agentchains.Base.{
  ℕ, Bool, true, false, ◌&&◌, ◌||◌, not, Option, none, some, List, [], ◌∷◌, ◌++◌, select, ◌==◌,
  Result, ok, err, if◌then◌else◌,
}
use agentchains.Base.Table.{scalar_one_or_none, find_key, update}
use agentchains.Roles.Permission
use agentchains.Roles.Model.{
  Role, ActorRole, Action, AuthEvent, Store, Error, Fresh, id_of, is_named, system_roles,
}

abbrev pub get_role_by_name : ℕ → Store → Result Error (Option Role)
get_role_by_name name s = scalar_one_or_none Error.multiple_results (select (is_named name) s.roles)

abbrev pub get_role : ℕ → Store → Option Role
get_role role_id s = find_key id_of role_id s.roles

abbrev pub add_role : Role → Store → Store
add_role r s = record s { roles = r ∷ s.roles }

abbrev pub add_missing : (ℕ → ℕ) → Role → Store → Result Error (Option Role) → Result Error Store
add_missing ids definition s (err e) = err e
add_missing ids definition s (ok (some existing)) = ok s
add_missing ids definition s (ok none) =
    ok (add_role (record definition { id = ids definition.name }) s)

-- The definitions that are left; a fresh id for each name.
unfoldable pub seed : (ℕ → ℕ) → List Role → Store → Result Error Store
seed ids [] s = ok s
seed ids (definition ∷ definitions) s =
    elim (add_missing ids definition s (get_role_by_name definition.name s)) [
      | err e ↦ err e
      | ok s' ↦ seed ids definitions s'
    ]

unfoldable pub seed_system_roles : (ℕ → ℕ) → Store → Result Error Store
unfolding seed
seed_system_roles ids s = seed ids system_roles s

abbrev pub add_new : Role → Store → Result Error (Option Role) → Result Error Store
add_new r s (err e) = err e
add_new r s (ok (some existing)) = err Error.role_exists
add_new r s (ok none) = ok (add_role r s)

unfoldable pub create_role : Fresh → ℕ → ℕ → List ℕ → Store → Result Error Store
create_role fresh name description permissions s =
    add_new
      (record {
        id = fresh.id;
        name = name;
        description = description;
        permissions = permissions;
        is_system = false;
      })
      s (get_role_by_name name s)

abbrev pub given_or : {A : Type 0} → Option A → A → A
given_or none a = a
given_or (some b) a = b

abbrev pub changed : Option ℕ → Option (List ℕ) → Role → Role
changed description permissions r = record r {
  description = given_or description r.description;
  permissions = given_or permissions r.permissions;
}

unfoldable pub update_role : ℕ → Option ℕ → Option (List ℕ) → Store → Result Error Store
update_role role_id description permissions s = elim (get_role role_id s) [
  | none ↦ err Error.role_not_found
  | some r ↦
      ok (record s { roles = update id_of role_id (changed description permissions) s.roles })
]

-- `db.delete` of the row of an id.
abbrev pub delete_by_id : ℕ → List Role → List Role
delete_by_id role_id [] = []
delete_by_id role_id (r ∷ roles) = if r.id == role_id then roles else r ∷ delete_by_id role_id roles

abbrev pub is_of : ℕ → ActorRole → Bool
is_of role_id a = a.role_id == role_id

abbrev pub delete_row : ℕ → Store → Role → Result Error Store
delete_row role_id s r =
    if r.is_system
    then err Error.system_role_kept
    else ok (record s {
      roles = delete_by_id role_id s.roles;
      actor_roles = select (λ a. not (is_of role_id a)) s.actor_roles;
    })

unfoldable pub delete_role : ℕ → Store → Result Error Store
delete_role role_id s = elim (get_role role_id s) [
  | none ↦ err Error.role_not_found
  | some r ↦ delete_row role_id s r
]

abbrev pub log_auth_event : Fresh → AuthEvent → Store → Store
log_auth_event fresh event s =
    if fresh.can_log then record s { auth_events = event ∷ s.auth_events } else s

-- The assignment of a role to an actor.
abbrev pub is_between : ℕ → ℕ → ActorRole → Bool
is_between actor_id role_id a = (a.actor_id == actor_id) && is_of role_id a

abbrev pub add_assignment :
    Fresh → ActorRole → ℕ → Store → Result Error (Option ActorRole) → Result Error Store
add_assignment fresh assignment role_name s (err e) = err e
add_assignment fresh assignment role_name s (ok (some existing)) = ok s
add_assignment fresh assignment role_name s (ok none) = ok (
    log_auth_event fresh
      (record {
        actor_id = assignment.actor_id;
        actor_type = some assignment.actor_type;
        action = Action.assign;
        role = role_name;
        granted_by = some assignment.granted_by;
      })
      (record s { actor_roles = assignment ∷ s.actor_roles }))

abbrev pub new_assignment : Fresh → ℕ → ℕ → ℕ → Role → ActorRole
new_assignment fresh actor_id actor_type granted_by role = record {
  id = fresh.id;
  actor_id = actor_id;
  actor_type = actor_type;
  role_id = role.id;
  granted_by = granted_by;
}

abbrev pub assign_to :
    Fresh → ℕ → ℕ → ℕ → ℕ → Store → Result Error (Option Role) → Result Error Store
assign_to fresh actor_id actor_type role_name granted_by s (err e) = err e
assign_to fresh actor_id actor_type role_name granted_by s (ok none) = err Error.role_name_not_found
assign_to fresh actor_id actor_type role_name granted_by s (ok (some role)) =
    add_assignment fresh (new_assignment fresh actor_id actor_type granted_by role) role_name s (
      scalar_one_or_none Error.multiple_results
        (select (is_between actor_id role.id) s.actor_roles))

unfoldable pub assign_role : Fresh → ℕ → ℕ → ℕ → ℕ → Store → Result Error Store
assign_role fresh actor_id actor_type role_name granted_by s =
    assign_to fresh actor_id actor_type role_name granted_by s (get_role_by_name role_name s)

abbrev pub is_empty : List ActorRole → Bool
is_empty [] = true
is_empty (a ∷ rows) = false

abbrev pub revoke_of : Fresh → ℕ → ℕ → Store → Result Error (Option Role) → Result Error Store
revoke_of fresh actor_id role_name s (err e) = err e
revoke_of fresh actor_id role_name s (ok none) = err Error.role_name_not_found
revoke_of fresh actor_id role_name s (ok (some role)) =
    if is_empty (select (is_between actor_id role.id) s.actor_roles)
    then err Error.lacks_role
    else ok (
        log_auth_event fresh
          (record {
            actor_id = actor_id;
            actor_type = none;
            action = Action.revoke;
            role = role_name;
            granted_by = none;
          })
          (record s {
            actor_roles = select (λ a. not (is_between actor_id role.id a)) s.actor_roles;
          }))

unfoldable pub revoke_role : Fresh → ℕ → ℕ → Store → Result Error Store
revoke_role fresh actor_id role_name s =
    revoke_of fresh actor_id role_name s (get_role_by_name role_name s)

-- The join of the actor's assignments with the roles.
unfoldable pub roles_of : ℕ → List ActorRole → List Role → List Role
roles_of actor_id [] roles = []
roles_of actor_id (a ∷ rows) roles =
    let rest = roles_of actor_id rows roles in
    if a.actor_id == actor_id then select (λ r. r.id == a.role_id) roles ++ rest else rest

abbrev pub get_roles_for_actor : ℕ → Store → List Role
get_roles_for_actor actor_id s = roles_of actor_id s.actor_roles s.roles

abbrev pub is_among : ℕ → List ℕ → Bool
is_among x [] = false
is_among x (y ∷ ys) = (x == y) || is_among x ys

abbrev pub grants : ℕ → Role → Bool
grants permission r = is_among Permission.star r.permissions || is_among permission r.permissions

abbrev pub any_grants : ℕ → List Role → Bool
any_grants permission [] = false
any_grants permission (r ∷ roles) = grants permission r || any_grants permission roles

unfoldable pub has_permission : ℕ → ℕ → Store → Bool
unfolding roles_of
has_permission actor_id permission s = any_grants permission (get_roles_for_actor actor_id s)
