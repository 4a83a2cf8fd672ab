-- ===== src/Roles/Kept.antt =====
-- Each operation of marketplace/services/role_service.py keeps the tables sound and the system roles.
use agentchains.Base.{
  ℕ, ◌≡◌, refl, ◌∙◌, Bool, true, false, not, Option, none, some, List, [], ◌∷◌, select, Result, ok,
  err, IfReturns, if◌then◌else◌, arith,
}
use agentchains.Base.Table.{scalar_one_or_none, update, taken, find_of_scalar, find-none_of_scalar}
use agentchains.Roles.Model.{Role, ActorRole, Store, Error, Fresh, AuthEvent, id_of, is_named}
use agentchains.Roles.Service.{
  is_between, get_role, get_role_by_name, add_new, add_missing, add_assignment, assign_to,
  revoke_of, log_auth_event, changed, seed, create_role, update_role, delete_role, delete_row,
  assign_role, revoke_role,
}
use agentchains.Roles.Rows.{
  same_pair, has_role, has_role-find, has_system-update, has_role-update, distinct-changed,
  has_system-delete_by_id, distinct-delete_by_id, distinct-select,
}
use agentchains.Roles.Sound.{
  IsSound, Keeps, Keeps-trans, free_pair, Refers-map, Refers-delete_by_id, All-select,
  add_role-Keeps, same_store,
}

add_missing-Keeps :
    (ids : ℕ → ℕ) (x : Role) (s : Store) (o : Result Error (Option Role))
    → get_role_by_name x.name s ≡ o
    → IsSound s
    → IfReturns (Keeps s) (add_missing ids x s o)
add_missing-Keeps ids x s (err e) q h = tt
add_missing-Keeps ids x s (ok (some r)) q h = same_store s h
add_missing-Keeps ids x s (ok none) q h = add_role-Keeps (record x { id = ids x.name }) s h q

pub seed-Keeps :
    (ids : ℕ → ℕ) (definitions : List Role) (s : Store)
    → IsSound s
    → IfReturns (Keeps s) (seed ids definitions s)
unfolding seed
seed-Keeps ids [] s h = same_store s h
seed-Keeps ids (x ∷ definitions) s h =
    seed_rest (add_missing ids x s (get_role_by_name x.name s))
      (add_missing-Keeps ids x s (get_role_by_name x.name s) refl h)
      (λ s' h'. seed-Keeps ids definitions s' h')
  where
    then_keeps :
        (s' : Store) (o : Result Error Store)
        → Keeps s s'
        → IfReturns (Keeps s') o
        → IfReturns (Keeps s) o
    then_keeps s' (err e) k rest = tt
    then_keeps s' (ok s'') k rest = Keeps-trans s s' s'' k rest

    seed_rest :
        (o : Result Error Store)
        → IfReturns (Keeps s) o
        → ((s' : Store) → IsSound s' → IfReturns (Keeps s') (seed ids definitions s'))
        → IfReturns (Keeps s) (elim o [ err e ↦ err e | ok s' ↦ seed ids definitions s' ])
    seed_rest (err e) k rest = tt
    seed_rest (ok s') k rest = then_keeps s' (seed ids definitions s') k (rest s' k.0)

pub create_role-Keeps :
    (fresh : Fresh) (name description : ℕ) (permissions : List ℕ) (s : Store)
    → IsSound s
    → IfReturns (Keeps s) (create_role fresh name description permissions s)
unfolding create_role
create_role-Keeps fresh name description permissions s h = by_query _ (get_role_by_name name s) refl
  where
    by_query :
        (x : Role) (o : Result Error (Option Role))
        → get_role_by_name x.name s ≡ o
        → IfReturns (Keeps s) (add_new x s o)
    by_query x (err e) q = tt
    by_query x (ok (some r)) q = tt
    by_query x (ok none) q = add_role-Keeps x s h q

pub update_role-Keeps :
    (role_id : ℕ) (d : Option ℕ) (p : Option (List ℕ)) (s : Store)
    → IsSound s
    → IfReturns (Keeps s) (update_role role_id d p s)
unfolding update_role
update_role-Keeps role_id d p s (names, pairs, refers) =
    elim (get_role role_id s)
      as (λ o. IfReturns (Keeps s) (elim o [
        | none ↦ err Error.role_not_found
        | some r ↦ ok (record s { roles = update id_of role_id (changed d p) s.roles })
      ])) [
        | none ↦ tt
        | some r ↦ (
          (
            distinct-changed role_id d p s.roles ∙ names,
            pairs,
            Refers-map s.roles _ s.actor_roles (λ k h. has_role-update role_id d p k s.roles ∙ h)
                refers,
          ),
          λ name h. has_system-update role_id d p name s.roles ∙ h,
        )
      ]

pub delete_role-Keeps :
    (role_id : ℕ) (s : Store) → IsSound s → IfReturns (Keeps s) (delete_role role_id s)
unfolding delete_role
delete_role-Keeps role_id s (names, pairs, refers) = by_row (get_role role_id s) refl
  where
    by_kind :
        (r : Role) (kind : Bool)
        → get_role role_id s ≡ some r
        → r.is_system ≡ kind
        → IfReturns (Keeps s) (delete_row role_id s r)
    by_kind r true q k = rw k tt
    by_kind r false q k = rw k (
      (
        distinct-delete_by_id role_id s.roles names,
        distinct-select _ s.actor_roles pairs,
        Refers-delete_by_id role_id s.roles s.actor_roles refers,
      ),
      λ name h. has_system-delete_by_id role_id name s.roles r q k h,
    )

    by_row :
        (o : Option Role)
        → get_role role_id s ≡ o
        → IfReturns
            (Keeps s)
            (elim o [ none ↦ err Error.role_not_found | some r ↦ delete_row role_id s r ])
    by_row none q = tt
    by_row (some r) q = by_kind r r.is_system q refl

-- A logged event leaves the tables of roles alone.
log-Keeps :
    (fresh : Fresh) (event : AuthEvent) (s s' : Store)
    → Keeps s s'
    → Keeps s (log_auth_event fresh event s')
log-Keeps fresh event s s' k =
    elim fresh.can_log
      as (λ b. Keeps s (if b then record s' { auth_events = event ∷ s'.auth_events } else s')) [
        | true ↦ k
        | false ↦ k
      ]

add_assignment-Keeps :
    (fresh : Fresh) (x : ActorRole) (name : ℕ) (s : Store) (o : Result Error (Option ActorRole))
    → scalar_one_or_none Error.multiple_results
        (select (is_between x.actor_id x.role_id) s.actor_roles)
      ≡ o
    → has_role x.role_id s.roles ≡ true
    → IsSound s
    → IfReturns (Keeps s) (add_assignment fresh x name s o)
add_assignment-Keeps fresh x name s (err e) q known h = tt
add_assignment-Keeps fresh x name s (ok (some a)) q known h = same_store s h
add_assignment-Keeps fresh x name s (ok none) q known (names, pairs, refers) =
    let free : taken same_pair x s.actor_roles ≡ false =
      free_pair x s.actor_roles (find-none_of_scalar Error.multiple_results _ s.actor_roles q) in
    log-Keeps fresh _ s _ ((names, ground (arith, free, pairs), (known, refers)), λ n k. k)

pub assign_role-Keeps :
    (fresh : Fresh) (actor_id actor_type name granted_by : ℕ) (s : Store)
    → IsSound s
    → IfReturns (Keeps s) (assign_role fresh actor_id actor_type name granted_by s)
unfolding assign_role
assign_role-Keeps fresh actor_id actor_type name granted_by s h =
    by_query (get_role_by_name name s) refl
  where
    by_query :
        (o : Result Error (Option Role))
        → get_role_by_name name s ≡ o
        → IfReturns (Keeps s) (assign_to fresh actor_id actor_type name granted_by s o)
    by_query (err e) q = tt
    by_query (ok none) q = tt
    by_query (ok (some r)) q =
        add_assignment-Keeps fresh _ name s _ refl
          (has_role-find (is_named name) s.roles r
            (find_of_scalar Error.multiple_results (is_named name) s.roles r q))
          h

pub revoke_role-Keeps :
    (fresh : Fresh) (actor_id name : ℕ) (s : Store)
    → IsSound s
    → IfReturns (Keeps s) (revoke_role fresh actor_id name s)
unfolding revoke_role
revoke_role-Keeps fresh actor_id name s (names, pairs, refers) = by_query (get_role_by_name name s)
  where
    rows_left :
        (r : Role) (event : AuthEvent) (none_left : Bool)
        → IfReturns (Keeps s) (
            if none_left
            then err Error.lacks_role
            else ok (
                log_auth_event fresh event (record s {
                  actor_roles = select (λ a. not (is_between actor_id r.id a)) s.actor_roles;
                })))
    rows_left r event true = tt
    rows_left r event false = log-Keeps fresh event s _ (
      (names, distinct-select _ s.actor_roles pairs, All-select _ _ s.actor_roles refers),
      λ n k. k,
    )

    by_query :
        (o : Result Error (Option Role)) → IfReturns (Keeps s) (revoke_of fresh actor_id name s o)
    by_query (err e) = tt
    by_query (ok none) = tt
    by_query (ok (some r)) = rows_left r _ _
