-- ===== src/Roles/Access.antt =====
-- What an actor may do after a role is assigned or revoked, of marketplace/services/role_service.py.
use mathlib.Core.Path.{subst}
use agentchains.Base.{
  ℕ, ◌≡◌, ◌≢◌, refl, sym, ◌∙◌, Bool, true, false, not, Option, none, some, List, [], ◌∷◌, All,
  select, ◌==◌, Result, ok, err, IfReturns, Returns, arith,
}
use agentchains.Base.Table.{find, find_of_scalar, scalar_one_or_none}
use agentchains.Roles.Model.{Role, ActorRole, Store, Error, Fresh, AuthEvent, is_named}
use agentchains.Roles.Service.{
  is_between, is_empty, get_role_by_name, log_auth_event, grants, has_permission, revoke_of,
  new_assignment, add_assignment, assign_to, assign_role, roles_of, get_roles_for_actor,
  revoke_role,
}
use agentchains.Roles.Sound.{IsSound, Keeps}
use agentchains.Roles.Kept.{assign_role-Keeps}
use agentchains.Roles.Granted.{any_grants-find, any_grants-roles_of}
use agentchains.Roles.Others.{roles_of-IsOther, distinct-HasId, roles_of-others}

-- The role of the name is found, is assigned to the actor, and another actor has the roles it had.
abbrev IsAssigned : ℕ → ℕ → ℕ → Store → Store → Role → Type 0
IsAssigned actor_id other name s s' r =
    (get_role_by_name name s ≡ ok (some r))
    × (s'.roles ≡ s.roles)
    × (is_empty (select (is_between actor_id r.id) s'.actor_roles) ≡ false)
    × (get_roles_for_actor other s' ≡ get_roles_for_actor other s)

find-is_empty :
    (p : ActorRole → Bool) (rows : List ActorRole) (a : ActorRole)
    → scalar_one_or_none Error.multiple_results (select p rows) ≡ ok (some a)
    → is_empty (select p rows) ≡ false
find-is_empty p rows a h = by_rows (select p rows) h
  where
    by_rows :
        (found : List ActorRole)
        → scalar_one_or_none Error.multiple_results found ≡ ok (some a)
        → is_empty found ≡ false
    by_rows [] h = cc
    by_rows (x ∷ rest) h = refl

module _ (fresh : Fresh) (actor_id actor_type other name granted_by : ℕ) (ne : other ≢ actor_id)
    (s : Store) where
  logged-IsAssigned :
      (r : Role) (event : AuthEvent) (can_log : Bool)
      → get_role_by_name name s ≡ ok (some r)
      → IsAssigned actor_id other name s
          (log_auth_event
            (record fresh { can_log = can_log })
            event
            (record s {
              actor_roles = new_assignment fresh actor_id actor_type granted_by r ∷ s.actor_roles;
            }))
          r
  unfolding roles_of
  logged-IsAssigned r event true found = (found, refl, ground arith, ground (arith, ne))
  logged-IsAssigned r event false found = (found, refl, ground arith, ground (arith, ne))

  add_assignment-IsAssigned :
      (r : Role) (o : Result Error (Option ActorRole))
      → get_role_by_name name s ≡ ok (some r)
      → scalar_one_or_none Error.multiple_results (select (is_between actor_id r.id) s.actor_roles)
        ≡ o
      → IfReturns
          (λ s'. (r : Role) × IsAssigned actor_id other name s s' r)
          (add_assignment fresh (new_assignment fresh actor_id actor_type granted_by r) name s o)
  add_assignment-IsAssigned r (err e) found q = tt
  add_assignment-IsAssigned r (ok none) found q = (r, logged-IsAssigned r _ fresh.can_log found)
  add_assignment-IsAssigned r (ok (some a)) found q =
      (r, (found, refl, find-is_empty _ s.actor_roles a q, refl))

  assign_role-IsAssigned :
      IfReturns
        (λ s'. (r : Role) × IsAssigned actor_id other name s s' r)
        (assign_role fresh actor_id actor_type name granted_by s)
  unfolding assign_role
  assign_role-IsAssigned = by_query (get_role_by_name name s) refl
    where
      by_query :
          (o : Result Error (Option Role))
          → get_role_by_name name s ≡ o
          → IfReturns
              (λ s'. (r : Role) × IsAssigned actor_id other name s s' r)
              (assign_to fresh actor_id actor_type name granted_by s o)
      by_query (err e) q = tt
      by_query (ok none) q = tt
      by_query (ok (some r)) q = add_assignment-IsAssigned r _ q refl

-- No role of the actor has the name, and the other actor has the roles it had.
abbrev pub IsRevoked : ℕ → ℕ → ℕ → Store → Store → Type 0
IsRevoked actor_id other name s s' =
    All (λ r. (r.name == name) ≡ false) (get_roles_for_actor actor_id s')
    × (get_roles_for_actor other s' ≡ get_roles_for_actor other s)

module _ (fresh : Fresh) (actor_id other name : ℕ) (ne : other ≢ actor_id) (s : Store) where
  without-IsRevoked :
      (r : Role) (event : AuthEvent) (can_log : Bool)
      → IsSound s
      → find (is_named name) s.roles ≡ some r
      → IsRevoked actor_id other name s (
          log_auth_event
            (record fresh { can_log = can_log })
            event
            (record s {
              actor_roles = select (λ a. not (is_between actor_id r.id a)) s.actor_roles;
            }))
  without-IsRevoked r event true (names, _, _) found = (
    roles_of-IsOther name r.id actor_id s.actor_roles s.roles
        (distinct-HasId name s.roles r names found),
    roles_of-others actor_id other r.id s.actor_roles s.roles ne,
  )
  without-IsRevoked r event false (names, _, _) found = (
    roles_of-IsOther name r.id actor_id s.actor_roles s.roles
        (distinct-HasId name s.roles r names found),
    roles_of-others actor_id other r.id s.actor_roles s.roles ne,
  )

  revoke_of-IsRevoked :
      (r : Role)
      → IsSound s
      → find (is_named name) s.roles ≡ some r
      → is_empty (select (is_between actor_id r.id) s.actor_roles) ≡ false
      → Returns (IsRevoked actor_id other name s) (revoke_of fresh actor_id name s (ok (some r)))
  revoke_of-IsRevoked r sound found held = rw held (without-IsRevoked r _ fresh.can_log sound found)

Returns-IsRevoked :
    (actor_id other name : ℕ) (s s' : Store) (o : Result Error Store)
    → get_roles_for_actor other s' ≡ get_roles_for_actor other s
    → Returns (IsRevoked actor_id other name s') o
    → Returns (IsRevoked actor_id other name s) o
Returns-IsRevoked actor_id other name s s' (ok s'') same (gone, kept) = (gone, kept ∙ same)
Returns-IsRevoked actor_id other name s s' (err e) same h = absurd h

same_row :
    (r r' : Role) (o : Result Error (Option Role)) → o ≡ ok (some r) → o ≡ ok (some r') → r' ≡ r
same_row r r' o q q' = cc

-- In sound tables, an actor that was given a role, or had it, has every permission that the role grants. To
-- revoke the role at once then succeeds, and leaves the actor no role of that name. The two calls do not
-- change which roles another actor has.
pub assign_then_revoke :
    (fresh fresh' : Fresh) (actor_id actor_type other name granted_by p : ℕ) (r : Role)
    (s s' : Store)
    → IsSound s
    → other ≢ actor_id
    → get_role_by_name name s ≡ ok (some r)
    → grants p r ≡ true
    → assign_role fresh actor_id actor_type name granted_by s ≡ ok s'
    → (has_permission actor_id p s' ≡ true)
      × Returns (IsRevoked actor_id other name s) (revoke_role fresh' actor_id name s')
unfolding has_permission revoke_role
assign_then_revoke fresh fresh' actor_id actor_type other name granted_by p r s s' sound ne q g e =
    let (r', (q', roles, held, kept)) =
      subst (IfReturns (λ t. (r : Role) × IsAssigned actor_id other name s t r)) e
        (assign_role-IsAssigned fresh actor_id actor_type other name granted_by ne s) in
    let (sound', _) =
      subst (IfReturns (Keeps s)) e
        (assign_role-Keeps fresh actor_id actor_type name granted_by s sound) in
    let same : r' ≡ r = same_row r r' (get_role_by_name name s) q q' in
    let here : is_empty (select (is_between actor_id r.id) s'.actor_roles) ≡ false =
      subst (λ x. is_empty (select (is_between actor_id x.id) s'.actor_roles) ≡ false) same held in
    let named : get_role_by_name name s' ≡ ok (some r) =
      subst
        (λ roles.
          scalar_one_or_none Error.multiple_results (select (is_named name) roles) ≡ ok (some r))
        (sym roles) q in
    let found = find_of_scalar Error.multiple_results (is_named name) s'.roles r named in
    (
      any_grants-roles_of p actor_id r.id s'.actor_roles s'.roles here
          (any_grants-find p name s'.roles r found g),
      rw named (
          Returns-IsRevoked actor_id other name s s' _ kept
            (revoke_of-IsRevoked fresh' actor_id other name ne s' r sound' found here)),
    )
