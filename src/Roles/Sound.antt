-- ===== src/Roles/Sound.antt =====
-- What the tables of roles and assignments keep under each operation of marketplace/services/role_service.py.
use agentchains.Base.{
  ℕ, ◌≡◌, refl, Bool, true, false, not, none, List, [], ◌∷◌, All, select, ◌==◌, ok, Bool-cases, inl,
  inr, arith,
}
use agentchains.Base.Table.{scalar_one_or_none, find, taken, distinct, find-none_of_scalar}
use agentchains.Roles.Model.{Role, ActorRole, Store, Error, is_named}
use agentchains.Roles.Service.{
  is_of, is_between, get_role, get_role_by_name, add_new, add_missing, add_assignment, assign_to,
  revoke_of, seed, seed_system_roles, create_role, update_role, delete_role, delete_row,
  assign_role, revoke_role,
}
use agentchains.Roles.Service
use agentchains.Roles.Rows.{same_name, same_pair, has_role, has_system, has_role-delete_by_id}

-- Every assignment names a role that there is.
abbrev pub Refers : List Role → List ActorRole → Type 0
Refers roles = All (λ a. has_role a.role_id roles ≡ true)

-- The unique constraints of the tables, and the foreign key.
abbrev pub IsSound : Store → Type 0
IsSound s =
    (distinct same_name s.roles ≡ true)
    × (distinct same_pair s.actor_roles ≡ true)
    × Refers s.roles s.actor_roles

-- A system role of the name stays.
abbrev pub KeepsSystem : Store → Store → Type 0
KeepsSystem s s' = (name : ℕ) → has_system name s.roles ≡ true → has_system name s'.roles ≡ true

abbrev pub Keeps : Store → Store → Type 0
Keeps s s' = IsSound s' × KeepsSystem s s'

pub Keeps-trans : (s s' s'' : Store) → Keeps s s' → Keeps s' s'' → Keeps s s''
Keeps-trans s s' s'' (_, first) (sound, second) = (sound, λ name h. second name (first name h))

free_name :
    (x : Role) (roles : List Role)
    → find (is_named x.name) roles ≡ none
    → taken same_name x roles ≡ false
free_name x [] h = refl
free_name x (r ∷ roles) h = ground (arith, free_name x roles)

pub free_pair :
    (x : ActorRole) (rows : List ActorRole)
    → find (is_between x.actor_id x.role_id) rows ≡ none
    → taken same_pair x rows ≡ false
free_pair x [] h = refl
free_pair x (a ∷ rows) h = ground (arith, free_pair x rows)

pub Refers-map :
    (roles roles' : List Role) (rows : List ActorRole)
    → ((k : ℕ) → has_role k roles ≡ true → has_role k roles' ≡ true)
    → Refers roles rows
    → Refers roles' rows
Refers-map roles roles' [] keep h = tt
Refers-map roles roles' (a ∷ rows) keep h =
    (keep a.role_id h.0, Refers-map roles roles' rows keep h.1)

pub All-select :
    (P : ActorRole → Type 0) (p : ActorRole → Bool) (rows : List ActorRole)
    → All P rows
    → All P (select p rows)
All-select P p [] h = tt
All-select P p (a ∷ rows) h = elim (Bool-cases (p a)) [
  | inl e ↦ rw e (h.0, All-select P p rows h.1)
  | inr e ↦ rw e (All-select P p rows h.1)
]

-- The assignments that are left when a role is deleted refer to the others.
pub Refers-delete_by_id :
    (k : ℕ) (roles : List Role) (rows : List ActorRole)
    → Refers roles rows
    → Refers (Service.delete_by_id k roles) (select (λ a. not (is_of k a)) rows)
Refers-delete_by_id k roles [] h = tt
Refers-delete_by_id k roles (a ∷ rows) h = elim (Bool-cases (a.role_id == k)) [
  | inl e ↦ rw e (Refers-delete_by_id k roles rows h.1)
  | inr e ↦
      rw e (has_role-delete_by_id k a.role_id roles e h.0, Refers-delete_by_id k roles rows h.1)
]

pub add_role-Keeps :
    (x : Role) (s : Store)
    → IsSound s
    → scalar_one_or_none Error.multiple_results (select (is_named x.name) s.roles) ≡ ok none
    → Keeps s (Service.add_role x s)
add_role-Keeps x s (names, pairs, refers) q =
    let free : taken same_name x s.roles ≡ false =
      free_name x s.roles (find-none_of_scalar Error.multiple_results _ s.roles q) in
    (
      (
        ground (arith, free, names),
        pairs,
        Refers-map s.roles (x ∷ s.roles) s.actor_roles (λ k h. ground (arith, h)) refers,
      ),
      λ name h. ground (arith, h),
    )

pub same_store : (s : Store) → IsSound s → Keeps s s
same_store s h = (h, λ name k. k)
