-- ===== src/Roles/Granted.antt =====
-- What an actor may do while a role is assigned to it, of marketplace/services/role_service.py.
use agentchains.Base.{
  ℕ, ◌≡◌, refl, true, false, ◌||◌, some, List, [], ◌∷◌, ◌++◌, select, ◌==◌, ==→eq, Bool-cases, inl,
  inr, arith,
}
use agentchains.Base.Table.{find}
use agentchains.Roles.Model.{Role, ActorRole, is_named}
use agentchains.Roles.Service.{is_between, is_empty, grants, any_grants, roles_of}

module _ (p : ℕ) where
  any_grants-append :
      (xs ys : List Role) → any_grants p (xs ++ ys) ≡ any_grants p xs || any_grants p ys
  any_grants-append [] ys = refl
  any_grants-append (x ∷ xs) ys = elim (Bool-cases (grants p x)) [
    | inl e ↦ rw e refl
    | inr e ↦ rw e (any_grants-append xs ys)
  ]

  pub any_grants-find :
      (name : ℕ) (roles : List Role) (r : Role)
      → find (is_named name) roles ≡ some r
      → grants p r ≡ true
      → any_grants p (select (λ y. y.id == r.id) roles) ≡ true
  any_grants-find name [] r h g = cc
  any_grants-find name (x ∷ roles) r h g = elim (Bool-cases (x.name == name)) [
    | inl e ↦ let same : x ≡ r = ground (arith, h, e) in ground (arith, g, same)
    | inr e ↦ ground (arith, any_grants-find name roles r (rw e at h) g)
  ]

  pub any_grants-roles_of :
      (actor_id k : ℕ) (rows : List ActorRole) (roles : List Role)
      → is_empty (select (is_between actor_id k) rows) ≡ false
      → any_grants p (select (λ y. y.id == k) roles) ≡ true
      → any_grants p (roles_of actor_id rows roles) ≡ true
  unfolding roles_of
  any_grants-roles_of actor_id k [] roles h g = cc
  any_grants-roles_of actor_id k (a ∷ rows) roles h g = elim (Bool-cases (a.actor_id == actor_id)) [
    | inr e ↦ rw e (any_grants-roles_of actor_id k rows roles (rw e at h) g)
    | inl e ↦ elim (Bool-cases (a.role_id == k)) [
      | inl f ↦ rw (e, any_grants-append, ==→eq a.role_id k f, g) refl
      | inr f ↦
          rw (e, any_grants-append)
            (ground (arith, any_grants-roles_of actor_id k rows roles (rw (e, f) at h) g))
    ]
  ]
