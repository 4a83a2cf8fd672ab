-- ===== src/Roles/Rows.antt =====
-- The rows of roles and of assignments under the updates and deletions of marketplace/services/role_service.py.
use agentchains.Base.{
  ℕ, ◌≡◌, refl, Bool, true, false, ◌&&◌, ◌||◌, Option, some, List, [], ◌∷◌, select, ◌==◌, arith,
}
use agentchains.Base.Table.{find, find_key, update, taken, distinct, distinct-update}
use agentchains.Roles.Model.{Role, ActorRole, id_of}
use agentchains.Roles.Service.{changed, delete_by_id}

abbrev pub same_name : Role → Role → Bool
same_name x y = x.name == y.name

abbrev pub same_pair : ActorRole → ActorRole → Bool
same_pair x y = (x.actor_id == y.actor_id) && (x.role_id == y.role_id)

-- There is a role of the id.
abbrev pub has_role : ℕ → List Role → Bool
has_role k [] = false
has_role k (r ∷ roles) = (r.id == k) || has_role k roles

-- There is a system role of the name.
abbrev pub has_system : ℕ → List Role → Bool
has_system name [] = false
has_system name (r ∷ roles) = ((r.name == name) && r.is_system) || has_system name roles

pub has_role-find :
    (p : Role → Bool) (roles : List Role) (r : Role)
    → find p roles ≡ some r
    → has_role r.id roles ≡ true
has_role-find p [] r h = cc
has_role-find p (x ∷ roles) r h = ground (arith, has_role-find p roles r)

module _ (k : ℕ) where
  pub has_system-update :
      (d : Option ℕ) (p : Option (List ℕ)) (name : ℕ) (roles : List Role)
      → has_system name (update id_of k (changed d p) roles) ≡ has_system name roles
  has_system-update d p name [] = refl
  has_system-update d p name (r ∷ roles) = ground (arith, has_system-update d p name roles)

  pub has_role-update :
      (d : Option ℕ) (p : Option (List ℕ)) (j : ℕ) (roles : List Role)
      → has_role j (update id_of k (changed d p) roles) ≡ has_role j roles
  has_role-update d p j [] = refl
  has_role-update d p j (r ∷ roles) = ground (arith, has_role-update d p j roles)

  pub distinct-changed :
      (d : Option ℕ) (p : Option (List ℕ)) (roles : List Role)
      → distinct same_name (update id_of k (changed d p) roles) ≡ distinct same_name roles
  distinct-changed d p roles =
      distinct-update id_of k (changed d p) same_name (λ x y. refl) (λ x y. refl) roles

  -- A role that is no system role is removed, and the system roles stay.
  pub has_system-delete_by_id :
      (name : ℕ) (roles : List Role) (r : Role)
      → find_key id_of k roles ≡ some r
      → r.is_system ≡ false
      → has_system name roles ≡ true
      → has_system name (delete_by_id k roles) ≡ true
  has_system-delete_by_id name [] r h custom s = cc
  has_system-delete_by_id name (x ∷ roles) r h custom s =
      ground (arith, has_system-delete_by_id name roles r)

  pub has_role-delete_by_id :
      (j : ℕ) (roles : List Role)
      → (j == k) ≡ false
      → has_role j roles ≡ true
      → has_role j (delete_by_id k roles) ≡ true
  has_role-delete_by_id j [] ne h = cc
  has_role-delete_by_id j (r ∷ roles) ne h = ground (arith, has_role-delete_by_id j roles)

  taken-delete_by_id :
      (x : Role) (roles : List Role)
      → taken same_name x roles ≡ false
      → taken same_name x (delete_by_id k roles) ≡ false
  taken-delete_by_id x [] h = refl
  taken-delete_by_id x (r ∷ roles) h = ground (arith, taken-delete_by_id x roles)

  pub distinct-delete_by_id :
      (roles : List Role)
      → distinct same_name roles ≡ true
      → distinct same_name (delete_by_id k roles) ≡ true
  distinct-delete_by_id [] h = refl
  distinct-delete_by_id (r ∷ roles) h =
      ground (arith, distinct-delete_by_id roles, taken-delete_by_id r roles)

-- A role of the same name is the row that the query for the name finds.
pub taken_of_find :
    (name : ℕ) (x : Role) (roles : List Role) (r : Role)
    → find (λ y. y.name == name) roles ≡ some r
    → taken same_name x roles ≡ false
    → (x.name == name) ≡ false
taken_of_find name x [] r h t = cc
taken_of_find name x (y ∷ roles) r h t = ground (arith, taken_of_find name x roles r)

-- Deleting rows keeps what holds of every row, and the constraint.
module _ (p : ActorRole → Bool) where
  taken-select :
      (x : ActorRole) (rows : List ActorRole)
      → taken same_pair x rows ≡ false
      → taken same_pair x (select p rows) ≡ false
  taken-select x [] h = refl
  taken-select x (a ∷ rows) h = ground (arith, taken-select x rows)

  pub distinct-select :
      (rows : List ActorRole)
      → distinct same_pair rows ≡ true
      → distinct same_pair (select p rows) ≡ true
  distinct-select [] h = refl
  distinct-select (a ∷ rows) h = ground (arith, distinct-select rows, taken-select a rows)
