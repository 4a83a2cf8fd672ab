-- ===== src/Roles/Model.antt =====
-- The tables of models/role.py, what the calls of marketplace/services/role_service.py raise and take from
-- outside, and the roles that it seeds. A text is a number; the times of the rows are left out.
use agentchains.Base.{ℕ, Bool, true, Option, List, [], ◌∷◌, ◌==◌}
use agentchains.Roles.RoleName
use agentchains.Roles.Permission

pub record Role : Type 0 where
  pub id : ℕ
  pub name : ℕ
  pub description : ℕ
  pub permissions : List ℕ
  pub is_system : Bool

pub record ActorRole : Type 0 where
  pub id : ℕ
  pub actor_id : ℕ
  pub actor_type : ℕ
  pub role_id : ℕ
  pub granted_by : ℕ

-- The details of an event, and what is known of its actor's type and of who granted the role.
pub data Action : Type 0 where
  assign revoke : Action

pub record AuthEvent : Type 0 where
  pub actor_id : ℕ
  pub actor_type : Option ℕ
  pub action : Action
  pub role : ℕ
  pub granted_by : Option ℕ

pub record Store : Type 0 where
  pub roles : List Role
  pub actor_roles : List ActorRole
  pub auth_events : List AuthEvent

abbrev pub empty : Store
empty = record { roles = []; actor_roles = []; auth_events = [] }

pub data Error : Type 0 where
  multiple_results role_exists role_not_found role_name_not_found system_role_kept lacks_role :
      Error

-- A fresh id, and whether the row of an event can be written.
pub record Fresh : Type 0 where
  pub id : ℕ
  pub can_log : Bool

abbrev pub id_of : Role → ℕ
id_of r = r.id

abbrev pub is_named : ℕ → Role → Bool
is_named name r = r.name == name

abbrev system_role : ℕ → List ℕ → Role
system_role name permissions = record {
  id = 0;
  name = name;
  description = name;
  permissions = permissions;
  is_system = true;
}

-- The rows that are seeded, but for their ids.
abbrev pub system_roles : List Role
system_roles =
    system_role RoleName.admin (Permission.star ∷ [])
    ∷ system_role RoleName.moderator (
        Permission.agents_read ∷ Permission.agents_suspend ∷ Permission.listings_read
        ∷ Permission.listings_moderate ∷ Permission.users_read ∷ Permission.auth_events_read ∷ [])
    ∷ system_role RoleName.finance (
        Permission.payouts_read ∷ Permission.payouts_approve ∷ Permission.payouts_reject
        ∷ Permission.transactions_read ∷ Permission.billing_read ∷ Permission.finance_read ∷ [])
    ∷ system_role RoleName.support (
        Permission.agents_read ∷ Permission.users_read ∷ Permission.creators_read
        ∷ Permission.transactions_read ∷ Permission.auth_events_read ∷ [])
    ∷ system_role RoleName.creator (
        Permission.agents_create ∷ Permission.agents_read ∷ Permission.listings_create
        ∷ Permission.listings_read ∷ Permission.creators_profile ∷ [])
    ∷ system_role RoleName.user
        (Permission.listings_read ∷ Permission.transactions_create ∷ Permission.users_profile ∷ [])
    ∷ []
