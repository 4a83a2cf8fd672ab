-- ===== src/Roles/RoleName.antt =====
-- The names and descriptions of the system roles of marketplace/services/role_service.py, a number for each
-- text; a role's description has the number of its name.
use Prim.Native.Nat.{ℕ}

abbrev pub admin : ℕ
admin = 1

abbrev pub moderator : ℕ
moderator = 2

abbrev pub finance : ℕ
finance = 3

abbrev pub support : ℕ
support = 4

abbrev pub creator : ℕ
creator = 5

abbrev pub user : ℕ
user = 6
