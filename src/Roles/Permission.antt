-- ===== src/Roles/Permission.antt =====
-- The permissions of the system roles of marketplace/services/role_service.py, a number for each text; a
-- colon of the text is an underscore here, and `star` is "*".
use Prim.Native.Nat.{ℕ}

abbrev pub star : ℕ
star = 0

abbrev pub agents_read : ℕ
agents_read = 1

abbrev pub agents_suspend : ℕ
agents_suspend = 2

abbrev pub listings_read : ℕ
listings_read = 3

abbrev pub listings_moderate : ℕ
listings_moderate = 4

abbrev pub users_read : ℕ
users_read = 5

abbrev pub auth_events_read : ℕ
auth_events_read = 6

abbrev pub payouts_read : ℕ
payouts_read = 7

abbrev pub payouts_approve : ℕ
payouts_approve = 8

abbrev pub payouts_reject : ℕ
payouts_reject = 9

abbrev pub transactions_read : ℕ
transactions_read = 10

abbrev pub billing_read : ℕ
billing_read = 11

abbrev pub finance_read : ℕ
finance_read = 12

abbrev pub creators_read : ℕ
creators_read = 13

abbrev pub agents_create : ℕ
agents_create = 14

abbrev pub listings_create : ℕ
listings_create = 15

abbrev pub creators_profile : ℕ
creators_profile = 16

abbrev pub transactions_create : ℕ
transactions_create = 17

abbrev pub users_profile : ℕ
users_profile = 18
