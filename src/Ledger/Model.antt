-- ===== src/Ledger/Model.antt =====
-- The rows of marketplace/models/token_account.py and the constraints that a commit checks.
-- Identifiers are compared and sorted only, so they are numbers; amounts are micro-dollars. The
-- `memo` text, the currency and `created_at` of an account are left out: nothing reads them.
use agentchains.Base.{
  ℕ, Bool, false, Option, none, some, List, ◌==◌, ◌&&◌, all, Action, ok, err, if◌then◌else◌,
}
use agentchains.Base.Int.{ℤ, pos, leb_ℤ}
use agentchains.Base.Table.{distinct}
use agentchains.Ledger.Decimal.{Decimal}

pub data Error : Type 0 where
  amount_not_positive no_sender no_receiver no_account no_platform insufficient_balance : Error
  account_not_found multiple_results integrity key_error : Error

pub data TxType : Type 0 where
  purchase sale deposit creator_royalty withdrawal refund : TxType
  other : ℕ → TxType

pub data RefType : Type 0 where
  transaction deposit creator_royalty redemption redemption_cancel redemption_rejected : RefType
  other : ℕ → RefType

-- `f"purchase-{id}"`, `f"deposit-{id}"`, `f"royalty-{id}"`, and a caller's own non-empty key.
pub data Key : Type 0 where
  purchase deposit royalty custom : ℕ → Key

abbrev pub key_eq : Key → Key → Bool
key_eq (Key.purchase a) (Key.purchase b) = a == b
key_eq (Key.deposit a) (Key.deposit b) = a == b
key_eq (Key.royalty a) (Key.royalty b) = a == b
key_eq (Key.custom a) (Key.custom b) = a == b
key_eq _ _ = false

pub record TokenAccount : Type 0 where
  pub id : ℕ
  pub agent_id : Option ℕ
  pub creator_id : Option ℕ
  pub balance : ℤ
  pub total_deposited : ℤ
  pub total_earned : ℤ
  pub total_spent : ℤ
  pub total_fees_paid : ℤ
  pub updated_at : ℕ

pub record TokenLedger : Type 0 where
  pub id : ℕ
  pub from_account_id : Option ℕ
  pub to_account_id : Option ℕ
  pub amount : ℤ
  pub fee_amount : ℤ
  pub tx_type : TxType
  pub reference_id : Option ℕ
  pub reference_type : Option RefType
  pub idempotency_key : Option Key
  pub created_at : ℕ
  pub prev_hash : Option ℕ
  pub entry_hash : Option ℕ

-- The columns of `registered_agents` that the ledger reads.
pub record RegisteredAgent : Type 0 where
  pub id : ℕ
  pub creator_id : Option ℕ

pub record Db : Type 0 where
  pub accounts : List TokenAccount
  pub ledger : List TokenLedger
  pub agents : List RegisteredAgent

-- One field of the text that an entry's hash is taken of.
pub data Field : Type 0 where
  genesis mint withdraw : Field
  hash account stamp : ℕ → Field
  money : ℤ → Field
  kind : TxType → Field

-- What a call takes from outside the file: the settings, SHA-256 of the joined fields, the fresh ids
-- of `uuid4` and the readings of the clock, in the order of the calls.
pub record Host : Type 0 where
  pub platform_fee_pct : Decimal
  pub creator_royalty_pct : Decimal
  pub sha256 : List Field → ℕ
  pub new_id : ℕ
  pub royalty_id : ℕ
  pub now : ℕ
  pub created_at : ℕ
  pub royalty_created_at : ℕ

-- Columns that are both set and equal.
abbrev pub both_equal : Option ℕ → Option ℕ → Bool
both_equal (some a) (some b) = a == b
both_equal _ _ = false

abbrev pub same_key : TokenLedger → TokenLedger → Bool
same_key x y = elim x.idempotency_key [
  | none ↦ false
  | some k ↦ elim y.idempotency_key [ none ↦ false | some j ↦ key_eq k j ]
]

-- The primary key, the two unique columns and the check constraint of `token_accounts`.
abbrev pub accounts_hold : List TokenAccount → Bool
accounts_hold rows =
    distinct (λ x y. x.id == y.id) rows
    && (distinct (λ x y. both_equal x.agent_id y.agent_id) rows
        && (distinct (λ x y. both_equal x.creator_id y.creator_id) rows
            && all (λ x. leb_ℤ (pos 0) x.balance) rows))

-- The primary key and the unique idempotency key of `token_ledger`.
abbrev pub ledger_holds : List TokenLedger → Bool
ledger_holds rows = distinct (λ x y. x.id == y.id) rows && distinct same_key rows

abbrev pub constraints_hold : Db → Bool
constraints_hold db = accounts_hold db.accounts && ledger_holds db.ledger

-- `db.commit()`: a violated constraint raises, and the session is rolled back.
unfoldable pub commit : Action Error Db (Unit {0})
commit db = if constraints_hold db then ok (tt, db) else err integrity
