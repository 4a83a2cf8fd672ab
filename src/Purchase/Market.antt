-- ===== src/Purchase/Market.antt =====
-- The rows of marketplace/models/transaction.py, what a purchase reads of listings and agents, and the
-- lookups that raise. A hash is a number, and a missing or empty one is `none`.
use agentchains.Base.{
  ℕ, Bool, Option, none, some, List, ◌==◌, select, Action, ok, err, reads, gets, modify, pure,
  or_raise, ◌>>=◌, ◌>>◌,
}
use agentchains.Base.Int.{ℤ}
use agentchains.Base.Dict.{Dict, lookup, insert}
use agentchains.Base.Table.{scalar_one_or_none, update}
use agentchains.Ledger.Model.{RegisteredAgent, Db, Host}
use agentchains.Ledger.Model

-- The states of the comment in models/transaction.py.
pub data Status : Type 0 where
  initiated payment_pending payment_confirmed delivering delivered verified : Status
  completed failed disputed refunded : Status

pub data Verification : Type 0 where
  pending verified failed skipped : Verification

pub data Error : Type 0 where
  transaction_not_found listing_not_found agent_not_found not_authorized multiple_results : Error
  invalid_state : Status → Status → Error
  ledger : Model.Error → Error

pub record Transaction : Type 0 where
  pub id : ℕ
  pub listing_id : ℕ
  pub buyer_id : ℕ
  pub seller_id : ℕ
  pub amount_usdc : ℤ
  pub status : Status
  pub payment_tx_hash : Option ℕ
  pub content_hash : Option ℕ
  pub delivered_hash : Option ℕ
  pub verification_status : Verification
  pub paid_at : Option ℕ
  pub delivered_at : Option ℕ
  pub verified_at : Option ℕ
  pub completed_at : Option ℕ

pub record DataListing : Type 0 where
  pub id : ℕ
  pub seller_id : ℕ
  pub price_usdc : ℤ
  pub content_hash : Option ℕ
  pub access_count : ℕ

-- The database, and the cache of listings that `get_listing` reads first; eviction is left out.
pub record Market : Type 0 where
  pub db : Db
  pub transactions : List Transaction
  pub listings : List DataListing
  pub listing_cache : Dict DataListing

-- The payment mode of the settings, SHA-256 of a content, fresh ids and hashes, and the clock.
pub record Env : Type 0 where
  pub simulated : Bool
  pub sha256 : List ℕ → ℕ
  pub transaction_id : ℕ
  pub simulated_hash : ℕ
  pub now : ℕ
  pub host : Host

abbrev pub tx_id_of : Transaction → ℕ
tx_id_of t = t.id

abbrev pub listing_id_of : DataListing → ℕ
listing_id_of l = l.id

-- `_get_transaction`
unfoldable pub get_transaction : ℕ → Action Error Market Transaction
get_transaction tx_id = do
  row ← reads (λ m.
      scalar_one_or_none multiple_results
        (select (λ (t : Transaction). t.id == tx_id) m.transactions))
  or_raise row transaction_not_found

abbrev pub put_listing : DataListing → Market → Market
put_listing l m = record m { listing_cache = insert l.id l m.listing_cache }

abbrev pub load_listing : ℕ → Action Error Market DataListing
load_listing listing_id = do
  row ← reads (λ m.
      scalar_one_or_none multiple_results
        (select (λ (l : DataListing). l.id == listing_id) m.listings))
  listing ← or_raise row listing_not_found
  modify (put_listing listing)
  pure listing

abbrev pub cached_or :
    Option DataListing → Action Error Market DataListing → Action Error Market DataListing
cached_or (some l) m = pure l
cached_or none m = m

unfoldable pub get_listing : ℕ → Action Error Market DataListing
get_listing listing_id = do
  cached ← gets (λ m. lookup listing_id m.listing_cache)
  cached_or cached (load_listing listing_id)

-- `get_agent`, whose cache holds the same rows.
unfoldable pub get_agent : ℕ → Action Error Market RegisteredAgent
get_agent agent_id = do
  row ← reads (λ m.
      scalar_one_or_none multiple_results
        (select (λ (a : RegisteredAgent). a.id == agent_id) m.db.agents))
  or_raise row agent_not_found

abbrev pub change_transaction : ℕ → (Transaction → Transaction) → Action Error Market (Unit {0})
change_transaction id f =
    modify (λ m. record m { transactions = update tx_id_of id f m.transactions })

-- A call of the ledger from within a purchase.
abbrev pub on_ledger : {A : Type 0} → Action Model.Error Db A → Action Error Market A
on_ledger call m = elim (call m.db) [
  | ok (a, db') ↦ ok (a, record m { db = db' })
  | err e ↦ err (ledger e)
]
