-- ===== src/Redemption/Reject.antt =====
-- `admin_reject_redemption`: what a rejection leaves, whatever the status of the request is.
use agentchains.Base.{
  ℕ, ◌≡◌, refl, sym, ap, ◌∙◌, and_left, and_right, Bool, true, Option, none, some, ◌∷◌, arith, ◌==◌,
  Action, Ensures, or_raise_bind, ◌>>=◌, ◌>>◌, pure,
}
use agentchains.Base.Int.{pos, pos_part, neg_part, ◌+ℤ◌, int_laws}
use agentchains.Base.Table.{
  find, find_key, find_key-update_self, update, scalar_bind, sum_by, sum_by-update, distinct,
  distinct-update, find_key_of_find-distinct,
}
use agentchains.Ledger.Model.{TokenAccount, RefType, constraints_hold}
use agentchains.Ledger.Sums.{account_id, total-Shifts, find_key_of_find}
use agentchains.Redemption.Store.{
  Error, RedemptionRequest, Store, Fresh, commit, store_holds, redemption_id_of, change_redemption,
  multiple_results, not_found, rejected,
}
use agentchains.Redemption.Service.{refund, refund_entry, reject_with}
use agentchains.Redemption.Requests.{admin_reject_redemption, refund_to}
use agentchains.Redemption.Value.{
  held, value, Gains, update-Gains, refund-Shifts, commit_ends, is_creators,
}

abbrev pub same_id : RedemptionRequest → RedemptionRequest → Bool
same_id x y = x.id == y.id

-- The primary key of the requests, out of the constraints.
pub redemption_ids : (s : Store) → store_holds s ≡ true → distinct same_id s.redemptions ≡ true
redemption_ids s h = and_left _ _ (and_right _ _ (and_right (constraints_hold s.db) _ h))

-- The store when a rejection commits, and the sum of its holds.
after_reject : Fresh → RedemptionRequest → RefType → TokenAccount → Store → Store
after_reject fresh r ref_type account s = record s {
  db = record s.db {
    accounts = update account_id account.id (refund r.amount_usd fresh.now) s.db.accounts;
    ledger = refund_entry fresh account r ref_type ∷ s.db.ledger;
  };
  redemptions = update redemption_id_of r.id (reject_with fresh.now) s.redemptions;
}

-- The request has given its amount back to its creator and to nobody else, and is rejected.
pub record Refunded (r : RedemptionRequest) (s : Store) (r' : RedemptionRequest) (s' : Store)
    : Type 0 where
  pub sums : value s' +ℤ held r ≡ value s +ℤ r.amount_usd
  pub gains : Gains r.creator_id r.amount_usd s s'
  pub row : find_key redemption_id_of r.id s'.redemptions ≡ some r'
  pub status : r'.status ≡ rejected

after_reject-Refunded :
    (fresh : Fresh) (p : RedemptionRequest → Bool) (r : RedemptionRequest) (ref_type : RefType)
    (account : TokenAccount) (s : Store)
    → find p s.redemptions ≡ some r
    → find (is_creators r.creator_id) s.db.accounts ≡ some account
    → store_holds (after_reject fresh r ref_type account s) ≡ true
    → Refunded r s (reject_with fresh.now r) (after_reject fresh r ref_type account s)
unfolding value after_reject
after_reject-Refunded fresh p r ref_type account s h mine holds = record {
  sums =
      rw
        (total-Shifts (refund-Shifts r.amount_usd fresh.now) account.id s.db.accounts
          (find_key_of_find (is_creators r.creator_id) s.db.accounts account mine))
        (omega (int_laws, ap pos_part moved, ap neg_part moved));
  gains =
      update-Gains r.creator_id r.amount_usd (refund r.amount_usd fresh.now) account s _
        (refund-Shifts r.amount_usd fresh.now) mine refl holds;
  row = find_key-update_self redemption_id_of 0 r.id f (λ x. refl) s.redemptions r there;
  status = refl;
}
  where
    f : RedemptionRequest → RedemptionRequest
    f = reject_with fresh.now

    ids : distinct same_id s.redemptions ≡ true
    ids =
        sym (
          distinct-update redemption_id_of r.id f same_id (λ x y. refl) (λ x y. refl) s.redemptions)
        ∙ redemption_ids (after_reject fresh r ref_type account s) holds

    there : find_key redemption_id_of r.id s.redemptions ≡ some r
    there = find_key_of_find-distinct redemption_id_of p s.redemptions r ids h

    moved :
        sum_by held (update redemption_id_of r.id f s.redemptions) +ℤ held r
        ≡ sum_by held s.redemptions +ℤ pos 0
    moved = sum_by-update held redemption_id_of r.id f s.redemptions r there

-- The end of both rejections.
unfoldable pub finish_reject : Fresh → RedemptionRequest → Action Error Store RedemptionRequest
finish_reject fresh r = do
  change_redemption r.id (reject_with fresh.now)
  done ← commit
  pure (reject_with fresh.now r)

-- The refund and the status, at the request's own row and its creator's account.
pub rejected-Refunded :
    (fresh : Fresh) (p : RedemptionRequest → Bool) (r : RedemptionRequest) (ref_type : RefType)
    (o : Option TokenAccount) (a : TokenAccount) (s : Store)
    → find p s.redemptions ≡ some r
    → find (is_creators r.creator_id) s.db.accounts ≡ some a
    → ((b : TokenAccount) → o ≡ some b → find (is_creators r.creator_id) s.db.accounts ≡ some b)
    → (o ≡ none → find (is_creators r.creator_id) s.db.accounts ≡ none)
    → Ensures (Refunded r s) ((refund_to fresh r ref_type o >>= λ _. finish_reject fresh r) s)
unfolding finish_reject after_reject
rejected-Refunded fresh p r ref_type none a s hr ha found lost = absurd (ground (arith, lost refl))
rejected-Refunded fresh p r ref_type (some b) a s hr ha found lost =
    commit_ends (Refunded r s) (reject_with fresh.now r) (after_reject fresh r ref_type b s)
      (after_reject-Refunded fresh p r ref_type b s hr (found b refl))

pub admin_reject-Refunded :
    (fresh : Fresh) (id : ℕ) (s : Store) (r : RedemptionRequest) (a : TokenAccount)
    → find (λ x. x.id == id) s.redemptions ≡ some r
    → find (is_creators r.creator_id) s.db.accounts ≡ some a
    → Ensures (Refunded r s) (admin_reject_redemption fresh id s)
unfolding admin_reject_redemption finish_reject
admin_reject-Refunded fresh id s r a hr ha =
    scalar_bind C _ s multiple_results (λ t. t.redemptions) (λ x. x.id == id)
      λ row found lost. or_raise_bind C _ s row not_found λ x e. rw (row_is x (found x e)) (
        scalar_bind C _ s multiple_results (λ t. t.db.accounts) (is_creators r.creator_id)
          λ o there gone.
            rejected-Refunded fresh (λ y. y.id == id) r RefType.redemption_rejected o a s hr ha
              there gone)
  where
    C : RedemptionRequest → Store → Type 0
    C = Refunded r s

    row_is : (x : RedemptionRequest) → find (λ y. y.id == id) s.redemptions ≡ some x → x ≡ r
    row_is x h = cc
