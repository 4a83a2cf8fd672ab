-- ===== src/Redemption/Refund.antt =====
-- What a cancellation and a rejection give back: `cancel_redemption` and `admin_reject_redemption`.
use mathlib.Core.Path.{subst}
use agentchains.Base.{
  ℕ, ◌≡◌, refl, inl, inr, ◌⊎◌, ap, and_right, Bool, true, false, some, arith, ◌==◌, ◌&&◌,
  if◌then◌else◌, ok, Ensures, Ensures-mono, ==→eq, or_raise_bind, raise_if_bind,
}
use agentchains.Base.Int.{ℤ, pos, pos_part, neg_part, ◌+ℤ◌, int_laws}
use agentchains.Base.Table.{find, find_key, find_holds, scalar_bind}
use agentchains.Ledger.Model.{TokenAccount, RefType}
use agentchains.Redemption.Store.{
  RedemptionRequest, Store, Fresh, redemption_id_of, multiple_results, not_found, cannot_cancel,
  Status, pending, processing, completed, failed, rejected,
}
use agentchains.Redemption.Requests.{cancel_redemption, admin_reject_redemption, is_pending}
use agentchains.Redemption.Value.{held, value, Gains, is_creators}
use agentchains.Redemption.Reject.{
  Refunded, finish_reject, rejected-Refunded, admin_reject-Refunded,
}

pending_holds :
    (r : RedemptionRequest)
    → (if is_pending r.status then false else true) ≡ false
    → held r ≡ r.amount_usd
pending_holds r h = ground arith

cancel_left : (x y h m : ℤ) → x +ℤ h ≡ y +ℤ m → h ≡ m → x ≡ y
cancel_left x y h m e same =
    omega (int_laws, ap pos_part e, ap neg_part e, ap pos_part same, ap neg_part same)

is_pending-eq : (st : Status) → (if is_pending st then false else true) ≡ false → st ≡ pending
is_pending-eq pending h = refl
is_pending-eq processing h = absurd (ground (arith, h))
is_pending-eq completed h = absurd (ground (arith, h))
is_pending-eq failed h = absurd (ground (arith, h))
is_pending-eq rejected h = absurd (ground (arith, h))

-- The pending request has given its amount back to its creator and to nobody else, and is rejected.
abbrev pub IsReturned : RedemptionRequest → Store → RedemptionRequest → Store → Type 0
IsReturned r s r' s' =
    (value s' ≡ value s)
    × (r.status ≡ pending)
    × Gains r.creator_id r.amount_usd s s'
    × (find_key redemption_id_of r.id s'.redemptions ≡ some r')
    × (r'.status ≡ rejected)

cancel-IsReturned :
    (fresh : Fresh) (id creator : ℕ) (s : Store) (r : RedemptionRequest) (a : TokenAccount)
    → find (λ x. x.id == id && x.creator_id == creator) s.redemptions ≡ some r
    → find (is_creators r.creator_id) s.db.accounts ≡ some a
    → Ensures (IsReturned r s) (cancel_redemption fresh id creator s)
unfolding cancel_redemption finish_reject
cancel-IsReturned fresh id creator s r a hr ha =
    scalar_bind C _ s multiple_results (λ t. t.redemptions) p
      λ row found lost. or_raise_bind C _ s row not_found λ x e. rw (row_is x (found x e)) (
        raise_if_bind C _ s (if is_pending r.status then false else true) cannot_cancel λ open_.
          rw (← owner) (
            scalar_bind C _ s multiple_results (λ t. t.db.accounts) (is_creators r.creator_id)
              λ o there gone.
                Ensures-mono _ C
                  (λ r' s' h. (
                    cancel_left (value s') (value s) (held r) _ h.sums (pending_holds r open_),
                    is_pending-eq r.status open_,
                    h.gains,
                    h.row,
                    h.status,
                  ))
                  _ (rejected-Refunded fresh p r RefType.redemption_cancel o a s hr ha there gone)))
  where
    C : RedemptionRequest → Store → Type 0
    C = IsReturned r s

    p : RedemptionRequest → Bool
    p = λ x. x.id == id && x.creator_id == creator

    row_is : (x : RedemptionRequest) → find p s.redemptions ≡ some x → x ≡ r
    row_is x h = cc

    owner : r.creator_id ≡ creator
    owner = ==→eq r.creator_id creator (and_right (r.id == id) _ (find_holds p s.redemptions r hr))

reject_moves :
    (fresh : Fresh) (id : ℕ) (s s' : Store) (r r' : RedemptionRequest) (a : TokenAccount)
    → find (λ x. x.id == id) s.redemptions ≡ some r
    → find (is_creators r.creator_id) s.db.accounts ≡ some a
    → admin_reject_redemption fresh id s ≡ ok (r', s')
    → Refunded r s r' s'
reject_moves fresh id s s' r r' a hr ha h =
    subst (Ensures (Refunded r s)) h (admin_reject-Refunded fresh id s r a hr ha)

cancel_zero : (x y h m : ℤ) → x +ℤ h ≡ y +ℤ m → h ≡ pos 0 → x ≡ y +ℤ m
cancel_zero x y h m e same =
    omega (int_laws, ap pos_part e, ap neg_part e, ap pos_part same, ap neg_part same)

-- A request that still holds its amount.
abbrev pub IsLive : Status → Type 0
IsLive st = (st ≡ pending) ⊎ (st ≡ processing)

live_holds : (r : RedemptionRequest) → IsLive r.status → held r ≡ r.amount_usd
live_holds r (inl e) = rw e refl
live_holds r (inr e) = rw e refl

-- A rejection by an administrator, of a request that is pending or processing and whose creator has an account,
-- gives its amount back to the creator's balance and to no other account, leaves the request rejected, and
-- leaves balances and holds together as they were, if it returns.
pub reject_conserves :
    (fresh : Fresh) (id : ℕ) (s s' : Store) (r r' : RedemptionRequest) (a : TokenAccount)
    → find (λ x. x.id == id) s.redemptions ≡ some r
    → IsLive r.status
    → find (is_creators r.creator_id) s.db.accounts ≡ some a
    → admin_reject_redemption fresh id s ≡ ok (r', s')
    → (value s' ≡ value s) × Refunded r s r' s'
reject_conserves fresh id s s' r r' a hr live ha h =
    let moved = reject_moves fresh id s s' r r' a hr ha h in
    (cancel_left (value s') (value s) (held r) r.amount_usd moved.sums (live_holds r live), moved)

-- A rejection by an administrator, of a request that was rejected before and whose creator has an
-- account, raises balances and holds together by the amount of the request, if it returns: the refund
-- is paid once more.
pub reject_again_pays :
    (fresh : Fresh) (id : ℕ) (s s' : Store) (r r' : RedemptionRequest) (a : TokenAccount)
    → find (λ x. x.id == id) s.redemptions ≡ some r
    → r.status ≡ rejected
    → find (is_creators r.creator_id) s.db.accounts ≡ some a
    → admin_reject_redemption fresh id s ≡ ok (r', s')
    → value s' ≡ value s +ℤ r.amount_usd
reject_again_pays fresh id s s' r r' a hr st ha h =
    cancel_zero (value s') (value s) (held r) r.amount_usd
      (reject_moves fresh id s s' r r' a hr ha h).sums (ground arith)

-- A cancellation by a creator who has an account, if it returns, is of a pending request: it gives the amount
-- back to the creator's balance and to no other account, leaves the request rejected, and leaves balances and
-- holds together as they were.
pub cancel_conserves :
    (fresh : Fresh) (id creator : ℕ) (s s' : Store) (r r' : RedemptionRequest) (a : TokenAccount)
    → find (λ x. x.id == id && x.creator_id == creator) s.redemptions ≡ some r
    → find (is_creators r.creator_id) s.db.accounts ≡ some a
    → cancel_redemption fresh id creator s ≡ ok (r', s')
    → IsReturned r s r' s'
cancel_conserves fresh id creator s s' r r' a hr ha h =
    subst (Ensures (IsReturned r s)) h (cancel-IsReturned fresh id creator s r a hr ha)
