-- ===== src/Session/Used.antt =====
-- A used refresh token: what makes it one, and that every call keeps it so.
use mathlib.Core.Path.{subst}
use agentchains.Base.{
  ℕ, ◌≡◌, refl, sym, ap, Bool, true, false, Option, none, some, List, [], ◌∷◌, ltb, ◌==◌, ==→eq,
  ==_self, if◌then◌else◌, arith, inl, inr, Bool-cases,
}
use agentchains.Base.Table.{find_key, update, find_holds}
use agentchains.Session.Tokens.{
  RefreshToken, Env, hash_of, is_some, create_token_pair, add_or, revoke,
  revoke_refresh_tokens_for_actor, refresh_row, pair,
}

-- The row of the hash is revoked and the actor's.
abbrev pub is_used : ℕ → ℕ → List RefreshToken → Bool
is_used h actor [] = false
is_used h actor (r ∷ rows) =
    let rest = is_used h actor rows in
    if r.token_hash == h then (if r.actor_id == actor then r.revoked else false) else rest

pub is_used-revoke_all :
    (h actor a : ℕ) (rows : List RefreshToken)
    → is_used h actor rows ≡ true
    → is_used h actor (revoke_refresh_tokens_for_actor a rows) ≡ true
unfolding revoke_refresh_tokens_for_actor
is_used-revoke_all h actor a [] u = u
is_used-revoke_all h actor a (r ∷ rows) u = ground (arith, u, is_used-revoke_all h actor a rows)

is_used-update :
    (h actor k : ℕ) (rows : List RefreshToken)
    → is_used h actor rows ≡ true
    → is_used h actor (update hash_of k revoke rows) ≡ true
is_used-update h actor k [] u = u
is_used-update h actor k (r ∷ rows) u = ground (arith, u, is_used-update h actor k rows)

-- A used hash is in the table.
is_used_found :
    (h actor : ℕ) (rows : List RefreshToken)
    → is_used h actor rows ≡ true
    → is_some (find_key hash_of h rows) ≡ true
is_used_found h actor [] u = absurd (ground (arith, u))
is_used_found h actor (r ∷ rows) u = ground (arith, u, is_used_found h actor rows)

is_used_new :
    (h actor : ℕ) (new : RefreshToken) (rows : List RefreshToken)
    → is_some (find_key hash_of new.token_hash rows) ≡ false
    → is_used h actor rows ≡ true
    → is_used h actor (new ∷ rows) ≡ true
is_used_new h actor new rows free u = elim (Bool-cases (new.token_hash == h)) [
  | inr other ↦ rw other u
  | inl same ↦
      let there =
        subst (λ k. is_some (find_key hash_of k rows) ≡ true) (sym (==→eq new.token_hash h same))
          (is_used_found h actor rows u) in
      absurd (ground (arith, free, there))
]

pub is_used-add_or :
    (h actor fresh : ℕ) (new : RefreshToken) (before rows : List RefreshToken)
    → is_used h actor before ≡ true
    → is_used h actor rows ≡ true
    → is_used h actor (add_or before new fresh rows).0 ≡ true
is_used-add_or h actor fresh new before rows ub u =
    elim (Bool-cases (is_some (find_key hash_of new.token_hash rows))) [
      | inl e ↦ rw e ub
      | inr e ↦ rw e (is_used_new h actor new rows e u)
    ]

pub is_used-refresh_row :
    (env : Env) (h actor now fresh : ℕ) (o : Option RefreshToken) (rows : List RefreshToken)
    → is_used h actor rows ≡ true
    → is_used h actor (refresh_row env now fresh o rows).0 ≡ true
is_used-refresh_row env h actor now fresh none rows u = u
is_used-refresh_row env h actor now fresh (some row) rows u = elim (Bool-cases row.revoked) [
  | inl e ↦ rw e (is_used-revoke_all h actor row.actor_id rows u)
  | inr e ↦ elim (Bool-cases (ltb row.expires_at now)) [
    | inl late ↦ rw (e, late) u
    | inr fine ↦
        rw (e, fine)
          (is_used-add_or h actor fresh
            (create_token_pair env now fresh row.actor_id row.actor_type) rows
            (update hash_of row.token_hash revoke rows) u
            (is_used-update h actor row.token_hash rows u))
  ]
]

is_used_of_update :
    (h : ℕ) (row : RefreshToken) (rows : List RefreshToken)
    → find_key hash_of h rows ≡ some row
    → is_used h row.actor_id (update hash_of h revoke rows) ≡ true
is_used_of_update h row [] e = absurd (ground (arith, e))
is_used_of_update h row (r ∷ rows) e = elim (Bool-cases (r.token_hash == h)) [
  | inl here ↦
      let same : r ≡ row = ground (arith, e, here) in
      rw (here, ap (λ (x : RefreshToken). x.actor_id) same, ==_self row.actor_id, here) refl
  | inr other ↦ rw (other, other) (is_used_of_update h row rows (rw other at e))
]

is_used_of_add :
    (h actor fresh p : ℕ) (new : RefreshToken) (before rows : List RefreshToken)
    → (add_or before new fresh rows).1 ≡ pair p
    → is_used h actor rows ≡ true
    → is_used h actor (add_or before new fresh rows).0 ≡ true
is_used_of_add h actor fresh p new before rows done u =
    elim (Bool-cases (is_some (find_key hash_of new.token_hash rows))) [
      | inl e ↦ absurd (ground (arith, rw e at done))
      | inr e ↦ rw e (is_used_new h actor new rows e u)
    ]

pub is_used_of_refresh :
    (env : Env) (h now fresh p : ℕ) (row : RefreshToken) (rows : List RefreshToken)
    → find_key hash_of h rows ≡ some row
    → (refresh_row env now fresh (some row) rows).1 ≡ pair p
    → is_used h row.actor_id (refresh_row env now fresh (some row) rows).0 ≡ true
is_used_of_refresh env h now fresh p row rows e done = elim (Bool-cases row.revoked) [
  | inl used ↦ absurd (ground (arith, rw used at done))
  | inr open_ ↦ elim (Bool-cases (ltb row.expires_at now)) [
    | inl late ↦ absurd (ground (arith, rw (open_, late) at done))
    | inr fine ↦
        let named : row.token_hash ≡ h =
          ==→eq row.token_hash h (find_holds (λ r. hash_of r == h) rows row e) in
        let there : is_used h row.actor_id (update hash_of row.token_hash revoke rows) ≡ true =
          subst (λ k. is_used h row.actor_id (update hash_of k revoke rows) ≡ true) (sym named)
            (is_used_of_update h row rows e) in
        rw (open_, fine)
          (is_used_of_add h row.actor_id fresh p
            (create_token_pair env now fresh row.actor_id row.actor_type) rows _
            (rw (open_, fine) at done) there)
  ]
]
