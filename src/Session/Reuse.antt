-- ===== src/Session/Reuse.antt =====
-- A refresh token that was used is worth nothing, and showing it again ends every session of its actor.
use mathlib.Core.Path.{subst}
use agentchains.Base.{
  ℕ, ◌≡◌, refl, sym, true, some, List, [], ◌∷◌, ◌==◌, ==→eq, arith, inl, inr, Bool-cases, All,
}
use agentchains.Base.Table.{find_key}
use agentchains.Session.Tokens.{
  RefreshToken, Env, hash_of, create_token_pair, login, revoke_refresh_tokens_for_actor,
  refresh_row, refresh_access_token, pair, reused,
}
use agentchains.Session.Used.{
  is_used, is_used-revoke_all, is_used-add_or, is_used-refresh_row, is_used_of_refresh,
}

-- What happens to the rows later.
pub data Event : Type 0 where
  logs_in refreshes : ℕ → ℕ → ℕ → ℕ → Event
  revokes : ℕ → Event

unfoldable pub step : Env → Event → List RefreshToken → List RefreshToken
unfolding login refresh_access_token revoke_refresh_tokens_for_actor
step env (Event.logs_in now fresh actor_id actor_type) rows =
    (login env now fresh actor_id actor_type rows).0
step env (Event.refreshes now fresh token _) rows =
    (refresh_access_token env now fresh token rows).0
step env (Event.revokes actor_id) rows = revoke_refresh_tokens_for_actor actor_id rows

-- The last event is the first of the list.
unfoldable pub run : Env → List Event → List RefreshToken → List RefreshToken
unfolding step
run env [] rows = rows
run env (e ∷ events) rows = step env e (run env events rows)

-- The row of the hash is revoked and the actor's.
abbrev IsUsed : ℕ → ℕ → List RefreshToken → Type 0
IsUsed h actor rows =
    (row : RefreshToken) × (find_key hash_of h rows ≡ some row)
    × (row.actor_id ≡ actor)
    × (row.revoked ≡ true)

is_used-step :
    (env : Env) (h actor : ℕ) (e : Event) (rows : List RefreshToken)
    → is_used h actor rows ≡ true
    → is_used h actor (step env e rows) ≡ true
unfolding step login refresh_access_token
is_used-step env h actor (Event.logs_in now fresh a t) rows u =
    is_used-add_or h actor fresh (create_token_pair env now fresh a t) rows rows u u
is_used-step env h actor (Event.refreshes now fresh token _) rows u =
    is_used-refresh_row env h actor now fresh (find_key hash_of (env.hash_token token) rows) rows u
is_used-step env h actor (Event.revokes a) rows u = is_used-revoke_all h actor a rows u

is_used-run :
    (env : Env) (h actor : ℕ) (events : List Event) (rows : List RefreshToken)
    → is_used h actor rows ≡ true
    → is_used h actor (run env events rows) ≡ true
unfolding run
is_used-run env h actor [] rows u = u
is_used-run env h actor (e ∷ events) rows u =
    is_used-step env h actor e (run env events rows) (is_used-run env h actor events rows u)

is_used-IsUsed :
    (h actor : ℕ) (rows : List RefreshToken) → is_used h actor rows ≡ true → IsUsed h actor rows
is_used-IsUsed h actor [] u = absurd (ground (arith, u))
is_used-IsUsed h actor (r ∷ rows) u = elim (Bool-cases (r.token_hash == h)) [
  | inl e ↦
      let owned : (r.actor_id == actor) ≡ true = ground (arith, u, e) in
      (r, rw e refl, ==→eq r.actor_id actor owned, ground (arith, u, e))
  | inr e ↦
      let (row, found, owned, used) = is_used-IsUsed h actor rows (rw e at u) in
      (row, rw e found, owned, used)
]

-- Every token of the actor is revoked.
abbrev pub HasRevoked : ℕ → List RefreshToken → Type 0
HasRevoked actor rows = All (λ r. (r.actor_id == actor) ≡ true → r.revoked ≡ true) rows

revoke_all-HasRevoked :
    (actor : ℕ) (rows : List RefreshToken)
    → HasRevoked actor (revoke_refresh_tokens_for_actor actor rows)
unfolding revoke_refresh_tokens_for_actor
revoke_all-HasRevoked actor [] = tt
revoke_all-HasRevoked actor (r ∷ rows) = elim (Bool-cases (r.actor_id == actor)) [
  | inl e ↦ rw e ((λ h. refl), revoke_all-HasRevoked actor rows)
  | inr e ↦ rw e ((λ h. absurd (ground (arith, h, e))), revoke_all-HasRevoked actor rows)
]

-- A refresh token that was exchanged for a new one, shown again after whatever logins, exchanges and
-- revocations, by whom and for whom ever, is refused as reused, and the call leaves every refresh token of
-- its actor revoked, the ones that were issued since among them.
pub reuse_revokes :
    (env : Env) (now fresh token p now' fresh' : ℕ) (row : RefreshToken) (rows : List RefreshToken)
    (events : List Event)
    → find_key hash_of (env.hash_token token) rows ≡ some row
    → (refresh_access_token env now fresh token rows).1 ≡ pair p
    → let later : List RefreshToken =
        run env events (refresh_access_token env now fresh token rows).0 in
      ((refresh_access_token env now' fresh' token later).1 ≡ reused)
      × HasRevoked row.actor_id (refresh_access_token env now' fresh' token later).0
unfolding refresh_access_token
reuse_revokes env now fresh token p now' fresh' row rows events e done =
    let h = env.hash_token token in
    let first : is_used h row.actor_id (refresh_access_token env now fresh token rows).0 ≡ true =
      subst (λ o. is_used h row.actor_id (refresh_row env now fresh o rows).0 ≡ true) (sym e)
        (is_used_of_refresh env h now fresh p row rows e
          (subst (λ o. (refresh_row env now fresh o rows).1 ≡ pair p) e done)) in
    let later = run env events (refresh_access_token env now fresh token rows).0 in
    let (row', found, owned, used) =
      is_used-IsUsed h row.actor_id later (is_used-run env h row.actor_id events _ first) in
    subst
      (λ o.
        ((refresh_row env now' fresh' o later).1 ≡ reused)
        × HasRevoked row.actor_id (refresh_row env now' fresh' o later).0)
      (sym found)
      (rw used (
        refl,
        subst (λ a. HasRevoked row.actor_id (revoke_refresh_tokens_for_actor a later)) (sym owned)
            (revoke_all-HasRevoked row.actor_id later),
      ))
