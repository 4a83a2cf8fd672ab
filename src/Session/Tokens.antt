-- ===== src/Session/Tokens.antt =====
-- `create_token_pair`, `refresh_access_token` and `revoke_refresh_tokens_for_actor` of
-- marketplace/core/refresh_tokens.py, with models/refresh_token.py. A refresh token is a number, its hash and
-- the fresh ones are parameters, and the access token is left out. A call returns the rows that it leaves.
use agentchains.Base.{
  ℕ, ◌+◌, Bool, true, false, Option, none, some, List, [], ◌∷◌, ltb, ◌==◌, if◌then◌else◌,
}
use agentchains.Base.Table.{find_key, update}

pub record RefreshToken : Type 0 where
  pub token_hash : ℕ
  pub actor_id : ℕ
  pub actor_type : ℕ
  pub expires_at : ℕ
  pub revoked : Bool

-- A new refresh token, the three causes of `UnauthorizedError`, and the unique column of the hashes.
pub data Answer : Type 0 where
  pair : ℕ → Answer
  invalid reused expired integrity : Answer

-- SHA-256 of a token, and how long it is good.
pub record Env : Type 0 where
  pub hash_token : ℕ → ℕ
  pub lifetime : ℕ

abbrev pub hash_of : RefreshToken → ℕ
hash_of r = r.token_hash

abbrev pub is_some : {A : Type 0} → Option A → Bool
is_some none = false
is_some (some a) = true

abbrev pub create_token_pair : Env → ℕ → ℕ → ℕ → ℕ → RefreshToken
create_token_pair env now fresh actor_id actor_type = record {
  token_hash = env.hash_token fresh;
  actor_id = actor_id;
  actor_type = actor_type;
  expires_at = now + env.lifetime;
  revoked = false;
}

-- `db.add` and `db.commit`; where the hash is taken, the session is rolled back to `before`.
abbrev pub add_or :
    List RefreshToken → RefreshToken → ℕ → List RefreshToken → List RefreshToken × Answer
add_or before row fresh rows =
    if is_some (find_key hash_of row.token_hash rows)
    then (before, integrity)
    else (row ∷ rows, pair fresh)

-- A pair for an actor who has logged in.
unfoldable pub login : Env → ℕ → ℕ → ℕ → ℕ → List RefreshToken → List RefreshToken × Answer
login env now fresh actor_id actor_type rows =
    add_or rows (create_token_pair env now fresh actor_id actor_type) fresh rows

abbrev pub revoke : RefreshToken → RefreshToken
revoke r = record r { revoked = true }

unfoldable pub revoke_refresh_tokens_for_actor : ℕ → List RefreshToken → List RefreshToken
revoke_refresh_tokens_for_actor actor_id [] = []
revoke_refresh_tokens_for_actor actor_id (r ∷ rows) =
    (if r.actor_id == actor_id then revoke r else r) ∷ revoke_refresh_tokens_for_actor actor_id rows

abbrev pub rotate : Env → ℕ → ℕ → RefreshToken → List RefreshToken → List RefreshToken × Answer
rotate env now fresh row rows =
    add_or rows (create_token_pair env now fresh row.actor_id row.actor_type) fresh
      (update hash_of row.token_hash revoke rows)

abbrev pub refresh_row :
    Env → ℕ → ℕ → Option RefreshToken → List RefreshToken → List RefreshToken × Answer
refresh_row env now fresh none rows = (rows, invalid)
refresh_row env now fresh (some row) rows =
    if row.revoked
    then (revoke_refresh_tokens_for_actor row.actor_id rows, reused)
    else if ltb row.expires_at now
    then (rows, expired)
    else rotate env now fresh row rows

unfoldable pub refresh_access_token :
    Env → ℕ → ℕ → ℕ → List RefreshToken → List RefreshToken × Answer
unfolding revoke_refresh_tokens_for_actor
refresh_access_token env now fresh token rows =
    refresh_row env now fresh (find_key hash_of (env.hash_token token) rows) rows
