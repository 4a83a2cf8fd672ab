-- ===== src/Session/Tests.antt =====
-- A login, an exchange and a thief, and the theorem about them.
use agentchains.Base.{◌+◌, ◌≡◌, refl, List, [], ◌∷◌}
use agentchains.Session.Tokens.{RefreshToken, Env, refresh_access_token, create_token_pair, reused}
use agentchains.Session.Reuse.{Event, run, HasRevoked, reuse_revokes}

abbrev env : Env
env = record { hash_token = λ t. t + 1000; lifetime = 30 }

abbrev session : RefreshToken
session = create_token_pair env 5 1 10 0

-- The thief has exchanged the token 1 for 2, 2 for 3; then the owner shows 1.
abbrev later : List RefreshToken
later =
    run env (Event.refreshes 8 3 2 0 ∷ Event.logs_in 7 9 11 0 ∷ [])
      (refresh_access_token env 6 2 1 (session ∷ [])).0

reuse_revokes_example :
    ((refresh_access_token env 9 4 1 later).1 ≡ reused)
    × HasRevoked 10 (refresh_access_token env 9 4 1 later).0
unfolding refresh_access_token
reuse_revokes_example =
    reuse_revokes env 6 2 1 2 9 4 session (session ∷ [])
      (Event.refreshes 8 3 2 0 ∷ Event.logs_in 7 9 11 0 ∷ []) refl refl
