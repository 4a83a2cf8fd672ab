-- ===== src/Roles/Others.antt =====
-- The roles that are left to an actor without one assignment, in marketplace/services/role_service.py.
use mathlib.Core.Path.{subst}
use agentchains.Base.{
  ℕ, ◌≡◌, ◌≢◌, refl, true, false, ◌&&◌, not, some, List, [], ◌∷◌, All, All-append, select, ◌==◌,
  Bool-cases, inl, inr, arith,
}
use agentchains.Base.Table.{find, taken, distinct}
use agentchains.Roles.Model.{Role, ActorRole, is_named}
use agentchains.Roles.Service.{is_between, roles_of}
use agentchains.Roles.Rows.{same_name}

module _ (name k : ℕ) where
  -- A role of the name has the id.
  abbrev pub HasId : Role → Type 0
  HasId y = ((y.name == name) && not (y.id == k)) ≡ false

  abbrev pub IsOther : Role → Type 0
  IsOther y = (y.name == name) ≡ false

  untaken-HasId :
      (x : Role) (roles : List Role)
      → (x.name == name) ≡ true
      → taken same_name x roles ≡ false
      → All HasId roles
  untaken-HasId x [] e h = tt
  untaken-HasId x (y ∷ roles) e h =
      (ground (arith, e, h), untaken-HasId x roles e (ground (arith, h)))

  select-IsOther :
      (j : ℕ) (roles : List Role)
      → (j == k) ≡ false
      → All HasId roles
      → All IsOther (select (λ r. r.id == j) roles)
  select-IsOther j [] ne h = tt
  select-IsOther j (y ∷ roles) ne h = elim (Bool-cases (y.id == j)) [
    | inl e ↦ rw e (ground (arith, h.0, e, ne), select-IsOther j roles ne h.1)
    | inr e ↦ rw e (select-IsOther j roles ne h.1)
  ]

  pub roles_of-IsOther :
      (actor_id : ℕ) (rows : List ActorRole) (roles : List Role)
      → All HasId roles
      → All IsOther (roles_of actor_id (select (λ a. not (is_between actor_id k a)) rows) roles)
  unfolding roles_of
  roles_of-IsOther actor_id [] roles h = tt
  roles_of-IsOther actor_id (a ∷ rows) roles h = elim (Bool-cases (a.actor_id == actor_id)) [
    | inr e ↦ rw (e, e) (roles_of-IsOther actor_id rows roles h)
    | inl e ↦ elim (Bool-cases (a.role_id == k)) [
      | inl f ↦ rw (e, f) (roles_of-IsOther actor_id rows roles h)
      | inr f ↦
          rw (e, f, e)
            (All-append IsOther _ _ (select-IsOther a.role_id roles f h)
              (roles_of-IsOther actor_id rows roles h))
    ]
  ]

pub distinct-HasId :
    (name : ℕ) (roles : List Role) (r : Role)
    → distinct same_name roles ≡ true
    → find (is_named name) roles ≡ some r
    → All (HasId name r.id) roles
distinct-HasId name [] r d h = tt
distinct-HasId name (x ∷ roles) r d h = elim (Bool-cases (x.name == name)) [
  | inl e ↦
      let same : x ≡ r = ground (arith, h, e) in
      subst (λ y. All (HasId name y.id) (x ∷ roles)) same
        (ground arith, untaken-HasId name x.id x roles e (ground (arith, d)))
  | inr e ↦ (ground (arith, e), distinct-HasId name roles r (ground (arith, d)) (rw e at h))
]

pub roles_of-others :
    (actor_id other k : ℕ) (rows : List ActorRole) (roles : List Role)
    → other ≢ actor_id
    → roles_of other (select (λ a. not (is_between actor_id k a)) rows) roles
      ≡ roles_of other rows roles
unfolding roles_of
roles_of-others actor_id other k [] roles ne = refl
roles_of-others actor_id other k (a ∷ rows) roles ne =
    ground (arith, ne, roles_of-others actor_id other k rows roles)
