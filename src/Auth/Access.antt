-- ===== src/Auth/Access.antt =====
-- What a request that passes the checks of src/factory/auth.py has shown.
use human_data.Auth.Keys.{key_row-Stored}
use human_data.Auth.{
  assert_firm_access, require_roles, resolve, Credentials, Actor, resolve_token, is_internal,
  token_of, key_row, actor_of,
}
use human_data.Config.{Env}
use human_data.Prelude.{
  List, ◌≡◌, any, false, true, ◌↔◌, String, ◌⊎◌, some, arith, Bool, not, refl, subst,
}
use human_data.Model.Entities.{Ident, ApiKey, User}
use human_data.Store.{Db, ok, err, http, pure, Result, returned}
use human_data.Model.Enums.{Role, role_eq, client}
use human_data.Store.Ensures.{
  Ensures, Ensures-if, Post-found, Ensures-bind, Ensures-found, Post-guard, Post, Ensures-guard,
  Ensures-mono,
}
use human_data.Prelude.{IsIn}

-- Behind the actor stand a key on record that is active and has the digest of the request's token, and
-- its user on record, who is active too; they are the first such row of the join.
abbrev pub IsBacked : Env → Credentials → Db → Actor → Type 0
IsBacked env credentials db actor =
    (token : String) × (k : ApiKey) × (u : User) × (token_of credentials.authorization ≡ some token)
    × (IsIn k db.api_keys × (k.key_hash ≡ env.key_digest token) × (k.active ≡ true))
    × (IsIn u db.users × (u.id ≡ k.user_id) × (u.active ≡ true))
    × (actor ≡ actor_of u)
    × (key_row (env.key_digest token) db.users db.api_keys ≡ some (k, u))

-- nothing but the keys is written
abbrev pub OnlyKeys : Db → Db → Type 0
OnlyKeys db db' = db' ≡ record db { api_keys = db'.api_keys }

resolve_token-IsBacked :
    (env : Env) (credentials : Credentials) (token : String) (db : Db)
    → token_of credentials.authorization ≡ some token
    → Ensures
        (resolve_token env token)
        db
        (λ actor db'. IsBacked env credentials db actor × OnlyKeys db db')
unfolding resolve_token
resolve_token-IsBacked env credentials token db t = record {
  at =
      Post-found (λ actor db'. IsBacked env credentials db actor × OnlyKeys db db')
        (key_row (env.key_digest token) db.users db.api_keys) (http 401) _ db
        (λ row found.
          let (stored, owned) = key_row-Stored (env.key_digest token) db.users db.api_keys found in
          ((token, row.0, row.1, t, stored, owned, refl, found), refl));
}

resolve-IsBacked :
    (env : Env) (credentials : Credentials) (db : Db)
    → env.settings.auth_disabled ≡ false
    → Ensures
        (resolve env credentials)
        db
        (λ actor db'. IsBacked env credentials db actor × OnlyKeys db db')
unfolding resolve
resolve-IsBacked env credentials db on =
    Ensures-if env.settings.auth_disabled _ _ (λ off. absurd cc)
      (λ u. Ensures-found _ _ _ (λ token t. resolve_token-IsBacked env credentials token db t))

returned-Post :
    {A : Type 0} (Q : A → Db → Type 0) (r : Result (A × Db)) {a : A}
    → returned r ≡ some a
    → Post Q r
    → (db : Db) × Q a db
returned-Post Q (ok (b, db)) e h = (db, subst (λ b. Q b db) (grind arith) h)
returned-Post Q (err x) e h = absurd cc

pub IsBacked-returned :
    (env : Env) (credentials : Credentials) (db : Db) (actor : Actor)
    → env.settings.auth_disabled ≡ false
    → returned (resolve env credentials db) ≡ some actor
    → IsBacked env credentials db actor
IsBacked-returned env credentials db actor on e =
    let post =
      returned-Post (λ actor db'. IsBacked env credentials db actor × OnlyKeys db db')
        (resolve env credentials db) e (resolve-IsBacked env credentials db on).at in
    post.1.0

-- An actor with one of the roles, whom an active key and its active user stand behind.
abbrev pub IsAuthorised : Env → Credentials → List Role → Db → Actor → Type 0
IsAuthorised env credentials allowed db actor =
    (any (role_eq actor.role) allowed ≡ true) × IsBacked env credentials db actor

true_of_not : (b : Bool) → not b ≡ false → b ≡ true
true_of_not true h = refl
true_of_not false h = cc

-- Where authentication is on, an actor whom `require_roles` returns has one of the roles and is an
-- active user, to whom an active key with the digest of the request's token belongs; nothing but
-- the keys is written.
pub require_roles-IsAuthorised :
    (env : Env) (credentials : Credentials) (allowed : List Role) (db : Db)
    → env.settings.auth_disabled ≡ false
    → Ensures
        (require_roles env credentials allowed)
        db
        (λ actor db'. IsAuthorised env credentials allowed db actor × OnlyKeys db db')
unfolding require_roles
require_roles-IsAuthorised env credentials allowed db on =
    Ensures-bind (λ actor db'. IsBacked env credentials db actor × OnlyKeys db db')
      (resolve-IsBacked env credentials db on)
      (λ actor db' h. record {
        at =
            Post-guard
              (λ actor db'. IsAuthorised env credentials allowed db actor × OnlyKeys db db')
              (not (any (role_eq actor.role) allowed)) (http 403) (λ u. pure actor) db'
              (λ fits. ((true_of_not _ fits, h.0), h.1));
      })

resolve-OnlyKeys :
    (env : Env) (credentials : Credentials) (db : Db)
    → Ensures (resolve env credentials) db (λ actor db'. OnlyKeys db db')
unfolding resolve
resolve-OnlyKeys env credentials db =
    Ensures-if env.settings.auth_disabled _ _ (λ off. record { at = refl })
      (λ u. Ensures-found (token_of credentials.authorization) _ _ (λ token t.
        Ensures-mono _ (resolve_token-IsBacked env credentials token db t) (λ actor db' h. h.1)))

-- With authentication on or off, nothing but the keys is written, and the actor has one of the
-- roles.
pub require_roles-OnlyKeys :
    (env : Env) (credentials : Credentials) (allowed : List Role) (db : Db)
    → Ensures
        (require_roles env credentials allowed)
        db
        (λ actor db'. (any (role_eq actor.role) allowed ≡ true) × OnlyKeys db db')
unfolding require_roles
require_roles-OnlyKeys env credentials allowed db =
    Ensures-bind (λ actor db'. OnlyKeys db db') (resolve-OnlyKeys env credentials db)
      (λ actor db' h.
        Ensures-guard (not (any (role_eq actor.role) allowed)) _ _
          (λ fits. record { at = (true_of_not _ fits, h) }))

pub role_eq_self : (r : Role) → role_eq r r ≡ true
role_eq_self r = ground arith

-- A client passes the check of a firm exactly if it is their own, and a member of the staff always;
-- all others get 403.
pub assert_firm_access_iff :
    (actor : Actor) (firm_id : Ident) (db : Db)
    → ((assert_firm_access actor firm_id db ≡ ok (tt, db))
        ↔ ((is_internal actor ≡ true) ⊎ ((actor.role ≡ client) × (actor.firm_id ≡ some firm_id))))
      × ((assert_firm_access actor firm_id db ≡ ok (tt, db))
          ⊎ (assert_firm_access actor firm_id db ≡ err (http 403)))
unfolding assert_firm_access
assert_firm_access_iff actor firm_id db = ground arith
