-- ===== src/Auth.antt =====
-- src/factory/auth.py: API keys, the actor of a request, and the checks of roles and firms.
pub mod Keys
pub mod Access
use human_data.Prelude.{
  ℕ, Option, String, Bool, str_append, ◌==◌, some, List, if◌then◌else◌, ◌||◌, take_text, none,
  starts_with, ◌∷◌, not, strip, any, ◌&&◌, remove_prefix, opt_eq, [], true, ◌++◌,
}
use human_data.Model.Entities.{ApiKey, Ident, User}
use human_data.Config.{Env}
use human_data.Store.{
  Action, ◌>>=◌, raise_if, gets, pure, ◌>>◌, or_raise, integrity_error, http, modify, new_id, put,
}
use human_data.Model.Enums.{admin, role_eq, Role, ops, client}

pub record Actor : Type 0 where
  pub id : Ident
  pub name : String
  pub role : Role
  pub firm_id : Option Ident
  pub expert_id : Option Ident

-- The two headers of a request. An empty `X-Actor-Id` is none; of one that is given, `id` is the
-- number that its text is kept as.
pub record Header : Type 0 where
  pub id : Ident
  pub name : String

pub record Credentials : Type 0 where
  pub authorization : Option String
  pub x_actor_id : Option Header

-- `Actor.is_internal`
abbrev pub is_internal : Actor → Bool
is_internal actor = role_eq actor.role admin || role_eq actor.role ops

-- `KEY_PREFIX`
abbrev pub key_prefix : String
key_prefix = "hdf_"

-- The key of a secret, what is shown of it, and its digest. `secrets.token_urlsafe` draws the
-- secret, which is an argument here and of each operation that issues a key.
unfoldable pub generate_key : Env → String → String × (String × ℕ)
generate_key env secret =
    let key = str_append key_prefix secret in (key, (take_text 8 key, env.key_digest key))

abbrev pub has_digest : ℕ → ApiKey → Bool
has_digest digest k = k.key_hash == digest

-- the `db.add` and the `db.flush` of `issue_key`
unfoldable pub add_key : User → String → ℕ → Action Unit
add_key user prefix digest = do
  id ← new_id
  now ← gets (λ db. db.clock)
  let row : ApiKey = record {
    id = id;
    user_id = user.id;
    prefix = prefix;
    key_hash = digest;
    active = true;
    created_at = now;
    last_used_at = none;
  }
  modify (λ db. record db { api_keys = db.api_keys ++ row ∷ [] })

-- The column `key_hash` is unique.
unfoldable pub issue_key : Env → User → String → Action String
unfolding generate_key add_key
issue_key env user secret = do
  let generated = generate_key env secret
  keys ← gets (λ db. db.api_keys)
  raise_if (any (has_digest generated.1.1) keys) integrity_error
  add_key user generated.1.0 generated.1.1
  pure generated.0

-- the active user that a key joins
unfoldable pub active_owner : ApiKey → List User → Option User
active_owner k [] = none
active_owner k (u ∷ us) =
    let rest = active_owner k us in if k.user_id == u.id && u.active then some u else rest

abbrev with_key : ApiKey → Option User → Option (ApiKey × User)
with_key k none = none
with_key k (some u) = some (k, u)

abbrev or_next : Option (ApiKey × User) → Option (ApiKey × User) → Option (ApiKey × User)
or_next (some r) next = some r
or_next none next = next

-- the first row of the join of keys and users
unfoldable pub key_row : ℕ → List User → List ApiKey → Option (ApiKey × User)
unfolding active_owner
key_row digest users [] = none
key_row digest users (k ∷ ks) =
    let rest = key_row digest users ks in
    if has_digest digest k && k.active
    then or_next (with_key k (active_owner k users)) rest
    else rest

abbrev pub actor_of : User → Actor
actor_of user = record {
  id = user.id;
  name = user.name;
  role = user.role;
  firm_id = user.firm_id;
  expert_id = user.expert_id;
}

abbrev pub dev_actor : Env → Option Header → Actor
dev_actor env none = record {
  id = env.dev_admin;
  name = "dev-admin";
  role = admin;
  firm_id = none;
  expert_id = none;
}
dev_actor env (some header) = record {
  id = header.id;
  name = header.name;
  role = admin;
  firm_id = none;
  expert_id = none;
}

abbrev pub bearer : String
bearer = "Bearer "

-- the headers that send a key
abbrev pub bearer_of : String → Option Header → Credentials
bearer_of key header = record { authorization = some (str_append bearer key); x_actor_id = header }

-- the token of the header, if it has one
unfoldable pub token_of : Option String → Option String
token_of none = none
token_of (some header) =
    if starts_with header bearer then some (strip (remove_prefix bearer header)) else none

abbrev pub key_ref : ApiKey → Ident
key_ref k = k.id

-- the actor of a token
unfoldable pub resolve_token : Env → String → Action Actor
unfolding key_row
resolve_token env token = do
  found ← gets (λ db. key_row (env.key_digest token) db.users db.api_keys)
  row ← or_raise found (http 401)
  now ← gets (λ db. db.clock)
  modify (λ db. record db {
    api_keys = put key_ref (record row.0 { last_used_at = some now }) db.api_keys;
  })
  pure (actor_of row.1)

-- `_resolve`
unfoldable pub resolve : Env → Credentials → Action Actor
unfolding resolve_token token_of
resolve env credentials =
    if env.settings.auth_disabled then pure (dev_actor env credentials.x_actor_id) else do
      token ← or_raise (token_of credentials.authorization) (http 401)
      resolve_token env token

-- `require_roles`, with the actor of the credentials
unfoldable pub require_roles : Env → Credentials → List Role → Action Actor
unfolding resolve
require_roles env credentials allowed = do
  actor ← resolve env credentials
  raise_if (not (any (role_eq actor.role) allowed)) (http 403)
  pure actor

unfoldable pub assert_firm_access : Actor → Ident → Action Unit
assert_firm_access actor firm_id =
    raise_if
      (not
        (is_internal actor || (role_eq actor.role client && opt_eq actor.firm_id (some firm_id))))
      (http 403)
