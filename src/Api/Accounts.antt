-- ===== src/Api/Accounts.antt =====
-- The users and their keys in src/factory/api/main.py: `bootstrap`, `create_user`, `revoke_user`.
pub mod Revoked
use human_data.Prelude.{
  Option, String, Bool, List, true, str_eq, ◌∷◌, some, false, if◌then◌else◌, ◌==◌, select, ◌++◌,
  ltb, none, [], length, is_some, ◌&&◌, not,
}
use human_data.Model.Entities.{User, Ident, ApiKey, ident}
use human_data.Config.{Env}
use human_data.Model.Enums.{Role, reviewer, expert, role_eq, admin, client, role_value}
use human_data.Auth.{Credentials, require_roles, issue_key}
use human_data.Store.{
  Action, modify, ◌>>=◌, pure, new_id, put, gets, ◌>>◌, raise_if, one_or_none, http,
}
use human_data.Api.{admin_only, user_ref, get_or_404, get_expert_or_404, get_firm_or_404}
use human_data.Audit.{record_event}
use human_data.Model.Json.{end, field, text}

pub record BootstrapIn : Type 0 where
  pub name : String
  pub email : String

-- an empty `firm_id` or `expert_id` is none
pub record UserIn : Type 0 where
  pub name : String
  pub email : String
  pub role : Role
  pub firm_id : Option Ident
  pub expert_id : Option Ident

-- the response of both handlers that issue a key
pub record KeyOut : Type 0 where
  pub user_id : Ident
  pub api_key : String

unfoldable pub add_user : String → String → Role → Option Ident → Option Ident → Action User
add_user name email role firm_id expert_id = do
  id ← new_id
  now ← gets (λ db. db.clock)
  let user : User = record {
    id = id;
    name = name;
    email = email;
    role = role;
    firm_id = firm_id;
    expert_id = expert_id;
    active = true;
    created_at = now;
  }
  modify (λ db. record db { users = db.users ++ user ∷ [] })
  pure user

unfoldable pub bootstrap : Env → BootstrapIn → String → Action KeyOut
unfolding add_user
bootstrap env body secret = do
  users ← gets (λ db. db.users)
  raise_if (ltb 0 (length users)) (http 409)
  user ← add_user body.name body.email admin none none
  key ← issue_key env user secret
  record_event env (ident user.id) "user.bootstrapped" "user" user.id
      (field "email" (text body.email) end)
  pure (record { user_id = user.id; api_key = key })

abbrev pub has_email : String → User → Bool
has_email email u = str_eq u.email email

-- a REVIEWER or EXPERT
abbrev pub needs_expert : Role → Bool
needs_expert reviewer = true
needs_expert expert = true
needs_expert _ = false

-- `if body.firm_id: _get_or_404(db, Firm, body.firm_id)`, and the same of an expert
unfoldable pub check_firm : Option Ident → Action Unit
check_firm none = pure tt
check_firm (some id) = do get_firm_or_404 id; pure tt

unfoldable pub check_expert : Option Ident → Action Unit
check_expert none = pure tt
check_expert (some id) = do get_expert_or_404 id; pure tt

unfoldable pub create_user : Env → Credentials → UserIn → String → Action KeyOut
unfolding add_user
create_user env credentials body secret = do
  actor ← require_roles env credentials admin_only
  rows ← gets (λ db. select (has_email body.email) db.users)
  registered ← one_or_none rows
  raise_if (is_some registered) (http 409)
  raise_if (role_eq body.role client && not (is_some body.firm_id)) (http 422)
  raise_if (needs_expert body.role && not (is_some body.expert_id)) (http 422)
  check_firm body.firm_id
  check_expert body.expert_id
  user ← add_user body.name body.email body.role body.firm_id body.expert_id
  key ← issue_key env user secret
  record_event env (ident actor.id) "user.created" "user" user.id
      (field "email" (text body.email) (field "role" (text (role_value body.role)) end))
  pure (record { user_id = user.id; api_key = key })

-- the loop over the keys of a user
unfoldable pub deactivate_keys : Ident → List ApiKey → List ApiKey
deactivate_keys user_id [] = []
deactivate_keys user_id (k ∷ ks) =
    (if k.user_id == user_id then record k { active = false } else k) ∷ deactivate_keys user_id ks

-- the two assignments of `revoke_user`
unfoldable pub deactivate : User → Action Unit
unfolding deactivate_keys
deactivate user = modify (λ db. record db {
  users = put user_ref (record user { active = false }) db.users;
  api_keys = deactivate_keys user.id db.api_keys;
})

unfoldable pub revoke_user : Env → Credentials → Ident → Action Ident
unfolding deactivate
revoke_user env credentials user_id = do
  actor ← require_roles env credentials admin_only
  user ← get_or_404 user_ref (λ db. db.users) user_id
  deactivate user
  record_event env (ident actor.id) "user.revoked" "user" user.id end
  pure user.id
