-- ===== src/Api/Accounts/Revoked.antt =====
-- `revoke_user` of src/factory/api/main.py: nobody acts as the user any more.
use human_data.Config.{Env}
use human_data.Prelude.{ℕ, List, ◌≡◌, false, some, ap, ◌≢◌, ◌∷◌, arith, [], subst, sym, ◌∙◌}
use human_data.Model.Entities.{Ident, ApiKey, User, ident}
use human_data.Api.Accounts.{revoke_user, deactivate, deactivate_keys}
use human_data.Auth.{Credentials, Actor, key_row, resolve, require_roles}
use human_data.Store.{Db, ok, returned, ◌>>◌, pure}
use human_data.Audit.{record_event}
use human_data.Store.Ensures.{Ensures, Ensures-then, Ensures-ok}
use human_data.Api.Lookups.{Ensures-get}
use human_data.Store.Rows.{find-id}
use human_data.Api.{user_ref, admin_only}
use human_data.Auth.Access.{IsBacked-returned}
use human_data.Auth.Keys.{key_row-IsOwner}
use human_data.Model.Json.{end}

module _ (digest : ℕ) (users : List User) (id : Ident) where
  key_row-deactivate_keys :
      (ks : List ApiKey) {k : ApiKey} {u : User}
      → key_row digest users (deactivate_keys id ks) ≡ some (k, u)
      → k.user_id ≢ id
  unfolding key_row deactivate_keys
  key_row-deactivate_keys [] e = absurd cc
  key_row-deactivate_keys (x ∷ ks) {k = k} {u = u} e =
      grind (arith, key_row-deactivate_keys ks {k = k} {u = u})

-- the keys that `revoke_user` leaves
abbrev AreDeactivated : Ident → List ApiKey → Type 0
AreDeactivated id keys = (ks : List ApiKey) × (keys ≡ deactivate_keys id ks)

-- from `user.active = False` on
revoked_lem :
    (env : Env) (actor : Actor) (user : User) (id : Ident) (db : Db)
    → user.id ≡ id
    → Ensures
        (deactivate user
          >> record_event env (ident actor.id) "user.revoked" "user" user.id end
          >> pure user.id)
        db
        (λ out db'. AreDeactivated id db'.api_keys)
unfolding deactivate record_event
revoked_lem env actor user id db same = record {
  at = (db.api_keys, ap (λ i. deactivate_keys i db.api_keys) same);
}

revoke_user-AreDeactivated :
    (env : Env) (credentials : Credentials) (id : Ident) (db : Db)
    → Ensures (revoke_user env credentials id) db (λ out db'. AreDeactivated id db'.api_keys)
unfolding revoke_user
revoke_user-AreDeactivated env credentials id db =
    Ensures-then (require_roles env credentials admin_only) _ (λ actor db'.
      Ensures-get user_ref (λ db. db.users) id _
        (λ user found. revoked_lem env actor user id db' (find-id user_ref id db'.users found)))

-- Where authentication is on: after `revoke_user` has returned, no credentials resolve to the user.
pub revoke_user-resolve :
    (env : Env) (credentials other : Credentials) (id out : Ident) (db db' : Db) (actor : Actor)
    → env.settings.auth_disabled ≡ false
    → revoke_user env credentials id db ≡ ok (out, db')
    → returned (resolve env other db') ≡ some actor
    → actor.id ≢ id
revoke_user-resolve env credentials other id out db db' actor on revoked resolved =
    let keys = Ensures-ok (revoke_user-AreDeactivated env credentials id db) revoked in
    let (token, k, u, _, _, _, who, row) = IsBacked-returned env other db' actor on resolved in
    let row' = subst (λ ks. key_row (env.key_digest token) db'.users ks ≡ some (k, u)) keys.1 row in
    let other_user = key_row-deactivate_keys (env.key_digest token) db'.users id keys.0 row' in
    λ same. other_user (
      sym (key_row-IsOwner (env.key_digest token) db'.users db'.api_keys row).2
      ∙ sym (ap (λ (a : Actor). a.id) who)
      ∙ same)
