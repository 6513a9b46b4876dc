-- ===== src/Auth/Keys.antt =====
-- The keys of src/factory/auth.py: what is issued is what a request resolves.
use human_data.Auth.{
  issue_key, resolve, token_of, active_owner, key_row, has_digest, Header, bearer, key_prefix,
  bearer_of, actor_of, resolve_token, generate_key, Credentials, add_key,
}
use human_data.Prelude.{
  ℕ, List, String, all_urlsafe, Option, any, ◌≡◌, some, true, ◌∷◌, false, str_append, ◌++◌, arith,
  [], refl, all_urlsafe-append, subst, starts_with-append, sym, remove_prefix-append, strip-urlsafe,
  ◌∙◌, ==_self, take_text,
}
use human_data.Model.Entities.{ApiKey, User}
use human_data.Config.{Env}
use human_data.Store.{find, Db, ok, returned, ◌>>◌, pure}
use human_data.Store.Ensures.{Ensures, Ensures-ok, Post-guard}
use human_data.Prelude.{IsIn}

active_owner-IsOwner :
    (k : ApiKey) (users : List User) {u : User}
    → active_owner k users ≡ some u
    → (u.id ≡ k.user_id) × (u.active ≡ true)
unfolding active_owner
active_owner-IsOwner k [] e = absurd cc
active_owner-IsOwner k (x ∷ users) {u = u} e = grind (arith, active_owner-IsOwner k users {u = u})

module _ (digest : ℕ) (users : List User) where
  key_row-append :
      (ks : List ApiKey) (k : ApiKey)
      → any (has_digest digest) ks ≡ false
      → key_row digest users (ks ++ k ∷ []) ≡ key_row digest users (k ∷ [])
  unfolding key_row
  key_row-append [] k h = refl
  key_row-append (x ∷ ks) k h = ground (arith, key_row-append ks k)

  -- a row of the join is an active key of that digest with its active user
  pub key_row-IsOwner :
      (ks : List ApiKey) {k : ApiKey} {u : User}
      → key_row digest users ks ≡ some (k, u)
      → (k.key_hash ≡ digest) × (k.active ≡ true) × (u.id ≡ k.user_id) × (u.active ≡ true)
  unfolding key_row
  key_row-IsOwner [] e = absurd cc
  key_row-IsOwner (x ∷ ks) {k = k} {u = u} e =
      grind (arith, active_owner-IsOwner x users, key_row-IsOwner ks {k = k} {u = u})

active_owner-IsIn :
    (k : ApiKey) (users : List User) {u : User} → active_owner k users ≡ some u → IsIn u users
unfolding active_owner
active_owner-IsIn k [] e = absurd cc
active_owner-IsIn k (x ∷ users) {u = u} e = grind (arith, active_owner-IsIn k users {u = u})

key_row-IsIn :
    (digest : ℕ) (users : List User) (ks : List ApiKey) {k : ApiKey} {u : User}
    → key_row digest users ks ≡ some (k, u)
    → IsIn k ks × IsIn u users
unfolding key_row
key_row-IsIn digest users [] e = absurd cc
key_row-IsIn digest users (x ∷ ks) {k = k} {u = u} e =
    grind (arith, active_owner-IsIn x users {u = u}, key_row-IsIn digest users ks {k = k} {u = u})

-- the key and the user of a row of the join
pub key_row-Stored :
    (digest : ℕ) (users : List User) (ks : List ApiKey) {k : ApiKey} {u : User}
    → key_row digest users ks ≡ some (k, u)
    → (IsIn k ks × (k.key_hash ≡ digest) × (k.active ≡ true))
      × (IsIn u users × (u.id ≡ k.user_id) × (u.active ≡ true))
key_row-Stored digest users ks e =
    let (key_in, user_in) = key_row-IsIn digest users ks e in
    let (hashed, alive, owned, is_active) = key_row-IsOwner digest users ks e in
    ((key_in, hashed, alive), (user_in, owned, is_active))

active_owner-find :
    (k : ApiKey) (users : List User) {u : User}
    → find (λ (u : User). u.id) k.user_id users ≡ some u
    → u.active ≡ true
    → active_owner k users ≡ some u
unfolding active_owner
active_owner-find k [] e a = absurd cc
active_owner-find k (x ∷ users) {u = u} e a = ground (arith, active_owner-find k users {u = u})

key-urlsafe :
    (secret : String)
    → all_urlsafe secret ≡ true
    → all_urlsafe (str_append key_prefix secret) ≡ true
key-urlsafe secret h = all_urlsafe-append key_prefix secret refl h

token_of-bearer :
    (key : String) → all_urlsafe key ≡ true → token_of (some (str_append bearer key)) ≡ some key
unfolding token_of
token_of-bearer key h =
    rw (starts_with-append bearer key, remove_prefix-append bearer key, strip-urlsafe key h)

-- the newest key, if no other has its digest, with its user
key_row-newest :
    (digest : ℕ) (users : List User) (ks : List ApiKey) (k : ApiKey) {u : User}
    → any (has_digest digest) ks ≡ false
    → k.key_hash ≡ digest
    → k.active ≡ true
    → active_owner k users ≡ some u
    → key_row digest users (ks ++ k ∷ []) ≡ some (k, u)
unfolding key_row
key_row-newest digest users ks k free same alive owner =
    key_row-append digest users ks k free ∙ rw (same, ==_self digest, alive, owner)

-- what `issue_key` leaves
abbrev Issued : Env → User → String → Db → String → Db → Type 0
Issued env user secret db key db' =
    (any (has_digest (env.key_digest key)) db.api_keys ≡ false)
    × (key ≡ str_append key_prefix secret)
    × (db'.users ≡ db.users)
    × ((row : ApiKey) × (db'.api_keys ≡ db.api_keys ++ row ∷ [])
        × (row.user_id ≡ user.id)
        × (row.active ≡ true)
        × (row.key_hash ≡ env.key_digest key))

issue_key-Issued :
    (env : Env) (user : User) (secret : String) (db : Db)
    → Ensures (issue_key env user secret) db (Issued env user secret db)
unfolding issue_key generate_key add_key
issue_key-Issued env user secret db =
    let key = str_append key_prefix secret in
    record {
      at =
          Post-guard (Issued env user secret db) _ _
            (λ u. add_key user (take_text 8 key) (env.key_digest key) >> pure key) db
            (λ free. (free, refl, refl, (_, refl, refl, refl, refl)));
    }

resolve-found :
    (env : Env) (credentials : Credentials) (token : String) (db : Db) {k : ApiKey} {u : User}
    → env.settings.auth_disabled ≡ false
    → token_of credentials.authorization ≡ some token
    → key_row (env.key_digest token) db.users db.api_keys ≡ some (k, u)
    → returned (resolve env credentials db) ≡ some (actor_of u)
unfolding resolve resolve_token
resolve-found env credentials token db on t r = rw (on, t, r)

-- The key that `issue_key` gives an active user, sent as the bearer token with the tables that it
-- leaves, resolves to that user, where authentication is on, the user is in the table, and the
-- secret is in the alphabet of `token_urlsafe`.
pub issue_key-resolve :
    (env : Env) (user : User) (secret key : String) (db db' : Db) (header : Option Header)
    → env.settings.auth_disabled ≡ false
    → all_urlsafe secret ≡ true
    → find (λ (u : User). u.id) user.id db.users ≡ some user
    → user.active ≡ true
    → issue_key env user secret db ≡ ok (key, db')
    → returned (resolve env (bearer_of key header) db') ≡ some (actor_of user)
unfolding issue_key resolve
issue_key-resolve env user secret key db db' header on safe known active issued =
    let left = Ensures-ok (issue_key-Issued env user secret db) issued in
    let safe_key = subst (λ k. all_urlsafe k ≡ true) (sym left.1) (key-urlsafe secret safe) in
    let (row, added, of_user, alive, digest) = left.3 in
    let owner =
      active_owner-find row db.users
        (subst (λ id. find (λ (u : User). u.id) id db.users ≡ some user) (sym of_user) known)
        active in
    let newest =
      key_row-newest (env.key_digest key) db.users db.api_keys row left.0 digest alive owner in
    resolve-found env (bearer_of key header) key db' {k = row} {u = user} on
      (token_of-bearer key safe_key) (rw (left.2, added, newest))
