-- ===== src/Api/Lookups.antt =====
-- How the shared steps of src/factory/api/main.py run: a row that is looked up, an exception that is
-- translated, an actor who is checked.
use human_data.Api.{get_or_404, catching, caught}
use human_data.Store.{Db, Error, Action, Result, find, ok, ◌>>=◌, err, http, attribute_error}
use human_data.Config.{Env}
use human_data.Model.Entities.{Ident, Project}
use human_data.Prelude.{List, ◌≡◌, some, false, any, true}
use human_data.Auth.{Credentials, Actor, require_roles}
use human_data.Store.Ensures.{Post, Ensures, Post-found, Ensures-bind, Ensures-or_raise}
use human_data.Model.Enums.{Role, role_eq}
use human_data.Auth.Access.{
  IsAuthorised, OnlyKeys, require_roles-IsAuthorised, require_roles-OnlyKeys,
}
use human_data.Qc.Rows.{project_ref, get_project}
use human_data.Prelude.{refl}

module _ {A B : Type 0} where
  pub Ensures-get :
      {Q : B → Db → Type 0} (id_of : A → Ident) (rows : Db → List A) (id : Ident) (g : A → Action B)
      {db : Db}
      → ((a : A) → find id_of id (rows db) ≡ some a → Ensures (g a) db Q)
      → Ensures (get_or_404 id_of rows id >>= g) db Q
  unfolding get_or_404
  Ensures-get {Q} id_of rows id g {db} h = record {
    at = Post-found Q (find id_of id (rows db)) (http 404) g db (λ a found. (h a found).at);
  }

module _ {A : Type 0} where
  Post-caught :
      (Q : A → Db → Type 0) (f : Error → Error) (r : Result (A × Db))
      → Post Q r
      → Post Q (caught f r)
  Post-caught Q f (ok (a, db)) h = h
  Post-caught Q f (err e) h = tt

  pub Ensures-catching :
      {Q : A → Db → Type 0} (f : Error → Error) (m : Action A) {db : Db}
      → Ensures m db Q
      → Ensures (catching f m) db Q
  unfolding catching
  Ensures-catching {Q} f m {db} h = record { at = Post-caught Q f (m db) h.at }

  -- an endpoint that checks the roles of its actor first
  pub Ensures-actor :
      {Q : A → Db → Type 0} (env : Env) (credentials : Credentials) (allowed : List Role)
      (g : Actor → Action A) {db : Db}
      → env.settings.auth_disabled ≡ false
      → ((actor : Actor) (db' : Db)
          → IsAuthorised env credentials allowed db actor
          → OnlyKeys db db'
          → Ensures (g actor) db' Q)
      → Ensures (require_roles env credentials allowed >>= g) db Q
  Ensures-actor env credentials allowed g {db} on h =
      Ensures-bind (λ actor db'. IsAuthorised env credentials allowed db actor × OnlyKeys db db')
        (require_roles-IsAuthorised env credentials allowed db on)
        (λ actor db' p. h actor db' p.0 p.1)

  -- the same, with authentication on or off
  pub Ensures-role :
      {Q : A → Db → Type 0} (env : Env) (credentials : Credentials) (allowed : List Role)
      (g : Actor → Action A) {db : Db}
      → ((actor : Actor) (db' : Db)
          → any (role_eq actor.role) allowed ≡ true
          → OnlyKeys db db'
          → Ensures (g actor) db' Q)
      → Ensures (require_roles env credentials allowed >>= g) db Q
  Ensures-role env credentials allowed g {db} h =
      Ensures-bind (λ actor db'. (any (role_eq actor.role) allowed ≡ true) × OnlyKeys db db')
        (require_roles-OnlyKeys env credentials allowed db) (λ actor db' p. h actor db' p.0 p.1)

  -- `db.get(Project, …)` and the use of its row
  pub Ensures-project :
      {Q : A → Db → Type 0} (id : Ident) (g : Project → Action A) {db : Db}
      → ((p : Project) → find project_ref id db.projects ≡ some p → Ensures (g p) db Q)
      → Ensures (get_project id >>= g) db Q
  Ensures-project {Q} id g {db} h = record {
    at =
        Post-found Q (find project_ref id db.projects) attribute_error g db
          (λ p found. (h p found).at);
  }

  pub get_or_404-found :
      (id_of : A → Ident) (rows : Db → List A) (id : Ident) (db : Db)
      → Ensures
          (get_or_404 id_of rows id)
          db
          (λ a db'. (find id_of id (rows db) ≡ some a) × (db' ≡ db))
  unfolding get_or_404
  get_or_404-found id_of rows id db = record {
    at = (Ensures-or_raise (find id_of id (rows db)) (http 404) (λ a found. (found, refl))).at;
  }
