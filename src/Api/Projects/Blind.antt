-- ===== src/Api/Projects/Blind.antt =====
-- `get_task` of src/factory/api/main.py: what it tells of a gold task.
use human_data.Model.Entities.{Ident, Task}
use human_data.Prelude.{List, map, none, Option, some, ◌≡◌, ◌∷◌, arith, [], refl, ap, ◌∙◌, sym}
use human_data.Store.{Result, find, Db, ok, err, Action, ◌>>=◌, returned, continue, pure}
use human_data.Auth.{require_roles, resolve, resolve_token, Credentials, Actor}
use human_data.Api.Projects.{TaskOut, task_out, get_task, get_task_or_404}
use human_data.Qc.Rows.{task_ref}
use human_data.Config.{Env}
use human_data.Model.Enums.{Role}
use human_data.Api.{get_or_404, any_authenticated}
use human_data.Store.Ensures.{Post, Ensures-mono}
use human_data.Auth.Access.{require_roles-OnlyKeys}

-- the table with every gold answer struck out
abbrev pub without_answers : List Task → List Task
without_answers tasks = map (λ (t : Task). record t { gold_answer = none }) tasks

module _ {A : Type 0} where
  abbrev with_tasks : List Task → Result (A × Db) → Result (A × Db)
  with_tasks ts (ok (a, db)) = ok (a, record db { tasks = ts })
  with_tasks ts (err e) = err e

abbrev asked : Option Task → Option TaskOut
asked none = none
asked (some t) = some (task_out t)

find-without_answers :
    (id : Ident) (tasks : List Task)
    → asked (find task_ref id (without_answers tasks)) ≡ asked (find task_ref id tasks)
find-without_answers id [] = refl
find-without_answers id (t ∷ tasks) = ground (arith, find-without_answers id tasks)

require_roles-tasks :
    (env : Env) (credentials : Credentials) (allowed : List Role) (ts : List Task) (db : Db)
    → require_roles env credentials allowed (record db { tasks = ts })
      ≡ with_tasks ts (require_roles env credentials allowed db)
unfolding require_roles resolve resolve_token
require_roles-tasks env credentials allowed ts db = ground arith

-- what `get_task` does once the actor is known
abbrev told : Ident → Action TaskOut
told id = do t ← get_task_or_404 id; pure (task_out t)

told-asked : (id : Ident) (db : Db) → returned (told id db) ≡ asked (find task_ref id db.tasks)
unfolding get_or_404
told-asked id db = ground arith

told_lem :
    (id : Ident) (ts : List Task) (r : Result (Actor × Db))
    → Post (λ actor db. db.tasks ≡ ts) r
    → returned (continue (with_tasks (without_answers ts) r) (λ actor. told id))
      ≡ returned (continue r (λ actor. told id))
told_lem id ts (err e) h = refl
told_lem id ts (ok (actor, db)) h =
    told-asked id (record db { tasks = without_answers ts })
    ∙ find-without_answers id ts
    ∙ sym (told-asked id db ∙ ap (λ ts. asked (find task_ref id ts)) h)

-- What `get_task` answers does not depend on the gold answers: with all of them struck out of the
-- table it answers the same.
pub get_task-without_answers :
    (env : Env) (credentials : Credentials) (id : Ident) (db : Db)
    → returned (get_task env credentials id (record db { tasks = without_answers db.tasks }))
      ≡ returned (get_task env credentials id db)
unfolding get_task
get_task-without_answers env credentials id db =
    ap (λ r. returned (continue r (λ actor. told id)))
      (require_roles-tasks env credentials any_authenticated (without_answers db.tasks) db)
    ∙ told_lem id db.tasks (require_roles env credentials any_authenticated db)
        (Ensures-mono _ (require_roles-OnlyKeys env credentials any_authenticated db)
          (λ actor db' h. ap (λ (d : Db). d.tasks) h.1)).at
