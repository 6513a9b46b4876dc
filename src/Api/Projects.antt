-- ===== src/Api/Projects.antt =====
-- The projects and tasks in src/factory/api/main.py.
pub mod Assigned
pub mod Blind
use human_data.Auth.{Actor, Credentials, require_roles}
use human_data.Model.Enums.{
  TaskType, DomainTrack, TaskStatus, role_eq, client, unassigned, assigned,
}
use human_data.Prelude.{
  String, Option, Bool, not, true, some, List, none, false, ◌||◌, opt_eq, select, map, is_some,
  ◌&&◌, ◌++◌, ◌∷◌, [],
}
use human_data.Model.Entities.{Task, Project, Ident, ident}
use human_data.Config.{Env}
use human_data.Rubrics.{default_rubric_for, lookup, rubrics}
use human_data.Store.{Action, ◌>>◌, ◌>>=◌, gets, pure, raise_if, http, new_id, modify, put}
use human_data.Model.Json.{Fields, field, end, nat, text, bool}
use human_data.Api.{
  get_or_404, internal, any_authenticated, get_expert_or_404, get_firm_or_404, get_project_or_404,
  catching, control_response,
}
use human_data.Qc.Rows.{get_project, task_ref}
use human_data.Controls.{assert_qualified}
use human_data.Audit.{record_event}

-- an empty `rubric_id` is none
pub record ProjectIn : Type 0 where
  pub name : String
  pub firm_id : Ident
  pub track : DomainTrack
  pub task_type : TaskType
  pub guidelines : String
  pub rubric_id : Option String

pub record ProjectOut : Type 0 where
  pub id : Ident
  pub name : String
  pub firm_id : Ident
  pub track : DomainTrack
  pub task_type : TaskType

pub record TaskIn : Type 0 where
  pub prompt : String
  pub context : Fields
  pub is_gold : Bool
  pub gold_answer : Option Fields

-- what `get_task` returns
pub record TaskOut : Type 0 where
  pub id : Ident
  pub project_id : Ident
  pub prompt : String
  pub context : Fields
  pub status : TaskStatus
  pub assigned_to : Option Ident
  pub is_gold : Bool

abbrev pub rubric_or_default : TaskType → Option String → String
rubric_or_default task_type none = default_rubric_for task_type
rubric_or_default task_type (some id) = id

unfoldable pub create_project : Env → Credentials → ProjectIn → Action (Ident × String)
create_project env credentials body = do
  actor ← require_roles env credentials internal
  get_firm_or_404 body.firm_id
  let rubric_id = rubric_or_default body.task_type body.rubric_id
  raise_if (not (is_some (lookup rubric_id rubrics))) (http 422)
  id ← new_id
  now ← gets (λ db. db.clock)
  let p : Project = record {
    id = id;
    name = body.name;
    firm_id = body.firm_id;
    track = body.track;
    task_type = body.task_type;
    guidelines = body.guidelines;
    rubric_id = rubric_id;
    created_by = actor.id;
    created_at = now;
  }
  modify (λ db. record db { projects = db.projects ++ p ∷ [] })
  record_event env (ident actor.id) "project.created" "project" p.id
      (field "name" (text body.name) (field "firm_id" (nat body.firm_id) end))
  pure (p.id, rubric_id)

abbrev pub project_out : Project → ProjectOut
project_out p = record {
  id = p.id;
  name = p.name;
  firm_id = p.firm_id;
  track = p.track;
  task_type = p.task_type;
}

-- the `where` of `list_projects`, for a client
abbrev pub is_listed : Actor → Project → Bool
is_listed actor p = not (role_eq actor.role client) || opt_eq (some p.firm_id) actor.firm_id

unfoldable pub list_projects : Env → Credentials → Action (List ProjectOut)
list_projects env credentials = do
  actor ← require_roles env credentials any_authenticated
  rows ← gets (λ db. select (is_listed actor) db.projects)
  pure (map project_out rows)

-- `not body.gold_answer`
abbrev pub no_answer : Option Fields → Bool
no_answer none = true
no_answer (some end) = true
no_answer (some (field k v d)) = false

unfoldable pub create_task : Env → Credentials → Ident → TaskIn → Action Ident
create_task env credentials project_id body = do
  actor ← require_roles env credentials internal
  p ← get_project_or_404 project_id
  raise_if (body.is_gold && no_answer body.gold_answer) (http 422)
  id ← new_id
  now ← gets (λ db. db.clock)
  let t : Task = record {
    id = id;
    project_id = p.id;
    prompt = body.prompt;
    context = body.context;
    is_gold = body.is_gold;
    gold_answer = body.gold_answer;
    status = unassigned;
    assigned_to = none;
    created_at = now;
  }
  modify (λ db. record db { tasks = db.tasks ++ t ∷ [] })
  record_event env (ident actor.id) "task.created" "task" t.id
      (field "project_id" (nat p.id) (field "is_gold" (bool body.is_gold) end))
  pure t.id

abbrev pub get_task_or_404 : Ident → Action Task
get_task_or_404 = get_or_404 task_ref (λ db. db.tasks)

unfoldable pub assign_task : Env → Credentials → Ident → Ident → Action (Ident × Ident)
assign_task env credentials task_id expert_id = do
  actor ← require_roles env credentials internal
  t ← get_task_or_404 task_id
  ex ← get_expert_or_404 expert_id
  p ← get_project t.project_id
  catching control_response (assert_qualified ex p.track)
  let assigned_task = record t { assigned_to = some ex.id; status = assigned }
  modify (λ db. record db { tasks = put task_ref assigned_task db.tasks })
  record_event env (ident actor.id) "task.assigned" "task" t.id (field "expert_id" (nat ex.id) end)
  pure (t.id, ex.id)

-- The gold answer is left out.
abbrev pub task_out : Task → TaskOut
task_out t = record {
  id = t.id;
  project_id = t.project_id;
  prompt = t.prompt;
  context = t.context;
  status = t.status;
  assigned_to = t.assigned_to;
  is_gold = t.is_gold;
}

unfoldable pub get_task : Env → Credentials → Ident → Action TaskOut
get_task env credentials task_id = do
  require_roles env credentials any_authenticated
  t ← get_task_or_404 task_id
  pure (task_out t)
