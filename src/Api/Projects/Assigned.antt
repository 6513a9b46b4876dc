-- ===== src/Api/Projects/Assigned.antt =====
-- `assign_task` of src/factory/api/main.py: who a task is assigned to.
use human_data.Model.Entities.{Expert, Project, Ident, Task, Qualification}
use human_data.Store.{Db, find, ok, put}
use human_data.Api.Projects.{assign_task}
use human_data.Audit.{record_event}
use human_data.Config.{Env}
use human_data.Store.Ensures.{Ensures, Ensures-of, Ensures-bind}
use human_data.Api.{catching, control_response, internal}
use human_data.Auth.{Credentials}
use human_data.Api.Lookups.{Ensures-role, Ensures-get, Ensures-catching, Ensures-project}
use human_data.Controls.{assert_qualified, holds_track}
use human_data.Prelude.{◌≡◌, some, select, ◌∷◌, [], ◌∙◌, ap, subst, refl, sym}
use human_data.Model.Enums.{qualified, assigned}
use human_data.Controls.Gating.{assert_qualified-same, assert_qualified_iff}
use human_data.Qc.Rows.{task_ref, expert_ref, project_ref}
use human_data.Auth.Access.{OnlyKeys}
use human_data.Store.Rows.{find-put, find-id}

-- the expert, task and project of an assignment, and the one passed exam
abbrev pub MayWork : Db → Ident → Ident → Type 0
MayWork db task_id expert_id =
    (t : Task) × (ex : Expert) × (p : Project) × (q : Qualification) × (find task_ref task_id
        db.tasks
      ≡ some t)
    × (find expert_ref expert_id db.experts ≡ some ex)
    × (find project_ref t.project_id db.projects ≡ some p)
    × (ex.status ≡ qualified)
    × (select (holds_track ex.id p.track) db.qualifications ≡ q ∷ [])

abbrev pub IsAssigned : Db → Ident → Ident → Type 0
IsAssigned db task_id expert_id =
    (t : Task) × (find task_ref task_id db.tasks ≡ some t)
    × (t.assigned_to ≡ some expert_id)
    × (t.status ≡ assigned)

qualified_lem :
    (ex : Expert) (p : Project) (db : Db)
    → Ensures (catching control_response (assert_qualified ex p.track)) db (λ u db'.
      (db' ≡ db)
      × (ex.status ≡ qualified)
      × ((q : Qualification) × (select (holds_track ex.id p.track) db.qualifications ≡ q ∷ [])))
qualified_lem ex p db = Ensures-catching control_response (assert_qualified ex p.track) (
    Ensures-of (assert_qualified ex p.track) (λ u db' e.
      let same = assert_qualified-same ex p.track db db' u e in
      let held = (assert_qualified_iff ex p.track db).0 (e ∙ ap (λ d. ok (tt, d)) same) in
      (same, held.0, held.1)))

MayWork-same :
    (db db1 : Db) (task_id expert_id : Ident)
    → OnlyKeys db db1
    → MayWork db1 task_id expert_id
    → MayWork db task_id expert_id
MayWork-same db db1 task_id expert_id same =
    subst (λ d. MayWork d task_id expert_id → MayWork db task_id expert_id) (sym same) (λ w. w)

IsAssigned-put :
    (db1 db2 : Db) (task_id expert_id : Ident) (t : Task) (ex : Expert)
    → db2 ≡ db1
    → find task_ref task_id db1.tasks ≡ some t
    → find expert_ref expert_id db1.experts ≡ some ex
    → (u : Task) × (find task_ref task_id
          (put task_ref (record t { assigned_to = some ex.id; status = assigned }) db2.tasks)
        ≡ some u)
      × (u.assigned_to ≡ some expert_id)
      × (u.status ≡ assigned)
IsAssigned-put db1 db2 task_id expert_id t ex same found known = (
  record t { assigned_to = some ex.id; status = assigned },
  find-put task_ref task_id db2.tasks _
      (ap (λ (d : Db). find task_ref task_id d.tasks) same ∙ found)
      (find-id task_ref task_id db1.tasks found),
  ap some (find-id expert_ref expert_id db1.experts known),
  refl,
)

-- A task is only ever assigned to an expert in QUALIFIED status with exactly one passed exam of the
-- project's track on record, and then stands as assigned to them.
pub assign_task-IsAssigned :
    (env : Env) (credentials : Credentials) (task_id expert_id : Ident) (db : Db)
    → Ensures
        (assign_task env credentials task_id expert_id)
        db
        (λ out db'. MayWork db task_id expert_id × IsAssigned db' task_id expert_id)
unfolding assign_task record_event
assign_task-IsAssigned env credentials task_id expert_id db =
    Ensures-role env credentials internal _ (λ actor db1 role same.
      Ensures-get task_ref (λ db. db.tasks) task_id _
        (λ t found.
          Ensures-get expert_ref (λ db. db.experts) expert_id _
            (λ ex known. Ensures-project t.project_id _ (λ p owner.
              Ensures-bind
                (λ u db2.
                  (db2 ≡ db1)
                  × (ex.status ≡ qualified)
                  × ((q : Qualification) × (select (holds_track ex.id p.track) db1.qualifications
                        ≡ q ∷ [])))
                (qualified_lem ex p db1)
                (λ u db2 held. record {
                  at = (
                    MayWork-same db db1 task_id expert_id same
                        (t, ex, p, held.2.0, found, known, owner, held.1, held.2.1),
                    IsAssigned-put db1 db2 task_id expert_id t ex held.0 found known,
                  );
                })))))
