-- ===== src/Qc/Engine/Gate1.antt =====
-- How src/factory/qc/engine.py treats a submission whose text is in the project already.
use human_data.Model.Entities.{Submission, Task, Project, Expert}
use human_data.Config.{Env}
use human_data.Prelude.{
  List, ◌≡◌, some, ◌≢◌, ◌∷◌, ◌⊎◌, true, [], map, ap, select, ◌∙◌, ◌&&◌, not, ◌==◌, arith, subst,
  sym, false,
}
use human_data.Store.{Db, find, ok}
use human_data.Qc.Engine.{process}
use human_data.Qc.Rows.{task_ref, project_ref, project_fingerprints, in_project, others_in_project}
use human_data.Validators.Run.{content_fingerprint}
use human_data.Model.Enums.{auto_check_failed, SubmissionStatus}
use human_data.Validators.{contains, passed}
use human_data.Store.Rows.{find-id}
use human_data.Qc.Engine.Routing.{process-gated, findings_of, gated}
use human_data.Rubrics.{Rubric}
use human_data.Validators.Passing.{run_all-passed}

-- a list of submissions has the one
abbrev pub Has : Submission → List Submission → Type 0
Has s [] = ⊥
Has s (x ∷ xs) = (x ≡ s) ⊎ Has s xs

contains-others :
    (env : Env) (project : Project) (tasks : List Task) (sub s : Submission)
    (rows : List Submission)
    → Has s rows
    → in_project project.id tasks s ≡ true
    → s.id ≢ sub.id
    → contains (content_fingerprint env s.content project.task_type) (
        map
          (λ (r : Submission). content_fingerprint env r.content project.task_type)
          (select (λ r. in_project project.id tasks r && not (r.id == sub.id)) rows))
      ≡ true
contains-others env project tasks sub s [] h i n = absurd h
contains-others env project tasks sub s (x ∷ xs) h i n =
    ground (arith, contains-others env project tasks sub s xs)

fingerprint_lem :
    (env : Env) (sub s : Submission) (task : Task) (project : Project) (db : Db)
    → find task_ref sub.task_id db.tasks ≡ some task
    → find project_ref task.project_id db.projects ≡ some project
    → Has s db.submissions
    → s.task_id ≡ sub.task_id
    → s.id ≢ sub.id
    → contains
        (content_fingerprint env s.content project.task_type)
        (project_fingerprints env db project.id project.task_type sub.id)
      ≡ true
unfolding project_fingerprints others_in_project in_project
fingerprint_lem env sub s task project db t p h same n =
    let found : find task_ref s.task_id db.tasks ≡ some task =
      ap (λ k. find task_ref k db.tasks) same ∙ t in
    let own = find-id project_ref task.project_id db.projects p in
    contains-others env project db.tasks sub s db.submissions h
      (rw (in_project, found) (ground (arith, own))) n

passed-false :
    (env : Env) (sub : Submission) (project : Project) (db : Db)
    → contains
        (content_fingerprint env sub.content project.task_type)
        (project_fingerprints env db project.id project.task_type sub.id)
      ≡ true
    → passed (findings_of env db sub project) ≡ false
passed-false env sub project db h =
    run_all-passed env sub.content project.task_type
      (project_fingerprints env db project.id project.task_type sub.id)
    ∙ rw h (ground arith)

some_injective : {a b : SubmissionStatus} → some a ≡ some b → a ≡ b
some_injective {a} {b} e = ground arith

refused_lem :
    (env : Env) (db : Db) (sub : Submission) (task : Task) (project : Project) (expert : Expert)
    (rubric : Rubric)
    → passed (findings_of env db sub project) ≡ false
    → gated env db sub task project expert rubric ≡ some auto_check_failed
refused_lem env db sub task project expert rubric h = rw h

-- A submission with the same main text, up to case and punctuation, as one that the project has
-- fails gate 1, also when that is an earlier version of its own author.
pub process-duplicate :
    (env : Env) (sub s : Submission) (task : Task) (project : Project) (db after : Db)
    (r : Submission)
    → find task_ref sub.task_id db.tasks ≡ some task
    → find project_ref task.project_id db.projects ≡ some project
    → Has s db.submissions
    → s.task_id ≡ sub.task_id
    → s.id ≢ sub.id
    → content_fingerprint env s.content project.task_type
      ≡ content_fingerprint env sub.content project.task_type
    → process env sub db ≡ ok (r, after)
    → r.status ≡ auto_check_failed
process-duplicate env sub s task project db after r t p h same n f e =
    let (task', project', expert, rubric, reads, status) = process-gated env sub r db after e in
    let same_task : task' ≡ task = (let found = reads.task_found in cc) in
    let same_project : project' ≡ project = (let found = reads.project_found in cc) in
    some_injective (
      status
      ∙ refused_lem env db sub task' project' expert rubric (
          passed-false env sub project' db (
            subst
              (λ (p' : Project).
                contains (content_fingerprint env sub.content p'.task_type)
                  (project_fingerprints env db p'.id p'.task_type sub.id)
                ≡ true)
              (sym same_project)
              (ap
                  (λ n.
                    contains n (project_fingerprints env db project.id project.task_type sub.id))
                  (sym f)
                ∙ fingerprint_lem env sub s task project db t p h same n))))
