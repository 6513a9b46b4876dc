-- ===== src/Qc/Rows.antt =====
-- The rows that src/factory/qc/engine.py reads and writes back, the details of its reviews, and the
-- fingerprints of a project.
use human_data.Model.Entities.{
  Submission, Project, Expert, Task, Ident, Principal, Score, Review, auto_qc_claude,
}
use human_data.Model.Enums.{ReviewKind, TaskType, Verdict}
use human_data.Prelude.{
  Bool, List, select, ℕ, ◌&&◌, none, Option, false, map, not, ◌==◌, some, ◌++◌, ◌∷◌, [], String,
}
use human_data.Config.{Env, CriterionScore}
use human_data.Qc.AutoReviewer.{AutoReview, flag_value}
use human_data.Store.{
  Db, Action, find, modify, ◌>>◌, ◌>>=◌, put, gets, or_raise, attribute_error, new_id, pure,
}
use human_data.Model.Json.{
  Fields, field, text, bool, obj, end, arr, texts, Items, Json, nil, null, cons, real,
}
use human_data.Validators.{Finding, passed, code_value, Severity, error, warning}
use human_data.Validators.Run.{content_fingerprint}
use human_data.Prelude.Int.{pos}

abbrev pub task_ref : Task → Ident
task_ref t = t.id

abbrev pub project_ref : Project → Ident
project_ref p = p.id

abbrev pub expert_ref : Expert → Ident
expert_ref e = e.id

abbrev pub submission_ref : Submission → Ident
submission_ref s = s.id

abbrev pub get_task : Ident → Action Task
get_task id = do tasks ← gets (λ db. db.tasks); or_raise (find task_ref id tasks) attribute_error

abbrev pub get_project : Ident → Action Project
get_project id = do
  projects ← gets (λ db. db.projects)
  or_raise (find project_ref id projects) attribute_error

abbrev pub get_expert : Ident → Action Expert
get_expert id = do
  experts ← gets (λ db. db.experts)
  or_raise (find expert_ref id experts) attribute_error

unfoldable pub put_task : Task → Action Unit
put_task task = modify (λ db. record db { tasks = put task_ref task db.tasks })

unfoldable pub put_expert : Expert → Action Unit
put_expert expert = modify (λ db. record db { experts = put expert_ref expert db.experts })

-- `updated_at` has an `onupdate`
unfoldable pub put_submission : Submission → Action Unit
put_submission sub = modify (λ db. record db {
  submissions = put submission_ref (record sub { updated_at = db.clock }) db.submissions;
})

-- `db.add(Review(...))`
unfoldable pub add_review :
    Ident → ReviewKind → Principal → Verdict → Option Score → Fields → Action Review
add_review submission_id kind reviewer_id verdict overall_score detail = do
  id ← new_id
  now ← gets (λ db. db.clock)
  let r : Review = record {
    id = id;
    submission_id = submission_id;
    kind = kind;
    reviewer_id = reviewer_id;
    verdict = verdict;
    overall_score = overall_score;
    detail = detail;
    created_at = now;
  }
  modify (λ db. record db { reviews = db.reviews ++ r ∷ [] })
  pure r

abbrev severity_value : Severity → String
severity_value error = "error"
severity_value warning = "warning"

abbrev finding_items : List Finding → Items
finding_items [] = nil
finding_items (f ∷ fs) =
    cons
      (obj (
        field "code" (text (code_value f.code))
          (field "severity" (text (severity_value f.severity)) end)))
      (finding_items fs)

-- `validation.as_dict()`, without the messages
abbrev pub validation_detail : List Finding → Fields
validation_detail findings =
    field "passed" (bool (passed findings)) (field "findings" (arr (finding_items findings)) end)

abbrev score_items : List CriterionScore → Items
score_items [] = nil
score_items (c ∷ cs) =
    cons (obj (field "criterion" (text c.criterion) (field "score" (real (pos c.score)) end)))
      (score_items cs)

-- `settings.qc_model if self.reviewer_id == AUTO_REVIEWER_ID else None`
abbrev model_json : Env → Principal → Json
model_json env auto_qc_claude = text env.settings.qc_model
model_json env _ = null

-- `AutoReview.as_detail()`, of a row of scores the criterion and the score
abbrev pub review_detail : Env → AutoReview → Fields
review_detail env result = field "criterion_scores" (arr (score_items result.criterion_scores)) (
    field "flags" (arr (texts (map flag_value result.flags))) (
      field "summary" (text result.summary) (
        field "insufficient_evidence" (bool result.insufficient_evidence) (
          field "grader_version" (text result.version)
            (field "model" (model_json env result.reviewer_id) end)))))

unfoldable pub in_project : Ident → List Task → Submission → Bool
in_project project_id tasks s = elim (find task_ref s.task_id tasks) [
  | none ↦ false
  | some t ↦ t.project_id == project_id
]

-- the submissions whose fingerprints count against a new one
unfoldable pub others_in_project : Db → Ident → Ident → List Submission
unfolding in_project
others_in_project db project_id exclude_submission =
    select (λ s. in_project project_id db.tasks s && not (s.id == exclude_submission))
      db.submissions

-- `_project_fingerprints`
unfoldable pub project_fingerprints : Env → Db → Ident → TaskType → Ident → List ℕ
unfolding others_in_project
project_fingerprints env db project_id task_type exclude_submission =
    map (λ (s : Submission). content_fingerprint env s.content task_type)
      (others_in_project db project_id exclude_submission)
