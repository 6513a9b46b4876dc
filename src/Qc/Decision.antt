-- ===== src/Qc/Decision.antt =====
-- `human_review` of src/factory/qc/engine.py: the decision of a human on a submission.
pub mod Reviewers
use human_data.Qc.Engine.{approve}
use human_data.Qc.Rows.{put_submission, put_expert, add_review, get_task, get_project, get_expert}
use human_data.Config.{Env, CriterionScore}
use human_data.Model.Enums.{
  Verdict, pass, fail, revise, needs_revision, rejected, is_human_review, human,
}
use human_data.Prelude.{
  Option, String, List, some, none, ◌∷◌, [], not, ℕ, ◌-◌, if◌then◌else◌, ◌==◌, take_text,
}
use human_data.Rubrics.{Rubric, get_rubric}
use human_data.Model.Entities.{Score, Project, Task, Expert, Submission, Review, ident}
use human_data.Store.{Action, ◌>>◌, raise_if, not_in_human_review, ◌>>=◌, pure}
use human_data.Qc.AutoReviewer.{weighted_overall}
use human_data.Controls.{update_quality_score, assert_reviewer_independent}
use human_data.Model.Json.{field, text, end, Items, Json, arr, nil, null, nat, cons, obj}
use human_data.Audit.{record_event}

-- `_weighted_overall`, if scores were given; a score is taken as a number, which the API does not
-- check
abbrev overall_of : Env → Rubric → List CriterionScore → Option Score
overall_of env rubric [] = none
overall_of env rubric (row ∷ rows) = some (weighted_overall env rubric (row ∷ rows))

abbrev or_score : Option Score → Score → Score
or_score none s = s
or_score (some overall) s = overall

-- `f"submission.human_{verdict}"`
abbrev human_action : Verdict → String
human_action pass = "submission.human_pass"
human_action fail = "submission.human_fail"
human_action revise = "submission.human_revise"

abbrev pub settle_human :
    Env → Project → Task → Expert → Submission → Option Score → Verdict → Action Unit
settle_human env project task author sub overall pass = do
  approve env project task author sub (or_score overall 40000)
  pure tt
settle_human env project task author sub overall revise =
    put_submission (record sub { status = needs_revision })
settle_human env project task author sub overall fail = do
  put_submission (record sub { status = rejected })
  put_expert (update_quality_score env author (or_score overall 10000))

abbrev rows_json : List CriterionScore → Items
rows_json [] = nil
rows_json (row ∷ rows) =
    cons (obj (field "criterion" (text row.criterion) (field "score" (nat row.score) end)))
      (rows_json rows)

abbrev score_json : Option Score → Json
score_json none = null
score_json (some s) = nat s

-- `human_review`; the API lets only the three verdicts through
unfoldable pub review_by_human :
    Env → Submission → Expert → Verdict → List CriterionScore → String → Action Review
unfolding approve put_submission put_expert add_review
review_by_human env sub reviewer verdict criterion_scores comments = do
  raise_if (not (is_human_review sub.status)) not_in_human_review
  assert_reviewer_independent sub reviewer
  task ← get_task sub.task_id
  project ← get_project task.project_id
  rubric ← get_rubric project.rubric_id
  author ← get_expert sub.expert_id
  let overall = overall_of env rubric criterion_scores
  rev ← add_review sub.id human (ident reviewer.id) verdict overall (
      field "criterion_scores" (arr (rows_json criterion_scores))
        (field "comments" (text comments) end))
  settle_human env project task author sub overall verdict
  record_event env (ident reviewer.id) (human_action verdict) "submission" sub.id (
      field "overall_score" (score_json overall)
        (field "comments" (text (take_text 500 comments)) end))
  pure rev
