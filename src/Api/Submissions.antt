-- ===== src/Api/Submissions.antt =====
-- The submissions and reviews in src/factory/api/main.py.
pub mod Themselves
use human_data.Model.Entities.{Review, Submission, Ident, Moment, Principal, Score}
use human_data.Config.{Env, CriterionScore}
use human_data.Model.Enums.{
  Role, Verdict, ReviewKind, SubmissionStatus, role_eq, expert, is_human_review, reviewer,
}
use human_data.Store.{Db, Action, ◌>>◌, ◌>>=◌, raise_if, gets, http, pure}
use human_data.Prelude.{
  ℕ, map, Bool, order_by, List, select, Option, ◌&&◌, not, String, ◌==◌, opt_eq, some,
}
use human_data.Auth.{Actor, Credentials, require_roles}
use human_data.Model.Json.{Fields}
use human_data.Api.{
  submit_roles, review_roles, get_or_404, get_expert_or_404, catching, pipeline_response,
}
use human_data.Qc.Engine.{submit}
use human_data.Qc.Rows.{task_ref, submission_ref}
use human_data.Qc.Decision.{review_by_human}

pub record SubmissionIn : Type 0 where
  pub expert_id : Ident
  pub content : Fields

pub record HumanReviewIn : Type 0 where
  pub reviewer_id : Ident
  pub verdict : Verdict
  pub criterion_scores : List CriterionScore
  pub comments : String

-- one of the `reviews` of a submission
pub record ReviewOut : Type 0 where
  pub id : Ident
  pub kind : ReviewKind
  pub reviewer_id : Principal
  pub verdict : Verdict
  pub overall_score : Option Score
  pub detail : Fields

pub record SubmissionOut : Type 0 where
  pub id : Ident
  pub task_id : Ident
  pub expert_id : Ident
  pub version : ℕ
  pub status : SubmissionStatus
  pub sampled_for_human_review : Bool
  pub reviews : List ReviewOut

pub record QueueOut : Type 0 where
  pub submission_id : Ident
  pub task_id : Ident
  pub sampled : Bool
  pub created_at : Moment

abbrev pub review_out : Review → ReviewOut
review_out r = record {
  id = r.id;
  kind = r.kind;
  reviewer_id = r.reviewer_id;
  verdict = r.verdict;
  overall_score = r.overall_score;
  detail = r.detail;
}

-- `_submission_out`
abbrev pub submission_out : Db → Submission → SubmissionOut
submission_out db sub = record {
  id = sub.id;
  task_id = sub.task_id;
  expert_id = sub.expert_id;
  version = sub.version;
  status = sub.status;
  sampled_for_human_review = sub.sampled_for_human_review;
  reviews = map review_out (
      order_by (λ (r : Review). r.created_at)
        (select (λ (r : Review). r.submission_id == sub.id) db.reviews));
}

-- an EXPERT, or a REVIEWER, acts for themselves alone
abbrev pub is_other : Role → Ident → Actor → Bool
is_other role id actor = role_eq actor.role role && not (opt_eq (some id) actor.expert_id)

unfoldable pub create_submission : Env → Credentials → Ident → SubmissionIn → Action SubmissionOut
create_submission env credentials task_id body = do
  actor ← require_roles env credentials submit_roles
  raise_if (is_other expert body.expert_id actor) (http 403)
  t ← get_or_404 task_ref (λ db. db.tasks) task_id
  ex ← get_expert_or_404 body.expert_id
  sub ← catching pipeline_response (submit env t ex body.content)
  gets (λ db. submission_out db sub)

unfoldable pub get_submission : Env → Credentials → Ident → Action SubmissionOut
get_submission env credentials submission_id = do
  require_roles env credentials review_roles
  sub ← get_or_404 submission_ref (λ db. db.submissions) submission_id
  gets (λ db. submission_out db sub)

-- `submission_status` of the response is the row's as the review leaves it
unfoldable pub post_human_review :
    Env → Credentials → Ident → HumanReviewIn → Action (Ident × (Verdict × SubmissionStatus))
post_human_review env credentials submission_id body = do
  actor ← require_roles env credentials review_roles
  raise_if (is_other reviewer body.reviewer_id actor) (http 403)
  sub ← get_or_404 submission_ref (λ db. db.submissions) submission_id
  examiner ← get_expert_or_404 body.reviewer_id
  rev ←
      catching pipeline_response
        (review_by_human env sub examiner body.verdict body.criterion_scores body.comments)
  after ← get_or_404 submission_ref (λ db. db.submissions) submission_id
  pure (rev.id, (rev.verdict, after.status))

abbrev pub queue_out : Submission → QueueOut
queue_out s = record {
  submission_id = s.id;
  task_id = s.task_id;
  sampled = s.sampled_for_human_review;
  created_at = s.created_at;
}

unfoldable pub review_queue : Env → Credentials → Action (List QueueOut)
review_queue env credentials = do
  require_roles env credentials review_roles
  rows ← gets (λ db.
      order_by (λ (s : Submission). s.created_at)
        (select (λ (s : Submission). is_human_review s.status) db.submissions))
  pure (map queue_out rows)
