-- ===== src/Qc/Engine.antt =====
-- src/factory/qc/engine.py: the pipeline. A function that changes a row takes the row as the store
-- holds it and writes the changed one back.
pub mod Routing
pub mod Kept
pub mod Gate1
pub mod Branches
pub mod Settled
pub mod Stored
use human_data.Qc.Rows.{
  add_review, expert_ref, get_expert, get_project, get_task, others_in_project,
  project_fingerprints, project_ref, put_expert, put_submission, put_task, review_detail,
  submission_ref, task_ref, validation_detail,
}
use human_data.Model.Entities.{
  ident, validators_v1, qc_engine, auto_qc_heuristic_v1, Submission, Project, Expert, Task, Ident,
  Principal, Score, Review, auto_qc_claude,
}
use human_data.Model.Enums.{
  pass, fail, revise, completed, approved, rejected, auto_check_failed, auto_qc_pending,
  human_review, needs_revision, deterministic, auto_llm, human, gold_check, ReviewKind, TaskType,
  Verdict, expert_status_value, SubmissionStatus, is_human_review, submitted,
}
use human_data.Prelude.{
  Bool, List, select, true, if◌then◌else◌, ℕ, ◌&&◌, none, Option, false, map, not, ◌==◌, some, ◌||◌,
  ◌++◌, ltb, length, ◌∷◌, [], ◌+◌, String, newest,
}
use human_data.Config.{Env, Settings, CriterionScore}
use human_data.Qc.AutoReviewer.{AutoReview, has_critical, review, weighted_overall, flag_value}
use human_data.Store.{
  Db, Action, find, modify, ◌>>◌, ◌>>=◌, put, gets, or_raise, attribute_error, new_id, pure,
  raise_if, other_expert, not_in_human_review,
}
use human_data.Model.Json.{
  Fields, field, text, bool, obj, end, nat, arr, texts, Items, Json, nil, null, cons, real,
}
use human_data.Validators.{Finding, passed, code_value, errors, Severity, error, warning}
use human_data.Controls.Gold.{gold_answer_matches}
use human_data.Controls.{
  register_gold_result, assert_qualified, update_quality_score, is_sampled_for_human_review,
  assert_reviewer_independent,
}
use human_data.Audit.{record_event}
use human_data.Validators.Run.{content_fingerprint, run_all}
use human_data.Rubrics.{Rubric, get_rubric}
use human_data.Billing.Metering.{record_approved_record}
use human_data.Prelude.Int.{pos}

abbrev verdict_of : Bool → Verdict
verdict_of b = if b then pass else fail

abbrev error_code : Finding → String
error_code f = code_value f.code

abbrev pub record_checks_failed : Env → Submission → List Finding → Action Unit
record_checks_failed env sub findings =
    record_event env qc_engine "submission.auto_check_failed" "submission" sub.id
      (field "errors" (arr (texts (map error_code (errors findings)))) end)

-- what is written where gate 1 fails
unfoldable pub fail_checks : Env → Submission → List Finding → Action Submission
unfolding put_submission
fail_checks env sub findings = do
  let failed = record sub { status = auto_check_failed }
  put_submission failed
  record_checks_failed env sub findings
  pure failed

abbrev pub record_gold_checked : Env → Submission → Bool → Expert → Action Unit
record_gold_checked env sub ok_answer scored =
    record_event env qc_engine "submission.gold_checked" "submission" sub.id (
      field "passed" (bool ok_answer) (
        field "expert_score" (nat scored.quality_score)
          (field "expert_status" (text (expert_status_value scored.status)) end)))

abbrev pub add_gold_review : Submission → Bool → Action Review
add_gold_review sub ok_answer =
    add_review sub.id gold_check qc_engine (verdict_of ok_answer) none
      (field "gold" (bool true) end)

-- gate 2
unfoldable pub check_gold : Env → Task → Project → Expert → Submission → Fields → Action Submission
unfolding put_submission put_task put_expert add_review
check_gold env task project expert sub gold_answer = do
  ok_answer ←
      or_raise (gold_answer_matches env sub.content gold_answer project.task_type) attribute_error
  let scored = register_gold_result env expert ok_answer
  put_expert scored
  add_gold_review sub ok_answer
  let checked = record sub { status = if ok_answer then approved else rejected }
  put_submission checked
  put_task (record task { status = completed })
  record_gold_checked env sub ok_answer scored
  pure checked

-- Where gate 3 sends a submission.
pub data Outcome : Type 0 where
  to_revision to_human auto_approved : Outcome

abbrev pub is_offline : Principal → Bool
is_offline auto_qc_heuristic_v1 = true
is_offline _ = false

-- the tests at the end of gate 3
unfoldable pub route : Settings → AutoReview → Bool → Outcome
route settings result sampled =
    if has_critical result.flags || ltb result.overall_score settings.qc_gray_threshold
    then to_revision
    else (if is_offline result.reviewer_id || sampled || not result.passed
        then to_human
        else auto_approved)

-- What an approval writes: the task is completed, the author is credited and scored, and the
-- record is metered.
unfoldable pub approve : Env → Project → Task → Expert → Submission → Score → Action Submission
unfolding put_task put_expert put_submission
approve env project task author sub score = do
  let done = record sub { status = approved }
  put_submission done
  put_task (record task { status = completed })
  put_expert (
      update_quality_score env (record author { approved_count = author.approved_count + 1 }) score)
  record_approved_record env project task done
  pure done

abbrev pub outcome_status : Outcome → SubmissionStatus
outcome_status to_revision = needs_revision
outcome_status to_human = human_review
outcome_status auto_approved = approved

-- `f"submission.{outcome}"`
abbrev outcome_action : Outcome → String
outcome_action to_revision = "submission.needs_revision"
outcome_action to_human = "submission.human_review"
outcome_action auto_approved = "submission.auto_approved"

-- a status that is set
abbrev pub put_status : Submission → SubmissionStatus → Action Submission
put_status sub status = do
  let changed = record sub { status = status }
  put_submission changed
  pure changed

-- the branch that gate 3 takes
abbrev pub settle : Env → Project → Task → Expert → Submission → Score → Outcome → Action Submission
settle env project task expert sub score to_revision = put_status sub needs_revision
settle env project task expert sub score to_human = put_status sub human_review
settle env project task expert sub score auto_approved = approve env project task expert sub score

-- the review row of gate 3
abbrev pub add_auto_review : Env → Submission → AutoReview → Action Review
add_auto_review env sub result =
    add_review sub.id auto_llm result.reviewer_id (if result.passed then pass else revise)
      (some result.overall_score) (review_detail env result)

abbrev pub record_outcome : Env → Submission → AutoReview → Bool → Outcome → Action Unit
record_outcome env sub result sampled outcome =
    record_event env result.reviewer_id (outcome_action outcome) "submission" sub.id (
      field "score" (nat result.overall_score) (
        field "flags" (arr (texts (map flag_value result.flags)))
          (field "sampled" (bool sampled) end)))

-- the submission once the draw is known
abbrev pub marked : Submission → Bool → Submission
marked sub sampled = record sub { status = auto_qc_pending; sampled_for_human_review = sampled }

-- gate 3
unfoldable pub review_automatically :
    Env → Rubric → Task → Project → Expert → Submission → List Finding → Action Submission
unfolding put_submission approve add_review
review_automatically env rubric task project expert sub findings = do
  let result = review env task project sub.content rubric findings
  add_auto_review env sub result
  let sampled = is_sampled_for_human_review env sub.id expert
  let outcome = route env.settings result sampled
  settled ← settle env project task expert (marked sub sampled) result.overall_score outcome
  record_outcome env sub result sampled outcome
  pure settled

-- `task.is_gold and task.gold_answer`: an empty answer counts as none
abbrev pub gold_of : Task → Option Fields
gold_of task = elim task.gold_answer [
  | none ↦ none
  | some end ↦ none
  | some (field k v d) ↦ if task.is_gold then some (field k v d) else none
]

-- gates 2 and 3
abbrev pub after_checks :
    Env → Rubric → Task → Project → Expert → Submission → List Finding → Action Submission
after_checks env rubric task project expert sub findings = elim (gold_of task) [
  | some answer ↦ check_gold env task project expert sub answer
  | none ↦ review_automatically env rubric task project expert sub findings
]

-- gate 1's review row, and the three gates
unfoldable pub gates :
    Env → Rubric → Task → Project → Expert → Submission → List Finding → Action Submission
unfolding fail_checks check_gold review_automatically add_review
gates env rubric task project expert sub findings = do
  add_review sub.id deterministic validators_v1 (if passed findings then pass else fail) none
      (validation_detail findings)
  if passed findings
      then after_checks env rubric task project expert sub findings
      else fail_checks env sub findings

unfoldable pub process : Env → Submission → Action Submission
unfolding gates
process env sub = do
  task ← get_task sub.task_id
  project ← get_project task.project_id
  expert ← get_expert sub.expert_id
  rubric ← get_rubric project.rubric_id
  fingerprints ← gets (λ db. project_fingerprints env db project.id project.task_type sub.id)
  gates env rubric task project expert sub (run_all env sub.content project.task_type fingerprints)

abbrev is_prior : Ident → Ident → Submission → Bool
is_prior task_id expert_id s = s.task_id == task_id && s.expert_id == expert_id

abbrev next_version : Option Submission → ℕ
next_version none = 1
next_version (some prior) = prior.version + 1

abbrev assigned_elsewhere : Task → Expert → Bool
assigned_elsewhere task expert = elim task.assigned_to [
  | none ↦ false
  | some id ↦ not (id == expert.id)
]

unfoldable pub submit : Env → Task → Expert → Fields → Action Submission
unfolding process
submit env task expert content = do
  project ← get_project task.project_id
  assert_qualified expert project.track
  raise_if (assigned_elsewhere task expert) other_expert
  prior ← gets (λ db. newest (λ s. s.version) (select (is_prior task.id expert.id) db.submissions))
  id ← new_id
  now ← gets (λ db. db.clock)
  let sub : Submission = record {
    id = id;
    task_id = task.id;
    expert_id = expert.id;
    version = next_version prior;
    content = content;
    status = submitted;
    sampled_for_human_review = false;
    created_at = now;
    updated_at = now;
  }
  modify (λ db. record db { submissions = db.submissions ++ sub ∷ [] })
  record_event env (ident expert.id) "submission.created" "submission" sub.id
      (field "task_id" (nat task.id) (field "version" (nat sub.version) end))
  process env sub
