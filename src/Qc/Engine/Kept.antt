-- ===== src/Qc/Engine/Kept.antt =====
-- The operations of src/factory/qc/engine.py keep an invariant.
use human_data.Qc.Engine.{
  process, approve, check_gold, review_automatically, submit, fail_checks, Outcome, settle,
  after_checks, to_revision, gold_of, to_human, auto_approved,
}
use human_data.Qc.Rows.{put_expert, put_task, put_submission, add_review}
use human_data.Config.{Env, CriterionScore}
use human_data.Prelude.{List, refl, Option, String, some, none, ◌≡◌}
use human_data.Model.Entities.{Expert, Task, Submission, Project, Score, Ident, Principal}
use human_data.Store.Keeps.{Keeps, keeps_rules}
use human_data.Store.{Db, Action, new_id, modify}
use human_data.Rubrics.{get_rubric, Rubric}
use human_data.Controls.{assert_qualified, assert_reviewer_independent}
use human_data.Model.Enums.{DomainTrack, Verdict, ReviewKind, pass, revise, fail}
use human_data.Validators.{Finding}
use human_data.Model.Json.{Fields}
use human_data.Billing.Invariant.{Invariant}
use human_data.Billing.Metering.{record_approved_record}
use human_data.Audit.{record_event}
use human_data.Qc.Decision.{settle_human, review_by_human}

module _ (env : Env) (P : Db → Type 0) (inv : Invariant env P) where
  new_id-Keeps : Keeps P new_id
  new_id-Keeps = inv.keeps_new_id

  record_event-Keeps :
      (actor : Principal) (action entity_type : String) (entity_id : Ident) (payload : Fields)
      → Keeps P (record_event env actor action entity_type entity_id payload)
  record_event-Keeps = inv.keeps_record_event

  modify-Keeps :
      (f : Db → Db)
      → ((db : Db) → (f db).audit_events ≡ db.audit_events)
      → ((db : Db) → (f db).usage_events ≡ db.usage_events)
      → ((db : Db) → (f db).rate_cards ≡ db.rate_cards)
      → ((db : Db) → (f db).users ≡ db.users)
      → Keeps P (modify f)
  modify-Keeps = inv.keeps_write

  record_approved_record-Keeps :
      (project : Project) (task : Task) (sub : Submission)
      → Keeps P (record_approved_record env project task sub)
  record_approved_record-Keeps = inv.keeps_metering

  put_submission-Keeps : (s : Submission) → Keeps P (put_submission s)
  unfolding put_submission
  put_submission-Keeps s = modify-Keeps _ (λ db. refl) (λ db. refl) (λ db. refl) (λ db. refl)

  put_task-Keeps : (t : Task) → Keeps P (put_task t)
  unfolding put_task
  put_task-Keeps t = modify-Keeps _ (λ db. refl) (λ db. refl) (λ db. refl) (λ db. refl)

  put_expert-Keeps : (e : Expert) → Keeps P (put_expert e)
  unfolding put_expert
  put_expert-Keeps e = modify-Keeps _ (λ db. refl) (λ db. refl) (λ db. refl) (λ db. refl)

  add_review-Keeps :
      (id : Ident) (kind : ReviewKind) (by : Principal) (verdict : Verdict) (s : Option Score)
      (detail : Fields)
      → Keeps P (add_review id kind by verdict s detail)
  unfolding add_review
  add_review-Keeps id kind by verdict s detail =
      search (keeps_rules, new_id-Keeps, modify-Keeps) depth 24

  ruleset writes = (
    keeps_rules, new_id-Keeps, put_submission-Keeps, put_task-Keeps, put_expert-Keeps,
    add_review-Keeps, record_event-Keeps, record_approved_record-Keeps, modify-Keeps,
  )

  approve-Keeps :
      (project : Project) (task : Task) (author : Expert) (sub : Submission) (s : Score)
      → Keeps P (approve env project task author sub s)
  unfolding approve
  approve-Keeps project task author sub s = search writes depth 24

  settle-Keeps :
      (project : Project) (task : Task) (expert : Expert) (sub : Submission) (s : Score)
      (o : Outcome)
      → Keeps P (settle env project task expert sub s o)
  settle-Keeps project task expert sub s to_revision = search writes depth 24
  settle-Keeps project task expert sub s to_human = search writes depth 24
  settle-Keeps project task expert sub s auto_approved = approve-Keeps project task expert sub s

  review_automatically-Keeps :
      (rubric : Rubric) (task : Task) (project : Project) (expert : Expert) (sub : Submission)
      (findings : List Finding)
      → Keeps P (review_automatically env rubric task project expert sub findings)
  unfolding review_automatically
  review_automatically-Keeps rubric task project expert sub findings =
      search (writes, settle-Keeps) depth 24

  check_gold-Keeps :
      (task : Task) (project : Project) (expert : Expert) (sub : Submission) (answer : Fields)
      → Keeps P (check_gold env task project expert sub answer)
  unfolding check_gold
  check_gold-Keeps task project expert sub answer = search writes depth 24

  fail_checks-Keeps :
      (sub : Submission) (findings : List Finding) → Keeps P (fail_checks env sub findings)
  unfolding fail_checks
  fail_checks-Keeps sub findings = search writes depth 24

  after_gold-Keeps :
      (gold : Option Fields) (m : Fields → Action Submission) (n : Action Submission)
      → ((answer : Fields) → Keeps P (m answer))
      → Keeps P n
      → Keeps P (elim gold [ some answer ↦ m answer | none ↦ n ])
  after_gold-Keeps none m n km kn = kn
  after_gold-Keeps (some answer) m n km kn = km answer

  after_checks-Keeps :
      (rubric : Rubric) (task : Task) (project : Project) (expert : Expert) (sub : Submission)
      (findings : List Finding)
      → Keeps P (after_checks env rubric task project expert sub findings)
  after_checks-Keeps rubric task project expert sub findings =
      after_gold-Keeps (gold_of task) (check_gold env task project expert sub)
        (review_automatically env rubric task project expert sub findings)
        (check_gold-Keeps task project expert sub)
        (review_automatically-Keeps rubric task project expert sub findings)

  get_rubric-Keeps : (id : String) → Keeps P (get_rubric id)
  unfolding get_rubric
  get_rubric-Keeps id = search keeps_rules

  -- Gates 1 to 3 keep the invariant.
  pub process-Keeps : (sub : Submission) → Keeps P (process env sub)
  unfolding process
  process-Keeps sub =
      search (writes, get_rubric-Keeps, after_checks-Keeps, fail_checks-Keeps) depth 30

  assert_qualified-Keeps :
      (expert : Expert) (track : DomainTrack) → Keeps P (assert_qualified expert track)
  unfolding assert_qualified
  assert_qualified-Keeps expert track = search keeps_rules depth 24

  assert_reviewer_independent-Keeps :
      (sub : Submission) (reviewer : Expert) → Keeps P (assert_reviewer_independent sub reviewer)
  unfolding assert_reviewer_independent
  assert_reviewer_independent-Keeps sub reviewer = search keeps_rules depth 24

  -- A submission keeps the invariant.
  pub submit-Keeps :
      (task : Task) (expert : Expert) (content : Fields) → Keeps P (submit env task expert content)
  unfolding submit
  submit-Keeps task expert content = search (writes, assert_qualified-Keeps, process-Keeps) depth 30

  settle_human-Keeps :
      (project : Project) (task : Task) (author : Expert) (sub : Submission) (s : Option Score)
      (v : Verdict)
      → Keeps P (settle_human env project task author sub s v)
  settle_human-Keeps project task author sub s pass = search (writes, approve-Keeps) depth 24
  settle_human-Keeps project task author sub s revise = put_submission-Keeps _
  settle_human-Keeps project task author sub s fail = search writes depth 24

  -- A human review keeps the invariant.
  pub review_by_human-Keeps :
      (sub : Submission) (reviewer : Expert) (verdict : Verdict) (rows : List CriterionScore)
      (comments : String)
      → Keeps P (review_by_human env sub reviewer verdict rows comments)
  unfolding review_by_human
  review_by_human-Keeps sub reviewer verdict rows comments =
      search (writes, get_rubric-Keeps, assert_reviewer_independent-Keeps, settle_human-Keeps) depth
        30
