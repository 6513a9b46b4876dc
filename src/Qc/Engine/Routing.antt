-- ===== src/Qc/Engine/Routing.antt =====
-- Where `process` of src/factory/qc/engine.py sends a submission.
use human_data.Store.{Db, find, attribute_error, unknown_rubric, ok, pure}
use human_data.Prelude.{
  Bool, if◌then◌else◌, List, ◌≡◌, refl, some, none, Option, ◌∙◌, sym, true, false, arith, ◌≤◌,
  String, subst, ap,
}
use human_data.Config.{Env, Settings, CriterionScore, Flag, reply}
use human_data.Model.Enums.{
  SubmissionStatus, approved, rejected, auto_check_failed, deterministic, pass, fail,
}
use human_data.Qc.Engine.{
  review_automatically, fail_checks, process, check_gold, Outcome, gold_of, route, outcome_status,
  after_checks, auto_approved, is_offline, gates, approve, settle, to_revision, to_human,
  add_auto_review, marked, record_outcome,
}
use human_data.Qc.Rows.{
  add_review, task_ref, project_fingerprints, project_ref, expert_ref, validation_detail,
}
use human_data.Model.Entities.{Submission, Task, Project, Expert, validators_v1, Score}
use human_data.Store.Ensures.{
  Ensures, Ensures-then, Ensures-found, Ensures-pure, Ensures-if, Ensures-mono, Ensures-ok,
  Ensures-bind,
}
use human_data.Rubrics.{Rubric, lookup, rubrics, get_rubric}
use human_data.Validators.{Finding, passed}
use human_data.Model.Json.{Fields}
use human_data.Validators.Run.{run_all}
use human_data.Controls.Gold.{gold_answer_matches}
use human_data.Qc.AutoReviewer.{review, AutoReview, has_critical}
use human_data.Controls.{is_sampled_for_human_review}
use human_data.Qc.AutoReviewer.Verdicts.{request_of, Passes, review-passed}

-- the rows that `process` reads
pub record Read (db : Db) (sub : Submission) (task : Task) (project : Project) (expert : Expert)
    (rubric : Rubric) : Type 0 where
  pub task_found : find task_ref sub.task_id db.tasks ≡ some task
  pub project_found : find project_ref task.project_id db.projects ≡ some project
  pub expert_found : find expert_ref sub.expert_id db.experts ≡ some expert
  pub rubric_found : lookup project.rubric_id rubrics ≡ some rubric

abbrev pub findings_of : Env → Db → Submission → Project → List Finding
findings_of env db sub project =
    run_all env sub.content project.task_type
      (project_fingerprints env db project.id project.task_type sub.id)

-- the outcome of gate 3
abbrev pub routed : Env → Db → Submission → Task → Project → Expert → Rubric → Outcome
routed env db sub task project expert rubric =
    route env.settings (review env task project sub.content rubric (findings_of env db sub project))
      (is_sampled_for_human_review env sub.id expert)

abbrev pub gold_status : Bool → SubmissionStatus
gold_status matches = if matches then approved else rejected

abbrev pub with_gold : Option Bool → Option SubmissionStatus
with_gold none = none
with_gold (some matches) = some (gold_status matches)

-- The status that the three gates give, in their order; `none` where reading the gold answer raises.
abbrev pub gated :
    Env → Db → Submission → Task → Project → Expert → Rubric → Option SubmissionStatus
gated env db sub task project expert rubric =
    if passed (findings_of env db sub project)
    then elim (gold_of task) [
      | some answer ↦ with_gold (gold_answer_matches env sub.content answer project.task_type)
      | none ↦ some (outcome_status (routed env db sub task project expert rubric))
    ]
    else some auto_check_failed

module _ (env : Env) where
  fail_checks_lem :
      (sub : Submission) (findings : List Finding) (db : Db)
      → Ensures (fail_checks env sub findings) db (λ s after. s.status ≡ auto_check_failed)
  unfolding fail_checks
  fail_checks_lem sub findings db = search (Ensures-then, Ensures-pure, refl) depth 16

  check_gold_lem :
      (task : Task) (project : Project) (expert : Expert) (sub : Submission) (answer : Fields)
      (db : Db)
      → Ensures (check_gold env task project expert sub answer) db (λ s after.
        some s.status ≡ with_gold (gold_answer_matches env sub.content answer project.task_type))
  unfolding check_gold
  check_gold_lem task project expert sub answer db =
      Ensures-found (gold_answer_matches env sub.content answer project.task_type) attribute_error _
        λ matches found. search (Ensures-then, Ensures-pure, ap with_gold (sym found)) depth 16

  settle_lem :
      (project : Project) (task : Task) (expert : Expert) (sub : Submission) (score : Score)
      (o : Outcome) (db : Db)
      → Ensures
          (settle env project task expert sub score o)
          db
          (λ s after. s.status ≡ outcome_status o)
  unfolding approve
  settle_lem project task expert sub score to_revision db =
      search (Ensures-then, Ensures-pure, refl) depth 16
  settle_lem project task expert sub score to_human db =
      search (Ensures-then, Ensures-pure, refl) depth 16
  settle_lem project task expert sub score auto_approved db =
      search (Ensures-then, Ensures-pure, refl) depth 16

  review_automatically_lem :
      (rubric : Rubric) (task : Task) (project : Project) (expert : Expert) (sub : Submission)
      (findings : List Finding) (db : Db)
      → Ensures (review_automatically env rubric task project expert sub findings) db (λ s after.
        s.status
        ≡ outcome_status (
            route env.settings
              (review env task project sub.content rubric findings)
              (is_sampled_for_human_review env sub.id expert)))
  unfolding review_automatically
  review_automatically_lem rubric task project expert sub findings db =
      let result = review env task project sub.content rubric findings in
      let sampled = is_sampled_for_human_review env sub.id expert in
      let outcome = route env.settings result sampled in
      Ensures-then (add_auto_review env sub result) _ λ rev d.
        Ensures-bind (λ s d. s.status ≡ outcome_status outcome)
          (settle_lem project task expert (marked sub sampled) result.overall_score outcome d)
          (λ s d same.
            Ensures-then (record_outcome env sub result sampled outcome) (λ u. pure s)
              (λ u d. Ensures-pure same))

  after_checks_lem :
      (task : Task) (project : Project) (expert : Expert) (rubric : Rubric) (sub : Submission)
      (findings : List Finding) (answer : Option Fields) (db : Db)
      → Ensures
          (elim answer [
            | some a ↦ check_gold env task project expert sub a
            | none ↦ review_automatically env rubric task project expert sub findings
          ])
          db
          (λ s after. some s.status ≡ elim answer [
            | some a ↦ with_gold (gold_answer_matches env sub.content a project.task_type)
            | none ↦ some (
                outcome_status (
                  route env.settings
                    (review env task project sub.content rubric findings)
                    (is_sampled_for_human_review env sub.id expert)))
          ])
  after_checks_lem task project expert rubric sub findings (some a) db =
      check_gold_lem task project expert sub a db
  after_checks_lem task project expert rubric sub findings none db =
      Ensures-mono _ (review_automatically_lem rubric task project expert sub findings db)
        (λ s after e. ap some e)

  gates_lem :
      (task : Task) (project : Project) (expert : Expert) (rubric : Rubric) (sub : Submission)
      (before db : Db)
      → Ensures
          (gates env rubric task project expert sub (findings_of env before sub project))
          db
          (λ s after. some s.status ≡ gated env before sub task project expert rubric)
  unfolding gates
  gates_lem task project expert rubric sub before db =
      let findings = findings_of env before sub project in
      Ensures-then
        (add_review sub.id deterministic validators_v1 (if passed findings then pass else fail) none
          (validation_detail findings))
        (λ _.
          if passed findings
          then after_checks env rubric task project expert sub findings
          else fail_checks env sub findings)
        λ _ d.
          Ensures-if (passed findings) (after_checks env rubric task project expert sub findings)
            (fail_checks env sub findings)
            (λ h.
              Ensures-mono _
                (after_checks_lem task project expert rubric sub findings (gold_of task) d)
                (λ s after e. e ∙ sym (rw h)))
            (λ h.
              Ensures-mono _ (fail_checks_lem sub findings d) (λ s after e. ap some e ∙ sym (rw h)))

  -- what `process` reads and the status that the gates give
  abbrev pub Processed : Db → Submission → Submission → Type 0
  Processed db sub s =
      (task : Task) × (project : Project) × (expert : Expert) × (rubric : Rubric) × Read db sub task
        project expert rubric
      × (some s.status ≡ gated env db sub task project expert rubric)

  process_lem :
      (sub : Submission) (db : Db) → Ensures (process env sub) db (λ s after. Processed db sub s)
  unfolding process get_rubric
  process_lem sub db = record {
    at =
        (Ensures-found (find task_ref sub.task_id db.tasks) attribute_error _ λ task t. record {
          at =
              (Ensures-found (find project_ref task.project_id db.projects) attribute_error _
                λ project p. record {
                  at =
                      (Ensures-found (find expert_ref sub.expert_id db.experts) attribute_error _
                        λ expert x.
                          Ensures-found (lookup project.rubric_id rubrics) unknown_rubric _
                            λ rubric r. record {
                              at =
                                  (Ensures-mono _ (gates_lem task project expert rubric sub db db)
                                    λ s after e. (
                                      task,
                                      project,
                                      expert,
                                      rubric,
                                      record {
                                        task_found = t;
                                        project_found = p;
                                        expert_found = x;
                                        rubric_found = r;
                                      },
                                      e,
                                    )).at;
                            }).at;
                }).at;
        }).at;
  }

-- A submission that is processed gets the status that the three gates give in their order: the
-- deterministic checks, then the gold answer if its task has one, then the reviewer and the sampling.
pub process-gated :
    (env : Env) (sub s : Submission) (db after : Db)
    → process env sub db ≡ ok (s, after)
    → Processed env db sub s
process-gated env sub s db after e = Ensures-ok (process_lem env sub db) e

route_approved :
    (settings : Settings) (result : AutoReview) (sampled : Bool)
    → route settings result sampled ≡ auto_approved
    → (has_critical result.flags ≡ false)
      × (settings.qc_gray_threshold ≤ result.overall_score)
      × (is_offline result.reviewer_id ≡ false)
      × (sampled ≡ false)
      × (result.passed ≡ true)
unfolding route
route_approved settings result sampled h = ground arith

outcome_approved : (o : Outcome) → outcome_status o ≡ approved → o ≡ auto_approved
outcome_approved o h = ground arith

-- what an approval without a human rests on
pub record Earned (env : Env) (db : Db) (sub : Submission) (task : Task) (project : Project)
    (expert : Expert) (rubric : Rubric) : Type 0 where
  pub checks : passed (findings_of env db sub project) ≡ true
  pub not_sampled : is_sampled_for_human_review env sub.id expert ≡ false
  pub rows : List CriterionScore
  pub flags : List Flag
  pub summary : String
  pub online : (env.credential ≡ true) × (env.settings.qc_offline ≡ false)
  pub answered :
      env.claude (request_of task project sub.content) ≡ some (reply rows flags false summary)
  pub good : Passes env rubric rows flags

earned_lem :
    (env : Env) (db : Db) (sub : Submission) (task : Task) (project : Project) (expert : Expert)
    (rubric : Rubric)
    → passed (findings_of env db sub project) ≡ true
    → routed env db sub task project expert rubric ≡ auto_approved
    → Earned env db sub task project expert rubric
earned_lem env db sub task project expert rubric checks outcome =
    let findings = findings_of env db sub project in
    let (clean, gray, online, unsampled, passes) =
      route_approved env.settings (review env task project sub.content rubric findings)
        (is_sampled_for_human_review env sub.id expert) outcome in
    let (rows, flags, summary, credential, offline, answered, good) =
      review-passed env task project sub.content rubric findings passes in
    record {
      checks = checks;
      not_sampled = unsampled;
      rows = rows;
      flags = flags;
      summary = summary;
      online = (credential, offline);
      answered = answered;
      good = good;
    }

gated_lem :
    (env : Env) (db : Db) (sub : Submission) (task : Task) (project : Project) (expert : Expert)
    (rubric : Rubric)
    → gold_of task ≡ none
    → gated env db sub task project expert rubric ≡ some approved
    → (passed (findings_of env db sub project) ≡ true)
      × (routed env db sub task project expert rubric ≡ auto_approved)
gated_lem env db sub task project expert rubric g h =
    ground (arith, outcome_approved (routed env db sub task project expert rubric))

-- A submission that gate 3 approves without a human passed the checks, was not drawn for human
-- review, and rests on an answer of the model: its overall is at the pass threshold, it has no
-- critical flag, its evidence suffices, and no critical criterion is below 3.
pub process-Earned :
    (env : Env) (sub s : Submission) (task : Task) (db after : Db)
    → find task_ref sub.task_id db.tasks ≡ some task
    → gold_of task ≡ none
    → process env sub db ≡ ok (s, after)
    → s.status ≡ approved
    → (project : Project) × (expert : Expert) × (rubric : Rubric) × Read db sub task project expert
        rubric
      × Earned env db sub task project expert rubric
process-Earned env sub s task db after t g e h =
    let (task', project, expert, rubric, reads, same) = process-gated env sub s db after e in
    let same_task : task' ≡ task = (let found = reads.task_found in cc) in
    let (checks, outcome) =
      gated_lem env db sub task' project expert rubric (ap gold_of same_task ∙ g)
        (sym same ∙ ap some h) in
    subst
      (λ (t' : Task).
        (project : Project) × (expert : Expert) × (rubric : Rubric) × Read db sub t' project expert
          rubric
        × Earned env db sub t' project expert rubric)
      same_task
      (
        project,
        expert,
        rubric,
        reads,
        earned_lem env db sub task' project expert rubric checks outcome,
      )
