-- ===== src/Qc/Engine/Stored.antt =====
-- The status that `process` of src/factory/qc/engine.py returns is the one that it stores.
use human_data.Qc.Engine.{
  process, gates, fail_checks, check_gold, review_automatically, settle, approve, put_status,
  add_auto_review, record_outcome, marked, route, Outcome, gold_of, after_checks, to_revision,
  record_checks_failed, to_human, auto_approved, record_gold_checked, add_gold_review,
}
use human_data.Qc.Engine.Routing.{findings_of}
use human_data.Qc.AutoReviewer.{review}
use human_data.Config.{Env}
use human_data.Store.{
  Db, Action, Result, find, new_id, modify, ◌>>=◌, ok, err, pure, ◌>>◌, attribute_error,
  unknown_rubric,
}
use human_data.Model.Entities.{
  Ident, Submission, Task, Expert, UsageEvent, Project, Principal, Score, validators_v1,
}
use human_data.Prelude.{List, ◌≡◌, Option, String, some, subst, if◌then◌else◌, sym, none, refl, ◌+◌}
use human_data.Model.Enums.{
  SubmissionStatus, needs_revision, ReviewKind, approved, Verdict, rejected, human_review,
  auto_check_failed, deterministic, completed, pass, fail,
}
use human_data.Billing.Metering.{meter, record_approved_record, unless_metered}
use human_data.Store.Keeps.{Keeps, keeps_rules, Holds, Keeps-pure}
use human_data.Qc.Rows.{
  add_review, put_expert, put_task, submission_ref, put_submission, validation_detail, task_ref,
  project_ref, expert_ref,
}
use human_data.Audit.{record_event}
use human_data.Store.Ensures.{Ensures, Post, Ensures-bind, Ensures-pure, Ensures-if, Ensures-found}
use human_data.Rubrics.{Rubric, get_rubric, lookup, rubrics}
use human_data.Model.Json.{Fields}
use human_data.Validators.{passed, Finding}
use human_data.Controls.Gold.{gold_answer_matches}
use human_data.Controls.{is_sampled_for_human_review, update_quality_score, register_gold_result}
use human_data.Store.Rows.{find-put}

-- A table of submissions has one with this id.
abbrev pub IsThere : Ident → List Submission → Type 0
IsThere k rows = (row : Submission) × (find submission_ref k rows ≡ some row)

-- The stored submission with this id has this status.
abbrev pub HasStatus : Ident → SubmissionStatus → List Submission → Type 0
HasStatus k status rows =
    (row : Submission) × (find submission_ref k rows ≡ some row) × (row.status ≡ status)

-- Actions that leave the submissions alone.
module _ (env : Env) (R : List Submission → Type 0) where
  abbrev P : Db → Type 0
  P db = R db.submissions

  write-Left :
      (f : Db → Db) → ((db : Db) → (f db).submissions ≡ db.submissions) → Keeps P (modify f)
  write-Left f same = record { at = λ db h. subst R (sym (same db)) h }

  new_id-Left : Keeps P new_id
  new_id-Left = record { at = λ db h. h }

  record_event-Left :
      (actor : Principal) (action entity_type : String) (entity_id : Ident) (payload : Fields)
      → Keeps P (record_event env actor action entity_type entity_id payload)
  unfolding record_event
  record_event-Left actor action entity_type entity_id payload = record { at = λ db h. h }

  ruleset left = (keeps_rules, new_id-Left, record_event-Left, write-Left)

  add_review-Left :
      (id : Ident) (kind : ReviewKind) (by : Principal) (v : Verdict) (s : Option Score)
      (detail : Fields)
      → Keeps P (add_review id kind by v s detail)
  unfolding add_review
  add_review-Left id kind by v s detail = search left depth 24

  put_expert-Left : (e : Expert) → Keeps P (put_expert e)
  unfolding put_expert
  put_expert-Left e = search left depth 8

  put_task-Left : (t : Task) → Keeps P (put_task t)
  unfolding put_task
  put_task-Left t = search left depth 8

  meter-Left :
      (project : Project) (task : Task) (sub : Submission) → Keeps P (meter env project task sub)
  unfolding meter
  meter-Left project task sub = search left depth 24

  unless_metered-Left :
      (existing : Option UsageEvent) (rest : Action (Option UsageEvent))
      → Keeps P rest
      → Keeps P (unless_metered existing rest)
  unless_metered-Left none rest k = k
  unless_metered-Left (some ev) rest k = Keeps-pure none

  metering-Left :
      (project : Project) (task : Task) (sub : Submission)
      → Keeps P (record_approved_record env project task sub)
  unfolding record_approved_record
  metering-Left project task sub = search (keeps_rules, unless_metered-Left, meter-Left) depth 24

Holds-Post : {A : Type 0} (R : Db → Type 0) (r : Result (A × Db)) → Holds R r → Post (λ a d. R d) r
Holds-Post R (ok (a, d)) h = h
Holds-Post R (err e) h = tt

module _ {A B : Type 0} (R : Db → Type 0) {Q : B → Db → Type 0} where
  -- a step that keeps what is known
  Ensures-kept :
      (m : Action A) (f : A → Action B) {db : Db}
      → Keeps R m
      → R db
      → ((a : A) (d : Db) → R d → Ensures (f a) d Q)
      → Ensures (m >>= f) db Q
  Ensures-kept m f {db} k h rest =
      Ensures-bind (λ a d. R d) (record { at = Holds-Post R (m db) (k.at db h) }) rest

-- the returned status is the stored one
abbrev pub Agrees : Ident → Submission → Db → Type 0
Agrees k s db = HasStatus k s.status db.submissions

put_lem :
    (k : Ident) (sub : Submission) (db : Db)
    → sub.id ≡ k
    → IsThere k db.submissions
    → Ensures (put_submission sub) db (λ u d. HasStatus k sub.status d.submissions)
unfolding put_submission
put_lem k sub db same there = record {
  at = (
    record sub { updated_at = db.clock },
    find-put submission_ref k db.submissions (record sub { updated_at = db.clock }) there.1 same,
    refl,
  );
}

module _ (env : Env) (k : Ident) where
  abbrev There : Db → Type 0
  There db = IsThere k db.submissions

  put_then :
      (sub : Submission) (rest : Action Submission) (db : Db)
      → sub.id ≡ k
      → There db
      → ((d : Db) → HasStatus k sub.status d.submissions → Ensures rest d (Agrees k))
      → Ensures (put_submission sub >> rest) db (Agrees k)
  put_then sub rest db same there h =
      Ensures-bind (λ u d. HasStatus k sub.status d.submissions) (put_lem k sub db same there)
        (λ u d has. h d has)

  put_status-Agrees :
      (sub : Submission) (status : SubmissionStatus) (db : Db)
      → sub.id ≡ k
      → There db
      → Ensures (put_status sub status) db (Agrees k)
  put_status-Agrees sub status db same there =
      put_then (record sub { status = status }) (pure (record sub { status = status })) db same
        there (λ d has. Ensures-pure has)

  -- a last step that leaves the submissions alone
  then_pure :
      {A : Type 0} (m : Action A) (s : Submission) (db : Db)
      → Keeps (P env (HasStatus k s.status)) m
      → HasStatus k s.status db.submissions
      → Ensures (m >> pure s) db (Agrees k)
  then_pure m s db kept has =
      Ensures-kept (P env (HasStatus k s.status)) m (λ _. pure s) kept has
        (λ a d has. Ensures-pure has)

  fail_checks-Agrees :
      (sub : Submission) (findings : List Finding) (db : Db)
      → sub.id ≡ k
      → There db
      → Ensures (fail_checks env sub findings) db (Agrees k)
  unfolding fail_checks
  fail_checks-Agrees sub findings db same there =
      let failed = record sub { status = auto_check_failed } in
      put_then failed (record_checks_failed env sub findings >> pure failed) db same there (λ d has.
        then_pure (record_checks_failed env sub findings) failed d
          (record_event-Left env (HasStatus k auto_check_failed) _ _ _ _ _) has)

  check_gold-Agrees :
      (task : Task) (project : Project) (expert : Expert) (sub : Submission) (answer : Fields)
      (db : Db)
      → sub.id ≡ k
      → There db
      → Ensures (check_gold env task project expert sub answer) db (Agrees k)
  unfolding check_gold
  check_gold-Agrees task project expert sub answer db same there =
      Ensures-found (gold_answer_matches env sub.content answer project.task_type) attribute_error _
        λ ok_answer found.
          let scored = register_gold_result env expert ok_answer in
          let checked = record sub { status = if ok_answer then approved else rejected } in
          let is_so = HasStatus k checked.status in
          let last_steps : Action Submission =
            put_task (record task { status = completed })
            >> (record_gold_checked env sub ok_answer scored >> pure checked) in
          Ensures-kept There (put_expert scored) _ (put_expert-Left env (IsThere k) scored) there
            λ u d there.
              Ensures-kept There (add_gold_review sub ok_answer) _
                (add_review-Left env (IsThere k) _ _ _ _ _ _) there
                λ rev d there. put_then checked last_steps d same there λ d has.
                  Ensures-kept (P env is_so) (put_task (record task { status = completed })) _
                    (put_task-Left env is_so _) has
                    λ u d has.
                      then_pure (record_gold_checked env sub ok_answer scored) checked d
                        (record_event-Left env is_so _ _ _ _ _) has

  approve-Agrees :
      (project : Project) (task : Task) (author : Expert) (sub : Submission) (score : Score)
      (db : Db)
      → sub.id ≡ k
      → There db
      → Ensures (approve env project task author sub score) db (Agrees k)
  unfolding approve
  approve-Agrees project task author sub score db same there =
      let done = record sub { status = approved } in
      let is_so = HasStatus k approved in
      let credited =
        update_quality_score env (record author { approved_count = author.approved_count + 1 })
          score in
      let last_steps : Action Submission =
        put_task (record task { status = completed })
        >> (put_expert credited >> (record_approved_record env project task done >> pure done)) in
      put_then done last_steps db same there λ d has.
        Ensures-kept (P env is_so) (put_task (record task { status = completed })) _
          (put_task-Left env is_so _) has
          λ u d has.
            Ensures-kept (P env is_so) (put_expert credited) _ (put_expert-Left env is_so credited)
              has
              λ u d has.
                then_pure (record_approved_record env project task done) done d
                  (metering-Left env is_so project task done) has

  settle-Agrees :
      (project : Project) (task : Task) (expert : Expert) (sub : Submission) (score : Score)
      (o : Outcome) (db : Db)
      → sub.id ≡ k
      → There db
      → Ensures (settle env project task expert sub score o) db (Agrees k)
  settle-Agrees project task expert sub score to_revision db same there =
      put_status-Agrees sub needs_revision db same there
  settle-Agrees project task expert sub score to_human db same there =
      put_status-Agrees sub human_review db same there
  settle-Agrees project task expert sub score auto_approved db same there =
      approve-Agrees project task expert sub score db same there

  review_automatically-Agrees :
      (rubric : Rubric) (task : Task) (project : Project) (expert : Expert) (sub : Submission)
      (findings : List Finding) (db : Db)
      → sub.id ≡ k
      → There db
      → Ensures (review_automatically env rubric task project expert sub findings) db (Agrees k)
  unfolding review_automatically
  review_automatically-Agrees rubric task project expert sub findings db same there =
      let result = review env task project sub.content rubric findings in
      let sampled = is_sampled_for_human_review env sub.id expert in
      let outcome = route env.settings result sampled in
      Ensures-kept There (add_auto_review env sub result) _
        (add_review-Left env (IsThere k) _ _ _ _ _ _) there
        λ rev d there.
          Ensures-bind (Agrees k)
            (settle-Agrees project task expert (marked sub sampled) result.overall_score outcome d
              same there)
            (λ s d has.
              then_pure (record_outcome env sub result sampled outcome) s d
                (record_event-Left env (HasStatus k s.status) _ _ _ _ _) has)

  after_checks-Agrees :
      (rubric : Rubric) (task : Task) (project : Project) (expert : Expert) (sub : Submission)
      (findings : List Finding) (gold : Option Fields) (db : Db)
      → sub.id ≡ k
      → There db
      → Ensures
          (elim gold [
            | some answer ↦ check_gold env task project expert sub answer
            | none ↦ review_automatically env rubric task project expert sub findings
          ])
          db
          (Agrees k)
  after_checks-Agrees rubric task project expert sub findings (some answer) db same there =
      check_gold-Agrees task project expert sub answer db same there
  after_checks-Agrees rubric task project expert sub findings none db same there =
      review_automatically-Agrees rubric task project expert sub findings db same there

  gates-Agrees :
      (rubric : Rubric) (task : Task) (project : Project) (expert : Expert) (sub : Submission)
      (findings : List Finding) (db : Db)
      → sub.id ≡ k
      → There db
      → Ensures (gates env rubric task project expert sub findings) db (Agrees k)
  unfolding gates
  gates-Agrees rubric task project expert sub findings db same there =
      Ensures-kept There
        (add_review sub.id deterministic validators_v1 (if passed findings then pass else fail) none
          (validation_detail findings))
        (λ _.
          if passed findings
          then after_checks env rubric task project expert sub findings
          else fail_checks env sub findings)
        (add_review-Left env (IsThere k) _ _ _ _ _ _) there
        λ rev d there.
          Ensures-if (passed findings) (after_checks env rubric task project expert sub findings)
            (fail_checks env sub findings)
            (λ h.
              after_checks-Agrees rubric task project expert sub findings (gold_of task) d same
                there)
            (λ h. fail_checks-Agrees sub findings d same there)

pub process-Agrees :
    (env : Env) (sub : Submission) (db : Db)
    → IsThere sub.id db.submissions
    → Ensures (process env sub) db (Agrees sub.id)
unfolding process get_rubric
process-Agrees env sub db there = record {
  at =
      (Ensures-found (find task_ref sub.task_id db.tasks) attribute_error _ λ task t. record {
        at =
            (Ensures-found (find project_ref task.project_id db.projects) attribute_error _
              λ project p. record {
                at =
                    (Ensures-found (find expert_ref sub.expert_id db.experts) attribute_error _
                      λ expert x.
                        Ensures-found (lookup project.rubric_id rubrics) unknown_rubric _
                          λ rubric r. record {
                            at =
                                (gates-Agrees env sub.id rubric task project expert sub
                                  (findings_of env db sub project) db refl there).at;
                          }).at;
              }).at;
      }).at;
}
