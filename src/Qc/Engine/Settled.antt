-- ===== src/Qc/Engine/Settled.antt =====
-- The status that `process` of src/factory/qc/engine.py stores and returns, by the conditions of the three gates.
use human_data.Qc.Engine.Stored.{HasStatus, process-Agrees}
use human_data.Qc.Engine.{process, route, outcome_status, is_offline, gold_of}
use human_data.Qc.Engine.Routing.{process-gated, findings_of, Read, gated, routed, with_gold}
use human_data.Qc.AutoReviewer.{review, AutoReview, has_critical}
use human_data.Config.{Settings, Env}
use human_data.Store.{Db, find, ok}
use human_data.Model.Entities.{Submission, Task, Expert, Project}
use human_data.Prelude.{
  Bool, arith, ◌≡◌, true, Option, ◌↔◌, ◌⊎◌, some, subst, if◌then◌else◌, false, ◌<◌, ◌≤◌, none,
}
use human_data.Model.Enums.{
  SubmissionStatus, needs_revision, approved, rejected, human_review, auto_check_failed,
}
use human_data.Qc.Rows.{submission_ref}
use human_data.Store.Ensures.{Ensures-ok}
use human_data.Rubrics.{Rubric}
use human_data.Model.Json.{Fields}
use human_data.Validators.{passed}
use human_data.Controls.Gold.{gold_answer_matches}
use human_data.Controls.{is_sampled_for_human_review}

-- what a review and the draw make of a submission
abbrev pub Reviewed : Settings → AutoReview → Bool → SubmissionStatus → Type 0
Reviewed settings result sampled status =
    ((status ≡ needs_revision)
      ↔ ((has_critical result.flags ≡ true) ⊎ (result.overall_score < settings.qc_gray_threshold)))
    × ((status ≡ approved) ↔ (
        (has_critical result.flags ≡ false)
        × (settings.qc_gray_threshold ≤ result.overall_score)
        × (is_offline result.reviewer_id ≡ false)
        × (sampled ≡ false)
        × (result.passed ≡ true)))
    × ((status ≡ needs_revision) ⊎ (status ≡ approved) ⊎ (status ≡ human_review))

-- What the three gates decide, in their order: by whether the checks passed, by the gold answer of the
-- task and whether it matches, and by the review.
abbrev pub DecidedBy :
    Bool
    → Option Fields
    → (Fields → Option Bool)
    → (SubmissionStatus → Type 0)
    → SubmissionStatus
    → Type 0
DecidedBy false answer matches IsReviewed status = status ≡ auto_check_failed
DecidedBy true (some answer) matches IsReviewed status =
    ((matches answer ≡ some true) × (status ≡ approved))
    ⊎ ((matches answer ≡ some false) × (status ≡ rejected))
DecidedBy true none matches IsReviewed status = IsReviewed status

abbrev pub Decided :
    Env → Db → Submission → Task → Project → Expert → Rubric → SubmissionStatus → Type 0
Decided env db sub task project expert rubric =
    DecidedBy (passed (findings_of env db sub project)) (gold_of task)
      (λ answer. gold_answer_matches env sub.content answer project.task_type)
      (Reviewed env.settings
        (review env task project sub.content rubric (findings_of env db sub project))
        (is_sampled_for_human_review env sub.id expert))

Reviewed_lem :
    (settings : Settings) (result : AutoReview) (sampled : Bool)
    → Reviewed settings result sampled (outcome_status (route settings result sampled))
unfolding route
Reviewed_lem settings result sampled = ground arith

gold_lem :
    (matches : Option Bool) (status : SubmissionStatus)
    → some status ≡ with_gold matches
    → ((matches ≡ some true) × (status ≡ approved)) ⊎ ((matches ≡ some false) × (status ≡ rejected))
gold_lem matches status e = ground arith

decided_by_lem :
    (checked : Bool) (gold : Option Fields) (matches : Fields → Option Bool)
    (IsReviewed : SubmissionStatus → Type 0) (reviewed status : SubmissionStatus)
    → IsReviewed reviewed
    → some status ≡ (
        if checked
        then elim gold [ some answer ↦ with_gold (matches answer) | none ↦ some reviewed ]
        else some auto_check_failed)
    → DecidedBy checked gold matches IsReviewed status
decided_by_lem false gold matches IsReviewed reviewed status h e = ground arith
decided_by_lem true (some answer) matches IsReviewed reviewed status h e =
    gold_lem (matches answer) status e
decided_by_lem true none matches IsReviewed reviewed status h e =
    let same : reviewed ≡ status = ground arith in subst IsReviewed same h

decided_lem :
    (env : Env) (db : Db) (sub : Submission) (task : Task) (project : Project) (expert : Expert)
    (rubric : Rubric) (status : SubmissionStatus)
    → some status ≡ gated env db sub task project expert rubric
    → Decided env db sub task project expert rubric status
decided_lem env db sub task project expert rubric status =
    decided_by_lem (passed (findings_of env db sub project)) (gold_of task)
      (λ answer. gold_answer_matches env sub.content answer project.task_type) _
      (outcome_status (routed env db sub task project expert rubric)) status
      (Reviewed_lem env.settings
        (review env task project sub.content rubric (findings_of env db sub project))
        (is_sampled_for_human_review env sub.id expert))

-- A stored submission that is processed gets the status that the gates decide, and that status is
-- stored: failed checks; else, for a gold task, approved exactly if the answer matches, and rejected
-- otherwise; else needs_revision exactly for a critical flag or a score below the gray threshold,
-- approved exactly for none of these where the review passed, was not offline and the draw spared it,
-- and human_review otherwise.
pub process-Settled :
    (env : Env) (sub s row : Submission) (db after : Db)
    → find submission_ref sub.id db.submissions ≡ some row
    → process env sub db ≡ ok (s, after)
    → HasStatus sub.id s.status after.submissions
      × ((task : Task) × (project : Project) × (expert : Expert) × (rubric : Rubric) × Read db sub
            task project expert rubric
          × Decided env db sub task project expert rubric s.status)
process-Settled env sub s row db after there e =
    let (task, project, expert, rubric, reads, same) = process-gated env sub s db after e in
    (
      Ensures-ok (process-Agrees env sub db (row, there)) e,
      (
        task,
        project,
        expert,
        rubric,
        reads,
        decided_lem env db sub task project expert rubric s.status same,
      ),
    )
