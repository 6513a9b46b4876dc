-- ===== src/Qc/Engine/Branches.antt =====
-- What single answers of the reviewer lead to, in gate 3 of src/factory/qc/engine.py.
use human_data.Prelude.{
  Bool, if◌then◌else◌, List, ◌≡◌, some, ◌∙◌, true, false, arith, ◌≤◌, String, ap, ltb, length, not,
}
use human_data.Config.{Env, CriterionScore, Flag, reply, refusal, ClaudeReply}
use human_data.Qc.Engine.{route, to_revision, to_human}
use human_data.Model.Entities.{Task, Project}
use human_data.Rubrics.{Rubric}
use human_data.Validators.{Finding, no_citations}
use human_data.Model.Json.{Fields}
use human_data.Validators.Run.{main_text}
use human_data.Qc.AutoReviewer.{
  review, has_critical, review_of_reply, review_heuristic, anthropic_available,
  critical_gate_failed, heuristic_score, weighted_overall,
}
use human_data.Qc.AutoReviewer.Verdicts.{request_of}

-- A refusal of the model sends the submission back for revision, whatever the sampling says.
pub route-refusal :
    (env : Env) (task : Task) (project : Project) (content : Fields) (rubric : Rubric)
    (findings : List Finding) (sampled : Bool)
    → anthropic_available env ≡ true
    → env.claude (request_of task project content) ≡ some refusal
    → route env.settings (review env task project content rubric findings) sampled ≡ to_revision
unfolding route review review_of_reply
route-refusal env task project content rubric findings sampled a c = rw (a, c)

-- Without the model no submission is approved by gate 3: it goes to a human if the length, the
-- citations and the warnings give at least the gray threshold, and back for revision otherwise.
pub route-offline :
    (env : Env) (task : Task) (project : Project) (content : Fields) (rubric : Rubric)
    (findings : List Finding) (sampled : Bool)
    → anthropic_available env ≡ false
    → route env.settings (review env task project content rubric findings) sampled ≡ (
        if ltb
          (heuristic_score
            (length (main_text env content project.task_type))
            (not (no_citations content))
            (length findings))
          env.settings.qc_gray_threshold
        then to_revision
        else to_human)
unfolding route review review_heuristic
route-offline env task project content rubric findings sampled a = rw a

review_online :
    (env : Env) (task : Task) (project : Project) (content : Fields) (rubric : Rubric)
    (findings : List Finding) (answer : ClaudeReply)
    → anthropic_available env ≡ true
    → env.claude (request_of task project content) ≡ some answer
    → review env task project content rubric findings ≡ review_of_reply env rubric answer
unfolding review
review_online env task project content rubric findings answer a c = rw (a, c)

reply_gate :
    (env : Env) (rubric : Rubric) (sampled : Bool) (rows : List CriterionScore) (flags : List Flag)
    (insufficient : Bool) (summary : String)
    → critical_gate_failed rubric rows ≡ true
    → has_critical flags ≡ false
    → env.settings.qc_gray_threshold ≤ weighted_overall env rubric rows
    → route env.settings
        (review_of_reply env rubric (reply rows flags insufficient summary))
        sampled
      ≡ to_human
unfolding route review_of_reply
reply_gate env rubric sampled rows flags insufficient summary g f s = ground arith

-- A critical criterion below 3 without a critical flag, in a review whose overall reaches the gray
-- threshold, sends the submission to a human.
pub route-critical_gate :
    (env : Env) (task : Task) (project : Project) (content : Fields) (rubric : Rubric)
    (findings : List Finding) (sampled : Bool) (rows : List CriterionScore) (flags : List Flag)
    (insufficient : Bool) (summary : String)
    → anthropic_available env ≡ true
    → env.claude (request_of task project content) ≡ some (reply rows flags insufficient summary)
    → critical_gate_failed rubric rows ≡ true
    → has_critical flags ≡ false
    → env.settings.qc_gray_threshold ≤ weighted_overall env rubric rows
    → route env.settings (review env task project content rubric findings) sampled ≡ to_human
route-critical_gate env task project content rubric findings sampled rows flags insufficient summary
      a c g f s =
    ap (λ r. route env.settings r sampled)
      (review_online env task project content rubric findings
        (reply rows flags insufficient summary) a c)
    ∙ reply_gate env rubric sampled rows flags insufficient summary g f s
