-- ===== src/Qc/AutoReviewer/Verdicts.antt =====
-- When the reviewer of src/factory/qc/auto_reviewer.py passes a submission.
use human_data.Qc.AutoReviewer.{
  review, weighted_overall, has_critical, critical_gate_failed, review_of_reply,
}
use human_data.Model.Entities.{Task, Project}
use human_data.Config.{Env, CriterionScore, Flag, ReviewRequest, reply, ClaudeReply, refusal}
use human_data.Model.Json.{Fields}
use human_data.Rubrics.{Rubric}
use human_data.Prelude.{List, ◌≡◌, true, String, false, some, ◌≤◌, Option-cases, inl, arith, inr}
use human_data.Validators.{Finding}

abbrev pub request_of : Task → Project → Fields → ReviewRequest
request_of task project content = record {
  task_prompt = task.prompt;
  task_context = task.context;
  task_type = project.task_type;
  content = content;
}

-- What makes the code pass an answer.
abbrev pub Passes : Env → Rubric → List CriterionScore → List Flag → Type 0
Passes env rubric rows flags =
    (env.settings.qc_pass_threshold ≤ weighted_overall env rubric rows)
    × (has_critical flags ≡ false)
    × (critical_gate_failed rubric rows ≡ false)

review_of_reply-passed :
    (env : Env) (rubric : Rubric) (answer : ClaudeReply)
    → (review_of_reply env rubric answer).passed ≡ true
    → (rows : List CriterionScore) × (flags : List Flag) × (summary : String) × (answer
        ≡ reply rows flags false summary)
      × Passes env rubric rows flags
unfolding review_of_reply
review_of_reply-passed env rubric refusal h = absurd (ground arith)
review_of_reply-passed env rubric (reply rows flags insufficient summary) h =
    (rows, flags, summary, ground arith, ground arith)

-- A passed review rests on an answer of the model: a credential was there and the offline switch
-- was off, the model answered with grounded scores, their overall is at the pass threshold or
-- above, no flag is critical, and no critical criterion of the rubric is scored below 3.
pub review-passed :
    (env : Env) (task : Task) (project : Project) (content : Fields) (rubric : Rubric)
    (findings : List Finding)
    → (review env task project content rubric findings).passed ≡ true
    → (rows : List CriterionScore) × (flags : List Flag) × (summary : String) × (env.credential
        ≡ true)
      × (env.settings.qc_offline ≡ false)
      × (env.claude (request_of task project content) ≡ some (reply rows flags false summary))
      × Passes env rubric rows flags
unfolding review
review-passed env task project content rubric findings h =
    elim (Option-cases (env.claude (request_of task project content))) [
      | inl failed ↦ absurd (ground arith)
      | inr (answer, answered) ↦
          let credential : env.credential ≡ true = ground arith in
          let online : env.settings.qc_offline ≡ false = ground arith in
          let (rows, flags, summary, same, facts) =
            review_of_reply-passed env rubric answer (ground arith) in
          (rows, flags, summary, credential, online, cc, facts)
    ]
