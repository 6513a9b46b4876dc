-- ===== src/Qc/AutoReviewer.antt =====
-- src/factory/qc/auto_reviewer.py: the reviewer of gate 3. The model's answer is a parameter
-- (`Env.claude`); what the code makes of it, and the offline reviewer, are modelled. The prompts
-- and the schema that go out with the request are not.
pub mod Overall
pub mod Verdicts
use human_data.Prelude.{
  List, ℕ, String, ◌/◌, Bool, any, none, if◌then◌else◌, not, ◌∷◌, ◌%◌, min, true, Option, false,
  ◌&&◌, ◌==◌, str_eq, ◌+◌, some, ltb, length, ◌*◌, leb, [], ◌-◌, map, str_append,
}
use human_data.Model.Entities.{
  Score, Principal, Task, Project, auto_qc_claude, auto_qc_heuristic_v1,
}
use human_data.Config.{
  Flag, Env, ClaudeReply, CriterionScore, calculation_error, fabricated_citation,
  hallucination_risk, reply, pii, refusal, offline_fallback, ReviewRequest, style_issue, incomplete,
  weak_contrast,
}
use human_data.Rubrics.{Rubric, Criterion}
use human_data.Model.Enums.{TaskType}
use human_data.Model.Json.{Fields}
use human_data.Validators.{Finding, no_citations}
use human_data.Validators.Run.{main_text}
use human_data.Rounding.{div_round}

-- `PROMPT_VERSION`
abbrev pub prompt_version : String
prompt_version = "qc-prompt-v2"

unfoldable pub grader_version : Env → Rubric → Bool → String
grader_version env rubric live =
    let model = if live then env.settings.qc_model else "heuristic-v1" in
    str_append prompt_version (str_append "/" (str_append rubric.id (str_append "/" model)))

pub record AutoReview : Type 0 where
  pub reviewer_id : Principal
  pub overall_score : Score
  pub passed : Bool
  pub criterion_scores : List CriterionScore
  pub flags : List Flag
  pub summary : String
  pub insufficient_evidence : Bool
  pub version : String

abbrev pub flag_value : Flag → String
flag_value calculation_error = "CALCULATION_ERROR"
flag_value fabricated_citation = "FABRICATED_CITATION"
flag_value hallucination_risk = "HALLUCINATION_RISK"
flag_value pii = "PII"
flag_value style_issue = "STYLE_ISSUE"
flag_value incomplete = "INCOMPLETE"
flag_value weak_contrast = "WEAK_CONTRAST"
flag_value offline_fallback = "OFFLINE_FALLBACK"

-- `flag in CRITICAL_FLAGS`
abbrev pub is_critical : Flag → Bool
is_critical calculation_error = true
is_critical fabricated_citation = true
is_critical hallucination_risk = true
is_critical pii = true
is_critical _ = false

-- `set(flags) & CRITICAL_FLAGS` is not empty
abbrev pub has_critical : List Flag → Bool
has_critical = any is_critical

-- `by_key.get(key)`; no rubric has a key twice
abbrev pub by_key : String → List Criterion → Option Criterion
by_key key [] = none
by_key key (c ∷ cs) = let rest = by_key key cs in if str_eq c.key key then some c else rest

-- The weight of a row, and 0 for a criterion that the rubric lacks: such a row is skipped.
abbrev pub weight_of : List Criterion → CriterionScore → ℕ
weight_of criteria row = elim (by_key row.criterion criteria) [ none ↦ 0 | some c ↦ c.weight ]

-- The loop of `_weighted_overall`: the two sums.
unfoldable pub weigh : List Criterion → ℕ × ℕ → List CriterionScore → ℕ × ℕ
weigh criteria (acc, total) [] = (acc, total)
weigh criteria (acc, total) (row ∷ rows) =
    let w = weight_of criteria row in weigh criteria (acc + w * row.score, total + w) rows

-- `round(acc / total_w, 3) if total_w else 0.0`
abbrev pub mean : (ℕ → ℕ → Bool) → ℕ × ℕ → Score
mean up (acc, total) = if total == 0 then 0 else 10 * div_round up acc (10 * total)

unfoldable pub weighted_overall : Env → Rubric → List CriterionScore → Score
unfolding weigh div_round
weighted_overall env rubric rows = mean env.rounds_up (weigh rubric.criteria (0, 0) rows)

abbrev is_gate : List Criterion → CriterionScore → Bool
is_gate criteria row = elim (by_key row.criterion criteria) [
  | none ↦ false
  | some c ↦ c.critical && ltb row.score 30000
]

unfoldable pub critical_gate_failed : Rubric → List CriterionScore → Bool
critical_gate_failed rubric rows = any (is_gate rubric.criteria) rows

-- `_anthropic_available`
unfoldable pub anthropic_available : Env → Bool
anthropic_available env = not env.settings.qc_offline && env.credential

-- `_review_with_claude`, after the call of the model
unfoldable pub review_of_reply : Env → Rubric → ClaudeReply → AutoReview
unfolding grader_version
review_of_reply env rubric refusal = record {
  reviewer_id = auto_qc_claude;
  overall_score = 0;
  passed = false;
  criterion_scores = [];
  flags = hallucination_risk ∷ [];
  summary = "Model declined to review this submission; routed to human review.";
  insufficient_evidence = true;
  version = grader_version env rubric true;
}
review_of_reply env rubric (reply rows flags insufficient summary) =
    let overall = weighted_overall env rubric rows in
    record {
      reviewer_id = auto_qc_claude;
      overall_score = overall;
      passed =
          leb env.settings.qc_pass_threshold overall
          && not (has_critical flags)
          && not insufficient
          && not (critical_gate_failed rubric rows);
      criterion_scores = rows;
      flags = flags;
      summary = summary;
      insufficient_evidence = insufficient;
      version = grader_version env rubric true;
    }

-- `round` to a whole score, with a half to the even neighbour, in ten-thousandths
unfoldable pub round_score : Score → ℕ
round_score s =
    let q = s / 10000 in
    let r = s % 10000 in
    if ltb r 5000 then q else (if ltb 5000 r then q + 1 else (if q % 2 == 0 then q else q + 1))

-- The score of `_review_heuristic`: `-` stops at 0, as the `max` with 0.0 does.
unfoldable pub heuristic_score : ℕ → Bool → ℕ → Score
heuristic_score chars cited warnings =
    min 50000
      (30000 + (if leb 800 chars then 5000 else 0) + (if cited then 5000 else 0) - 2500 * warnings)

unfoldable pub review_heuristic : Env → TaskType → Fields → Rubric → List Finding → AutoReview
unfolding grader_version heuristic_score round_score
review_heuristic env task_type content rubric findings =
    let score =
      heuristic_score (length (main_text env content task_type)) (not (no_citations content))
        (length findings) in
    record {
      reviewer_id = auto_qc_heuristic_v1;
      overall_score = score;
      passed = false;
      criterion_scores =
          map (λ (c : Criterion). record { criterion = c.key; score = round_score score * 10000 })
            rubric.criteria;
      flags = offline_fallback ∷ [];
      summary = "Offline heuristic review; submission requires human review before approval.";
      insufficient_evidence = true;
      version = grader_version env rubric false;
    }

unfoldable pub review : Env → Task → Project → Fields → Rubric → List Finding → AutoReview
unfolding anthropic_available review_of_reply review_heuristic
review env task project content rubric findings =
    let request : ReviewRequest = record {
      task_prompt = task.prompt;
      task_context = task.context;
      task_type = project.task_type;
      content = content;
    } in
    let fallback = review_heuristic env project.task_type content rubric findings in
    if anthropic_available env
    then elim (env.claude request) [
      | none ↦ fallback
      | some answer ↦ review_of_reply env rubric answer
    ]
    else fallback
