-- ===== src/Rubrics.antt =====
-- src/factory/rubrics.py: the rubrics and their lookup. Weights are in tenths, and the
-- descriptions, which only the prompt shows, are left out.
use human_data.Prelude.{
  ◌++◌, String, ℕ, List, ◌∷◌, sum_of, Bool, true, Option, [], none, false, if◌then◌else◌, str_eq,
  some,
}
use human_data.Model.Enums.{TaskType}
use human_data.Store.{Action, or_raise, unknown_rubric}

pub record Criterion : Type 0 where
  pub key : String
  pub weight : ℕ
  pub critical : Bool

pub record Rubric : Type 0 where
  pub id : String
  pub name : String
  pub criteria : List Criterion

abbrev criterion : String → ℕ → Bool → Criterion
criterion key weight critical = record { key = key; weight = weight; critical = critical }

-- `Rubric.weights_total`
unfoldable pub weights_total : Rubric → ℕ
weights_total rubric = sum_of (λ c. c.weight) rubric.criteria

abbrev pub common : List Criterion
common =
    criterion "technical_accuracy" 30 true
    ∷ criterion "standards_grounding" 20 true
    ∷ criterion "completeness" 15 false
    ∷ criterion "reasoning_quality" 15 false
    ∷ criterion "clarity_style" 10 false
    ∷ []

abbrev pub fin_sft : Rubric
fin_sft = record {
  id = "fin-sft-v1";
  name = "Finance/Accounting SFT response quality v1";
  criteria = common;
}

abbrev pub fin_pref : Rubric
fin_pref = record {
  id = "fin-pref-v1";
  name = "Finance/Accounting preference pair quality v1";
  criteria = common ++ criterion "pair_contrast" 20 true ∷ [];
}

abbrev pub fin_eval : Rubric
fin_eval = record {
  id = "fin-eval-v1";
  name = "Finance/Accounting eval item quality v1";
  criteria = common ++ criterion "gradeability" 20 true ∷ [];
}

-- `RUBRICS`, by the id of a rubric
abbrev pub rubrics : List Rubric
rubrics = fin_sft ∷ fin_pref ∷ fin_eval ∷ []

abbrev pub lookup : String → List Rubric → Option Rubric
lookup rubric_id [] = none
lookup rubric_id (r ∷ rs) =
    let rest = lookup rubric_id rs in if str_eq r.id rubric_id then some r else rest

unfoldable pub get_rubric : String → Action Rubric
get_rubric rubric_id = or_raise (lookup rubric_id rubrics) unknown_rubric

unfoldable pub default_rubric_for : TaskType → String
default_rubric_for TaskType.sft = "fin-sft-v1"
default_rubric_for TaskType.preference = "fin-pref-v1"
default_rubric_for TaskType.eval = "fin-eval-v1"

unfoldable pub required_fields : TaskType → List String
required_fields TaskType.sft = "response" ∷ "citations" ∷ []
required_fields TaskType.preference =
    "chosen" ∷ "rejected" ∷ "rejection_rationale" ∷ "citations" ∷ []
required_fields TaskType.eval = "answer" ∷ "grading_notes" ∷ "citations" ∷ []

abbrev pub min_response_chars : ℕ
min_response_chars = 200
