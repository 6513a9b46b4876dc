-- ===== src/Examples/Pipeline.antt =====
-- The gates of src/factory/qc/ on the rows of Data.
use human_data.Store.{Result, Db, ok}
use human_data.Qc.AutoReviewer.{anthropic_available, weighted_overall, review, critical_gate_failed}
use human_data.Validators.{
  luhn, passed, text_blob, contains, check_schema, check_pii, check_placeholders, check_citations,
}
use human_data.Model.Entities.{Review, Submission, Project, Expert, qc_engine, Task}
use human_data.Qc.Engine.Settled.{Decided, process-Settled}
use human_data.Qc.Engine.Stored.{HasStatus}
use human_data.Qc.Engine.Routing.{Read, Earned, process-Earned}
use human_data.Qc.Engine.{process, route}
use human_data.Qc.Rows.{project_fingerprints}
use human_data.Examples.Data.{
  praising, first_try, empty_db, value_of, second_try, rita, good_content, good_rows, lease_task,
  tables_of, leases, no_matches,
}
use human_data.Model.Enums.{human, human_review, pass, auto_check_failed, sft, fail}
use human_data.Prelude.{
  ◌≡◌, List, ◌∷◌, [], arith, refl, String, none, false, true, inl, ◌&&◌, ◌≤◌, some, not,
}
use human_data.Validators.Run.{run_all, content_fingerprint, check_duplicate}
use human_data.Config.{CriterionScore, Flag, reply}
use human_data.Rubrics.{fin_sft, Rubric, get_rubric}
use human_data.Validators.Luhn.{luhn-one_digit}
use human_data.Qc.Engine.Gate1.{process-duplicate}
use human_data.Validators.Passing.{
  is_complete, is_long_enough, has_no_pii, cites_existing, run_all-passed,
}
use human_data.Model.Json.{end}
use human_data.Qc.AutoReviewer.Verdicts.{request_of, Passes, review-passed}
use human_data.Qc.AutoReviewer.Overall.{weighted_overall_bounds}
use human_data.Validators.Financials.{check_financial_consistency}
use human_data.Controls.{
  assert_reviewer_independent, update_quality_score, is_sampled_for_human_review, sampling_rate,
}
use human_data.Billing.Metering.{record_approved_record}
use human_data.Audit.{record_event}
use human_data.Qc.Decision.{review_by_human}
use human_data.Qc.Decision.Reviewers.{MayDecide, review_by_human-MayDecide}
use human_data.Validators.Financials.TieOut.{financials_tie}

abbrev good_run : Result (Submission × Db)
good_run = process praising first_try empty_db

good_run_lem :
    process praising first_try empty_db ≡ ok (value_of first_try good_run, tables_of good_run)
unfolding process get_rubric passed run_all check_schema check_pii check_placeholders
    check_citations check_financial_consistency project_fingerprints route review weighted_overall
    is_sampled_for_human_review sampling_rate critical_gate_failed record_approved_record
    record_event anthropic_available check_duplicate content_fingerprint
good_run_lem = refl

process-Settled_example :
    HasStatus 6 (value_of first_try good_run).status (tables_of good_run).submissions
    × ((task : Task) × (project : Project) × (expert : Expert) × (rubric : Rubric) × Read empty_db
          first_try task project expert rubric
        × Decided praising empty_db first_try task project expert rubric
            (value_of first_try good_run).status)
process-Settled_example =
    process-Settled praising first_try (value_of first_try good_run) first_try empty_db
      (tables_of good_run) refl good_run_lem

process-Earned_example :
    (project : Project) × (expert : Expert) × (rubric : Rubric) × Read empty_db first_try lease_task
      project expert rubric
    × Earned praising empty_db first_try lease_task project expert rubric
unfolding process get_rubric passed run_all check_schema check_pii check_placeholders
    check_citations check_financial_consistency project_fingerprints route review weighted_overall
    is_sampled_for_human_review sampling_rate critical_gate_failed record_approved_record
    record_event anthropic_available check_duplicate content_fingerprint
process-Earned_example =
    process-Earned praising first_try (value_of first_try good_run) lease_task empty_db
      (tables_of good_run) refl refl good_run_lem refl

abbrev resubmitted_db : Db
resubmitted_db = record empty_db { submissions = first_try ∷ second_try ∷ [] }

abbrev second_run : Result (Submission × Db)
second_run = process praising second_try resubmitted_db

process-duplicate_example : (value_of second_try second_run).status ≡ auto_check_failed
unfolding process get_rubric passed run_all check_schema check_pii check_placeholders
    check_citations check_financial_consistency project_fingerprints route review weighted_overall
    is_sampled_for_human_review sampling_rate critical_gate_failed record_approved_record
    record_event anthropic_available check_duplicate content_fingerprint
process-duplicate_example =
    process-duplicate praising second_try first_try lease_task leases resubmitted_db
      (tables_of second_run) (value_of second_try second_run) refl refl (inl refl) refl
      (omega arith) refl refl

review-passed_example :
    (rows : List CriterionScore) × (flags : List Flag) × (summary : String) × (praising.credential
      ≡ true)
    × (praising.settings.qc_offline ≡ false)
    × (praising.claude (request_of lease_task leases good_content)
        ≡ some (reply rows flags false summary))
    × Passes praising fin_sft rows flags
unfolding review weighted_overall critical_gate_failed
review-passed_example = review-passed praising lease_task leases good_content fin_sft [] refl

weighted_overall_bounds_example :
    (40000 ≤ weighted_overall praising fin_sft good_rows)
    × (weighted_overall praising fin_sft good_rows ≤ 50000)
weighted_overall_bounds_example =
    weighted_overall_bounds praising fin_sft 4000 5000 good_rows
      (((omega arith, omega arith), ((omega arith, omega arith), ((omega arith, omega arith), tt))))
      (omega arith)

abbrev waiting : Submission
waiting = record first_try { status = human_review }

abbrev human_run : Result (Review × Db)
human_run = review_by_human praising waiting rita pass good_rows "fine" empty_db

abbrev no_review : Review
no_review = record {
  id = 0;
  submission_id = 0;
  kind = human;
  reviewer_id = qc_engine;
  verdict = fail;
  overall_score = none;
  detail = end;
  created_at = 0;
}

review_by_human-MayDecide_example : MayDecide waiting rita
unfolding review_by_human assert_reviewer_independent get_rubric weighted_overall
    record_approved_record record_event update_quality_score
review_by_human-MayDecide_example =
    review_by_human-MayDecide praising waiting rita pass good_rows "fine" empty_db
      (tables_of human_run) (value_of no_review human_run) refl

run_all-passed_example : passed (run_all praising good_content sft []) ≡ (
    is_complete good_content sft
    && is_long_enough good_content sft
    && has_no_pii no_matches (text_blob good_content)
    && not (no_matches.placeholder (text_blob good_content))
    && cites_existing no_matches (text_blob good_content)
    && financials_tie praising.convert good_content
    && not (contains (content_fingerprint praising good_content sft) []))
run_all-passed_example = run_all-passed praising good_content sft []

-- 4539578763621486 with its fourth digit misread
luhn-one_digit_example :
    luhn (4 ∷ 5 ∷ 3 ∷ 4 ∷ 5 ∷ 7 ∷ 8 ∷ 7 ∷ 6 ∷ 3 ∷ 6 ∷ 2 ∷ 1 ∷ 4 ∷ 8 ∷ 6 ∷ []) ≡ false
unfolding luhn
luhn-one_digit_example =
    luhn-one_digit (4 ∷ 5 ∷ 3 ∷ []) (5 ∷ 7 ∷ 8 ∷ 7 ∷ 6 ∷ 3 ∷ 6 ∷ 2 ∷ 1 ∷ 4 ∷ 8 ∷ 6 ∷ []) 9 4
      (omega arith) (omega arith) refl (omega arith)
