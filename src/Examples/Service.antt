-- ===== src/Examples/Service.antt =====
-- The export, the rate limit, the calibration and whole runs of requests on the rows of Data.
use human_data.Store.{Db, Result, not_clean, control_violation, c6}
use human_data.Export.{request_export, approved_rows}
use human_data.Export.Materialize.{Outside, approve_and_materialize}
use human_data.Prelude.{
  All, any, none, ◌≡◌, ◌∷◌, true, [], ◌↔◌, length, leb, arith, some, List, refl, ◌<◌, inl, ◌/◌,
  ◌++◌, ◌≤◌, if◌then◌else◌, ℕ, not, ◌||◌, ◌⊎◌, ◌≢◌,
}
use human_data.Calibration.Counts.{calibration_report-recommends}
use human_data.Model.Entities.{
  ExportBatch, Review, Submission, pending_approval, auto_qc_claude, AuditEvent, Ident,
}
use human_data.Audit.{verify_chain, record_event}
use human_data.Calibration.{pairs, calibration_report, raise_sampling, consider_lower}
use human_data.Ratelimit.Window.{entries_after, hits}
use human_data.Ratelimit.Middleware.{Caller, Identity, Answer, dispatch, dispatch-Answer, identity}
use human_data.Cli.{export_dataset, Outcome}
use human_data.Cli.Commands.{export_dataset-guards}
use human_data.Calibration.Counts.{share, agrees, passes_wrongly}
use human_data.Ratelimit.Middleware.{IsWait}
use human_data.Ratelimit.{minute, is_limited}
use human_data.Examples.Data.{
  empty_db, first_try, praising, leases, value_of, lease_task, good_content, tables_of, staffed_db,
  by_opal,
}
use human_data.Model.Json.{end}
use human_data.Export.Rows.{
  covers, MayShip, OnePerTask, approved_rows-MayShip, approved_rows-covers,
}
use human_data.Model.Enums.{auto_llm, approved, pass, human}
use human_data.Factory.{serve, submits, later, here, serves, Request, committed}
use human_data.Export.Release.{IsReleasable, request_export-IsReleasable}
use human_data.Billing.Metering.Once.{IsMeteredOnce}
use human_data.Factory.Trail.{Reach-verifies}
use human_data.Factory.Billed.{Reach-IsMeteredOnce}
use human_data.Config.{Settings, default_settings}

abbrev sold : Submission
sold = record first_try { status = approved }

abbrev model_review : Review
model_review = record {
  id = 50;
  submission_id = 6;
  kind = auto_llm;
  reviewer_id = auto_qc_claude;
  verdict = pass;
  overall_score = some 48330;
  detail = end;
  created_at = 10;
}

abbrev sold_db : Db
sold_db = record empty_db {
  submissions = sold ∷ [];
  reviews = model_review ∷ record model_review { id = 51; kind = human } ∷ [];
}

abbrev outside : Outside
outside = record { sha256_rows = length; base_path = λ id. "exports"; storage = none }

approved_rows-MayShip_example :
    All (MayShip 4) (approved_rows sold_db leases) × OnePerTask (approved_rows sold_db leases)
approved_rows-MayShip_example = approved_rows-MayShip sold_db leases

approved_rows-covers_example : any (covers 5 1) (approved_rows sold_db leases) ≡ true
approved_rows-covers_example =
    approved_rows-covers sold_db leases lease_task sold (inl refl) refl (inl refl) refl

abbrev request : Result (ExportBatch × Db)
request = request_export praising leases 9 sold_db

abbrev no_batch : ExportBatch
no_batch = record {
  id = 0;
  project_id = 4;
  requested_by = 9;
  approved_by = none;
  path = none;
  manifest = end;
  status = pending_approval;
  created_at = 0;
}

request_export-IsReleasable_example :
    IsReleasable praising sold_db leases
    × ((value_of no_batch request).status ≡ pending_approval)
    × ((value_of no_batch request).requested_by ≡ 9)
unfolding request_export verify_chain record_event
request_export-IsReleasable_example =
    request_export-IsReleasable praising leases 9 sold_db (tables_of request)
      (value_of no_batch request) refl

abbrev release : Result (ExportBatch × Db)
release = approve_and_materialize praising outside no_batch 10 sold_db

abbrev requester : Ident
requester = 9

abbrev approver : Ident
approver = 10

-- the sold record is exported by two people
export_dataset-guards_example :
    let run = export_dataset praising outside 4 requester approver sold_db in
    (run ≡ (Outcome.fails not_clean, sold_db))
    ⊎ (IsReleasable praising sold_db leases
        × (requester ≡ approver)
        × (run ≡ (
          Outcome.fails (control_violation c6),
          committed sold_db (request_export praising leases requester sold_db),
        )))
    ⊎ (IsReleasable praising sold_db leases × (requester ≢ approver))
export_dataset-guards_example =
    export_dataset-guards praising outside 4 requester approver sold_db leases refl

abbrev strict : Settings
strict = record default_settings { rate_limit_per_minute = 1 }

abbrev key_of : Identity → ℕ
key_of (Identity.credential n) = n
key_of (Identity.actor name) = 7
key_of (Identity.ip host) = 9

abbrev dev_caller : Caller
dev_caller = record { path = "/tasks"; authorization = none; x_actor_id = some "opal"; host = none }

-- the second request of one actor in one minute, of one allowed, a third of a second before its end
abbrev late : ℕ
late = 119700000

dispatch-Answer_example :
    (wait : ℕ) × ((dispatch
        (λ header. 3)
        key_of
        strict
        late
        dev_caller
        (entries_after 1 ((61000000, 7) ∷ []))).0
      ≡ (if not (is_limited strict "/tasks")
            || leb (hits 7 (late / minute) ((late, 7) ∷ (61000000, 7) ∷ [])) 1
          then Answer.called
          else Answer.too_many wait))
    × IsWait late wait
unfolding identity
dispatch-Answer_example =
    dispatch-Answer (λ header. 3) key_of strict late dev_caller ((61000000, 7) ∷ [])
      (omega arith, tt)

calibration_report-recommends_example :
    let advice = (calibration_report praising sold_db none).sampling_recommendation in
    let ps = pairs sold_db none in
    ((advice ≡ raise_sampling) ↔ (500 < share praising passes_wrongly ps))
    × ((advice ≡ consider_lower) ↔ (
        (share praising passes_wrongly ps ≤ 500)
        × (50 ≤ length ps)
        × (9000 ≤ share praising agrees ps)))
unfolding pairs
calibration_report-recommends_example =
    calibration_report-recommends praising sold_db none (omega arith)

abbrev submission : Request
submission = submits by_opal 5 (record { expert_id = 2; content = good_content })

abbrev after_submit : Db
after_submit = serve praising outside submission staffed_db

Reach-verifies_example :
    (verify_chain praising after_submit.audit_events ≡ (true, length after_submit.audit_events))
    × ((added : List AuditEvent) × (after_submit.audit_events ≡ [] ++ added))
unfolding verify_chain
Reach-verifies_example =
    Reach-verifies praising outside staffed_db after_submit refl
      (later staffed_db staffed_db after_submit (here staffed_db) (serves staffed_db submission))

Reach-IsMeteredOnce_example : IsMeteredOnce after_submit
Reach-IsMeteredOnce_example =
    Reach-IsMeteredOnce praising outside staffed_db after_submit (λ t. omega arith)
      (later staffed_db staffed_db after_submit (here staffed_db) (serves staffed_db submission))
