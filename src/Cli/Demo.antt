-- ===== src/Cli/Demo.antt =====
-- `seed_demo` of src/factory/cli.py up to its first commit: the demo firm and its tables.
pub mod Run
use human_data.Cli.{Outcome, fails, prints}
use human_data.Model.Json.{Fields, Json, Items, field, arr, cons, bool, obj, text, end, nat, nil}
use human_data.Store.{
  Db, Action, find, ◌>>=◌, Result, err, new_id, gets, ok, ◌>>◌, modify, raise_if, integrity_error,
  pure,
}
use human_data.Model.Entities.{Ident, Firm, Expert, Task, Project, Submission, Qualification, ident}
use human_data.Prelude.{
  String, Option, Bool, ℕ, List, str_eq, ◌∷◌, some, true, [], none, false, any, ◌++◌,
}
use human_data.Rubrics.{default_rubric_for}
use human_data.Config.{Env}
use human_data.Qc.Engine.{submit}
use human_data.Model.Enums.{financial_accounting, unassigned, sft, external, qualified}
use human_data.Audit.{record_event}

abbrev contract_prompt : String
contract_prompt =
    "A SaaS company sells a 3-year license bundled with implementation services and annual support. Walk through the five-step ASC 606 model to determine how revenue should be recognized."

abbrev entries_prompt : String
entries_prompt =
    "Prepare the journal entries to record a $120,000 annual SaaS subscription invoiced upfront on Jan 1, recognized monthly. Show the entry at invoicing and the monthly recognition entry, and provide the figures in a structured financials block."

abbrev lease_prompt : String
lease_prompt =
    "Under ASC 842, does a 10-month equipment rental with no purchase option require balance-sheet recognition? Explain the short-term lease exemption."

-- the rows that the rest of the command uses
pub record Seeded : Type 0 where
  pub firm_id : Ident
  pub project_id : Ident
  pub author : Expert
  pub reviewer : Ident
  pub first : Task
  pub second : Task
  pub third : Task

abbrev pub is_email : String → Expert → Bool
is_email email ex = str_eq ex.email email

-- `Expert(...)` and its flush; the column `email` is unique
unfoldable pub seed_expert : String → String → List String → Bool → Action Expert
seed_expert name email credentials is_reviewer = do
  experts ← gets (λ db. db.experts)
  raise_if (any (is_email email) experts) integrity_error
  id ← new_id
  now ← gets (λ db. db.clock)
  let ex : Expert = record {
    id = id;
    name = name;
    email = email;
    credentials = credentials;
    status = qualified;
    is_reviewer = is_reviewer;
    quality_score = 35000;
    approved_count = 0;
    gold_pass_count = 0;
    gold_fail_count = 0;
    created_at = now;
  }
  modify (λ db. record db { experts = db.experts ++ ex ∷ [] })
  pure ex

unfoldable pub seed_qualification : Ident → ℕ → Action Unit
seed_qualification expert_id exam_score = do
  id ← new_id
  now ← gets (λ db. db.clock)
  let q : Qualification = record {
    id = id;
    expert_id = expert_id;
    track = financial_accounting;
    exam_score = exam_score;
    passed = true;
    granted_at = now;
  }
  modify (λ db. record db { qualifications = db.qualifications ++ q ∷ [] })

abbrev seed_payload : Fields
seed_payload = field "seed" (bool true) end

abbrev pub is_demo_lab : Firm → Bool
is_demo_lab firm = str_eq firm.name "Demo Lab"

-- the column `name` is unique
unfoldable pub seed_firm : Action Firm
seed_firm = do
  firms ← gets (λ db. db.firms)
  raise_if (any is_demo_lab firms) integrity_error
  id ← new_id
  now ← gets (λ db. db.clock)
  let firm : Firm = record {
    id = id;
    name = "Demo Lab";
    billing_email = "ap@demo-lab.example.com";
    billing_mode = external;
    currency = "usd";
    external_reference = "PO-2026-0042";
    stripe_customer_id = none;
    created_at = now;
  }
  modify (λ db. record db { firms = db.firms ++ firm ∷ [] })
  pure firm

unfoldable pub seed_project : Ident → Ident → Action Project
unfolding default_rubric_for
seed_project ops firm_id = do
  id ← new_id
  now ← gets (λ db. db.clock)
  let project : Project = record {
    id = id;
    name = "ASC 606 revenue recognition SFT set";
    firm_id = firm_id;
    track = financial_accounting;
    task_type = sft;
    guidelines = "Write responses a senior technical accountant would sign off on.";
    rubric_id = default_rubric_for sft;
    created_by = ops;
    created_at = now;
  }
  modify (λ db. record db { projects = db.projects ++ project ∷ [] })
  pure project

unfoldable pub seed_task : Ident → String → Bool → Option Fields → Action Task
seed_task project_id prompt is_gold gold_answer = do
  id ← new_id
  now ← gets (λ db. db.clock)
  let task : Task = record {
    id = id;
    project_id = project_id;
    prompt = prompt;
    context = end;
    is_gold = is_gold;
    gold_answer = gold_answer;
    status = unassigned;
    assigned_to = none;
    created_at = now;
  }
  modify (λ db. record db { tasks = db.tasks ++ task ∷ [] })
  pure task

abbrev pub one : Json → Items
one v = cons v nil

abbrev lease_gold : Fields
lease_gold =
    field "must_include"
      (arr (cons (text "short-term") (cons (text "12 months") (one (text "exemption")))))
      (field "must_not_include" (arr (one (text "finance lease required"))) end)

-- up to the first commit; `ops` is the number of the actor "ops-admin"
unfoldable pub seed_tables : Env → Ident → Action Seeded
seed_tables env ops = do
  alice ← seed_expert "Alice Turner" "alice@example-experts.com" ("CPA" ∷ []) false
  bob ← seed_expert "Bob Reyes" "bob@example-experts.com" ("CPA" ∷ "CIA" ∷ []) true
  seed_qualification alice.id 920000
  seed_qualification bob.id 950000
  record_event env (ident ops) "expert.created" "expert" alice.id seed_payload
  record_event env (ident ops) "expert.created" "expert" bob.id seed_payload
  firm ← seed_firm
  record_event env (ident ops) "firm.created" "firm" firm.id seed_payload
  project ← seed_project ops firm.id
  record_event env (ident ops) "project.created" "project" project.id seed_payload
  first ← seed_task project.id contract_prompt false none
  second ← seed_task project.id entries_prompt false none
  third ← seed_task project.id lease_prompt true (some lease_gold)
  pure (record {
    firm_id = firm.id;
    project_id = project.id;
    author = alice;
    reviewer = bob.id;
    first = first;
    second = second;
    third = third;
  })
