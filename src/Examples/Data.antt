-- ===== src/Examples/Data.antt =====
-- A small factory: one firm, one project, two experts, and one submission.
use Prim.Native.String.{count}
use human_data.Prelude.{List, ℕ, String, true, some, Option, ◌∷◌, false, none, [], ◌+◌, length}
use human_data.Config.{
  Settings, Env, Patterns, CriterionScore, default_settings, ClaudeReply, reply, refusal,
}
use human_data.Model.Entities.{
  Expert, Ident, Qualification, Project, Task, Firm, Submission, AuditEvent, Moment, UsageEvent,
  qc_engine, Invoice, User, ApiKey,
}
use human_data.Model.Json.{Fields, field, end, text, arr, cons, nil}
use human_data.Store.{Db, Result, ok, err}
use human_data.Model.Enums.{
  InvoiceStatus, external, submitted, financial_accounting, sft, assigned, qualified,
  issued_external, ops, admin, client,
}
use human_data.Auth.{Credentials}

abbrev pub long_answer : String
long_answer =
    "Under ASC 842 the lessee recognises a right of use asset and a lease liability at commencement, measured at the present value of the lease payments, and afterwards amortises the asset on a straight line basis over the term of the lease."

abbrev pub good_content : Fields
good_content =
    field "response" (text long_answer) (field "citations" (arr (cons (text "ASC 842") nil)) end)

abbrev pub good_rows : List CriterionScore
good_rows =
    record { criterion = "technical_accuracy"; score = 50000 }
    ∷ record { criterion = "standards_grounding"; score = 50000 }
    ∷ record { criterion = "clarity_style"; score = 40000 }
    ∷ []

abbrev pub weak_rows : List CriterionScore
weak_rows =
    record { criterion = "technical_accuracy"; score = 20000 }
    ∷ record { criterion = "standards_grounding"; score = 50000 }
    ∷ []

abbrev pub no_matches : Patterns
no_matches = record {
  ssn = λ t. false;
  ein = λ t. false;
  email = λ t. false;
  phone = λ t. false;
  card = λ t. [];
  placeholder = λ t. false;
  asc = λ t. 842 ∷ [];
  ifrs = λ t. [];
  ias = λ t. [];
}

-- The digest of a key is its length. The hash is one more than the link, and an id's prefix the id; the model gives the one answer.
abbrev pub env_with : Settings → Option ClaudeReply → ℕ → Env
env_with settings answer prefix = record {
  settings = settings;
  key_digest = count;
  dev_admin = 0;
  event_hash = λ body. body.prev + 1;
  id_prefix = λ id. prefix;
  text_hash = λ t. length t;
  rounds_up = λ a b. true;
  patterns = no_matches;
  convert = record {
    float_text = λ s. none;
    lower_text = λ t. t;
    is_word = λ c. true;
    str_value = λ v. [];
    cent_is_over = λ a b. false;
    year_month = λ m. 202601;
    load_event = λ payload. none;
  };
  credential = true;
  claude = λ request. answer;
  stripe = record {
    create_customer = λ firm. none;
    issue = λ customer invoice. none;
    create_session = λ firm invoice s c. none;
    construct_event = λ payload signature secret. none;
  };
}

-- the model praises each submission, and none is sampled
abbrev pub praising : Env
praising = env_with default_settings (some (reply good_rows [] false "good")) 4000000000

abbrev pub refusing : Env
refusing = env_with default_settings (some refusal) 0

abbrev pub strict : Env
strict =
    env_with default_settings (some (reply weak_rows [] false "an error in a critical criterion")) 0

abbrev pub offline : Env
offline = env_with (record default_settings { qc_offline = true }) none 0

abbrev pub acme : Firm
acme = record {
  id = 1;
  name = "Acme";
  billing_email = "ap@acme.example";
  billing_mode = external;
  currency = "usd";
  external_reference = "";
  stripe_customer_id = none;
  created_at = 0;
}

abbrev pub ann : Expert
ann = record {
  id = 2;
  name = "Ann";
  email = "ann@experts.example";
  credentials = "CPA" ∷ [];
  status = qualified;
  is_reviewer = false;
  quality_score = 43000;
  approved_count = 25;
  gold_pass_count = 0;
  gold_fail_count = 0;
  created_at = 0;
}

abbrev pub newcomer : Expert
newcomer = record ann { approved_count = 0; quality_score = 30000 }

abbrev pub rita : Expert
rita = record ann { id = 3; name = "Rita"; is_reviewer = true }

abbrev pub leases : Project
leases = record {
  id = 4;
  name = "Leases";
  firm_id = 1;
  track = financial_accounting;
  task_type = sft;
  guidelines = "";
  rubric_id = "fin-sft-v1";
  created_by = 0;
  created_at = 0;
}

abbrev pub lease_task : Task
lease_task = record {
  id = 5;
  project_id = 4;
  prompt = "How does a lessee account for an operating lease?";
  context = end;
  is_gold = false;
  gold_answer = none;
  status = assigned;
  assigned_to = some 2;
  created_at = 0;
}

abbrev pub first_try : Submission
first_try = record {
  id = 6;
  task_id = 5;
  expert_id = 2;
  version = 1;
  content = good_content;
  status = submitted;
  sampled_for_human_review = false;
  created_at = 9;
  updated_at = 9;
}

abbrev pub second_try : Submission
second_try = record first_try { id = 7; version = 2 }

abbrev pub exam : Qualification
exam = record {
  id = 8;
  expert_id = 2;
  track = financial_accounting;
  exam_score = 900000;
  passed = true;
  granted_at = 0;
}

abbrev pub usage_of : Ident → Ident → Moment → Option Ident → UsageEvent
usage_of id task_id at invoice_id = record {
  id = id;
  firm_id = 1;
  project_id = 4;
  task_id = task_id;
  submission_id = task_id + 1;
  kind = "approved_record";
  quantity = 1;
  unit_price_cents = 12000;
  amount_cents = 12000;
  currency = "usd";
  invoice_id = invoice_id;
  created_at = at;
}

abbrev pub invoice_of : Ident → InvoiceStatus → Invoice
invoice_of id status = record {
  id = id;
  number = record { month = 202601; serial = 1 };
  firm_id = 1;
  mode = external;
  period_start = 0;
  period_end = 10;
  subtotal_cents = 12000;
  currency = "usd";
  status = status;
  line_items = [];
  stripe_invoice_id = none;
  hosted_invoice_url = none;
  checkout_session_id = none;
  external_paid_reference = none;
  issued_by = 0;
  issued_at = none;
  paid_at = none;
  created_at = 10;
}

abbrev pub empty_db : Db
empty_db = record {
  next_id = 100;
  clock = 20;
  firms = acme ∷ [];
  users = [];
  api_keys = [];
  experts = ann ∷ rita ∷ [];
  qualifications = exam ∷ [];
  projects = leases ∷ [];
  tasks = lease_task ∷ [];
  submissions = first_try ∷ [];
  reviews = [];
  audit_events = [];
  rate_cards = [];
  usage_events = [];
  invoices = [];
  export_batches = [];
}

-- a member of the staff with a key, and the headers that send it
abbrev pub opal : User
opal = record {
  id = 60;
  name = "Opal";
  email = "opal@factory.example";
  role = ops;
  firm_id = none;
  expert_id = none;
  active = true;
  created_at = 0;
}

abbrev pub opal_key : ApiKey
opal_key = record {
  id = 61;
  user_id = 60;
  prefix = "hdf_abcd";
  key_hash = 10;
  active = true;
  created_at = 0;
  last_used_at = none;
}

abbrev pub by_opal : Credentials
by_opal = record { authorization = some "Bearer hdf_abcdef"; x_actor_id = none }

-- an administrator and a client, likewise
abbrev pub ada : User
ada = record opal { id = 62; name = "Ada"; email = "ada@factory.example"; role = admin }

abbrev pub cleo : User
cleo = record opal {
  id = 63;
  name = "Cleo";
  email = "cleo@acme.example";
  role = client;
  firm_id = some 1;
}

abbrev pub key_of : Ident → Ident → ℕ → ApiKey
key_of id user_id digest = record opal_key { id = id; user_id = user_id; key_hash = digest }

abbrev pub by_ada : Credentials
by_ada = record { authorization = some "Bearer hdf_abcdefgh"; x_actor_id = none }

abbrev pub by_cleo : Credentials
by_cleo = record { authorization = some "Bearer hdf_abcdefghij"; x_actor_id = none }

abbrev pub crowded_db : Db
crowded_db = record empty_db {
  users = opal ∷ ada ∷ cleo ∷ [];
  api_keys = opal_key ∷ key_of 64 62 12 ∷ key_of 65 63 14 ∷ [];
}

abbrev pub staffed_db : Db
staffed_db = record empty_db { users = opal ∷ []; api_keys = opal_key ∷ [] }

-- an older invoice, and usage of which one event is not on it
abbrev pub billed_db : Db
billed_db = record empty_db {
  usage_events = usage_of 30 31 5 (some 40) ∷ usage_of 32 33 15 none ∷ [];
  invoices = invoice_of 40 issued_external ∷ [];
}

abbrev pub event_of : ℕ → ℕ → AuditEvent
event_of seq prev = record {
  seq = seq;
  actor = qc_engine;
  action = "submission.created";
  entity_type = "submission";
  entity_id = 6;
  payload = end;
  prev_hash = prev;
  hash = prev + 1;
  created_at = 1;
}

module _ {A : Type 0} where
  -- what a run returns, and the tables after it
  abbrev pub value_of : A → Result (A × Db) → A
  value_of a (ok (b, db)) = b
  value_of a (err e) = a

  abbrev pub tables_of : Result (A × Db) → Db
  tables_of (ok (a, db)) = db
  tables_of (err e) = empty_db
