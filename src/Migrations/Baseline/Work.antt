-- ===== src/Migrations/Baseline/Work.antt =====
-- migrations/versions/33f7521db9e0_baseline_schema_v0_2.py: the tables of work and billing.
use human_data.Migrations.{
  Table, required, optional, string, text_type, integer, float, boolean, json, timestamp,
}
use human_data.Prelude.{[], ◌∷◌}

abbrev pub invoices : Table
invoices = record {
  name = "invoices";
  columns =
      required "id" string
      ∷ required "number" string
      ∷ required "firm_id" string
      ∷ required "mode" string
      ∷ required "period_start" timestamp
      ∷ required "period_end" timestamp
      ∷ required "subtotal_cents" integer
      ∷ required "currency" string
      ∷ required "status" string
      ∷ required "line_items" json
      ∷ optional "stripe_invoice_id" string
      ∷ optional "hosted_invoice_url" string
      ∷ optional "external_paid_reference" string
      ∷ required "issued_by" string
      ∷ optional "issued_at" timestamp
      ∷ optional "paid_at" timestamp
      ∷ required "created_at" timestamp
      ∷ [];
  foreign_keys = ("firm_id", "firms") ∷ [];
  primary_key = "id";
  unique = "number" ∷ [];
}

abbrev pub projects : Table
projects = record {
  name = "projects";
  columns =
      required "id" string
      ∷ required "name" string
      ∷ required "firm_id" string
      ∷ required "track" string
      ∷ required "task_type" string
      ∷ required "guidelines" text_type
      ∷ required "rubric_id" string
      ∷ required "created_by" string
      ∷ required "created_at" timestamp
      ∷ [];
  foreign_keys = ("firm_id", "firms") ∷ [];
  primary_key = "id";
  unique = [];
}

abbrev pub export_batches : Table
export_batches = record {
  name = "export_batches";
  columns =
      required "id" string
      ∷ required "project_id" string
      ∷ required "requested_by" string
      ∷ optional "approved_by" string
      ∷ optional "path" string
      ∷ required "manifest" json
      ∷ required "status" string
      ∷ required "created_at" timestamp
      ∷ [];
  foreign_keys = ("project_id", "projects") ∷ [];
  primary_key = "id";
  unique = [];
}

abbrev pub tasks : Table
tasks = record {
  name = "tasks";
  columns =
      required "id" string
      ∷ required "project_id" string
      ∷ required "prompt" text_type
      ∷ required "context" json
      ∷ required "is_gold" boolean
      ∷ optional "gold_answer" json
      ∷ required "status" string
      ∷ optional "assigned_to" string
      ∷ required "created_at" timestamp
      ∷ [];
  foreign_keys = ("assigned_to", "experts") ∷ ("project_id", "projects") ∷ [];
  primary_key = "id";
  unique = [];
}

abbrev pub submissions : Table
submissions = record {
  name = "submissions";
  columns =
      required "id" string
      ∷ required "task_id" string
      ∷ required "expert_id" string
      ∷ required "version" integer
      ∷ required "content" json
      ∷ required "status" string
      ∷ required "sampled_for_human_review" boolean
      ∷ required "created_at" timestamp
      ∷ required "updated_at" timestamp
      ∷ [];
  foreign_keys = ("expert_id", "experts") ∷ ("task_id", "tasks") ∷ [];
  primary_key = "id";
  unique = [];
}

abbrev pub reviews : Table
reviews = record {
  name = "reviews";
  columns =
      required "id" string
      ∷ required "submission_id" string
      ∷ required "kind" string
      ∷ required "reviewer_id" string
      ∷ required "verdict" string
      ∷ optional "overall_score" float
      ∷ required "detail" json
      ∷ required "created_at" timestamp
      ∷ [];
  foreign_keys = ("submission_id", "submissions") ∷ [];
  primary_key = "id";
  unique = [];
}

abbrev pub usage_events : Table
usage_events = record {
  name = "usage_events";
  columns =
      required "id" string
      ∷ required "firm_id" string
      ∷ required "project_id" string
      ∷ required "task_id" string
      ∷ required "submission_id" string
      ∷ required "kind" string
      ∷ required "quantity" integer
      ∷ required "unit_price_cents" integer
      ∷ required "amount_cents" integer
      ∷ required "currency" string
      ∷ optional "invoice_id" string
      ∷ required "created_at" timestamp
      ∷ [];
  foreign_keys =
      ("firm_id", "firms")
      ∷ ("invoice_id", "invoices")
      ∷ ("project_id", "projects")
      ∷ ("submission_id", "submissions")
      ∷ ("task_id", "tasks")
      ∷ [];
  primary_key = "id";
  unique = [];
}
