-- ===== src/Migrations/Models/Work.antt =====
-- src/factory/models.py: the tables of work and billing.
use human_data.Migrations.{
  Table, required, optional, string, text_type, integer, float, boolean, json, timestamp,
}
use human_data.Prelude.{[], ◌∷◌}

abbrev pub projects_model : Table
projects_model = record {
  name = "projects";
  columns =
      required "id" string
      ∷ required "name" string
      ∷ required "firm_id" string
      ∷ required "track" string
      ∷ required "task_type" string
      ∷ required "guidelines" text_type
      ∷ required "rubric_id" string
      ∷ required "created_by" string
      ∷ required "created_at" timestamp
      ∷ [];
  foreign_keys = ("firm_id", "firms") ∷ [];
  primary_key = "id";
  unique = [];
}

abbrev pub tasks_model : Table
tasks_model = record {
  name = "tasks";
  columns =
      required "id" string
      ∷ required "project_id" string
      ∷ required "prompt" text_type
      ∷ required "context" json
      ∷ required "is_gold" boolean
      ∷ optional "gold_answer" json
      ∷ required "status" string
      ∷ optional "assigned_to" string
      ∷ required "created_at" timestamp
      ∷ [];
  foreign_keys = ("project_id", "projects") ∷ ("assigned_to", "experts") ∷ [];
  primary_key = "id";
  unique = [];
}

abbrev pub submissions_model : Table
submissions_model = record {
  name = "submissions";
  columns =
      required "id" string
      ∷ required "task_id" string
      ∷ required "expert_id" string
      ∷ required "version" integer
      ∷ required "content" json
      ∷ required "status" string
      ∷ required "sampled_for_human_review" boolean
      ∷ required "created_at" timestamp
      ∷ required "updated_at" timestamp
      ∷ [];
  foreign_keys = ("task_id", "tasks") ∷ ("expert_id", "experts") ∷ [];
  primary_key = "id";
  unique = [];
}

abbrev pub reviews_model : Table
reviews_model = record {
  name = "reviews";
  columns =
      required "id" string
      ∷ required "submission_id" string
      ∷ required "kind" string
      ∷ required "reviewer_id" string
      ∷ required "verdict" string
      ∷ optional "overall_score" float
      ∷ required "detail" json
      ∷ required "created_at" timestamp
      ∷ [];
  foreign_keys = ("submission_id", "submissions") ∷ [];
  primary_key = "id";
  unique = [];
}

abbrev pub usage_events_model : Table
usage_events_model = record {
  name = "usage_events";
  columns =
      required "id" string
      ∷ required "firm_id" string
      ∷ required "project_id" string
      ∷ required "task_id" string
      ∷ required "submission_id" string
      ∷ required "kind" string
      ∷ required "quantity" integer
      ∷ required "unit_price_cents" integer
      ∷ required "amount_cents" integer
      ∷ required "currency" string
      ∷ optional "invoice_id" string
      ∷ required "created_at" timestamp
      ∷ [];
  foreign_keys =
      ("firm_id", "firms")
      ∷ ("project_id", "projects")
      ∷ ("task_id", "tasks")
      ∷ ("submission_id", "submissions")
      ∷ ("invoice_id", "invoices")
      ∷ [];
  primary_key = "id";
  unique = [];
}

abbrev pub invoices_model : Table
invoices_model = record {
  name = "invoices";
  columns =
      required "id" string
      ∷ required "number" string
      ∷ required "firm_id" string
      ∷ required "mode" string
      ∷ required "period_start" timestamp
      ∷ required "period_end" timestamp
      ∷ required "subtotal_cents" integer
      ∷ required "currency" string
      ∷ required "status" string
      ∷ required "line_items" json
      ∷ optional "stripe_invoice_id" string
      ∷ optional "hosted_invoice_url" string
      ∷ optional "checkout_session_id" string
      ∷ optional "external_paid_reference" string
      ∷ required "issued_by" string
      ∷ optional "issued_at" timestamp
      ∷ optional "paid_at" timestamp
      ∷ required "created_at" timestamp
      ∷ [];
  foreign_keys = ("firm_id", "firms") ∷ [];
  primary_key = "id";
  unique = "number" ∷ [];
}

abbrev pub export_batches_model : Table
export_batches_model = record {
  name = "export_batches";
  columns =
      required "id" string
      ∷ required "project_id" string
      ∷ required "requested_by" string
      ∷ optional "approved_by" string
      ∷ optional "path" string
      ∷ required "manifest" json
      ∷ required "status" string
      ∷ required "created_at" timestamp
      ∷ [];
  foreign_keys = ("project_id", "projects") ∷ [];
  primary_key = "id";
  unique = [];
}
