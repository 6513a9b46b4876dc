-- ===== src/Migrations/Baseline/Accounts.antt =====
-- migrations/versions/33f7521db9e0_baseline_schema_v0_2.py: the tables of people, firms and keys.
use human_data.Migrations.{
  Table, required, optional, string, integer, float, boolean, json, timestamp,
}
use human_data.Prelude.{[], ◌∷◌}

abbrev pub audit_events : Table
audit_events = record {
  name = "audit_events";
  columns =
      required "seq" integer
      ∷ required "id" string
      ∷ required "actor" string
      ∷ required "action" string
      ∷ required "entity_type" string
      ∷ required "entity_id" string
      ∷ required "payload" json
      ∷ required "prev_hash" string
      ∷ required "hash" string
      ∷ required "created_at" timestamp
      ∷ [];
  foreign_keys = [];
  primary_key = "seq";
  unique = "id" ∷ [];
}

abbrev pub experts : Table
experts = record {
  name = "experts";
  columns =
      required "id" string
      ∷ required "name" string
      ∷ required "email" string
      ∷ required "credentials" json
      ∷ required "status" string
      ∷ required "is_reviewer" boolean
      ∷ required "quality_score" float
      ∷ required "approved_count" integer
      ∷ required "gold_pass_count" integer
      ∷ required "gold_fail_count" integer
      ∷ required "created_at" timestamp
      ∷ [];
  foreign_keys = [];
  primary_key = "id";
  unique = "email" ∷ [];
}

abbrev pub firms : Table
firms = record {
  name = "firms";
  columns =
      required "id" string
      ∷ required "name" string
      ∷ required "billing_email" string
      ∷ required "billing_mode" string
      ∷ required "currency" string
      ∷ required "external_reference" string
      ∷ optional "stripe_customer_id" string
      ∷ required "created_at" timestamp
      ∷ [];
  foreign_keys = [];
  primary_key = "id";
  unique = "name" ∷ [];
}

abbrev pub qualifications : Table
qualifications = record {
  name = "qualifications";
  columns =
      required "id" string
      ∷ required "expert_id" string
      ∷ required "track" string
      ∷ required "exam_score" float
      ∷ required "passed" boolean
      ∷ required "granted_at" timestamp
      ∷ [];
  foreign_keys = ("expert_id", "experts") ∷ [];
  primary_key = "id";
  unique = [];
}

abbrev pub rate_cards : Table
rate_cards = record {
  name = "rate_cards";
  columns =
      required "id" string
      ∷ optional "firm_id" string
      ∷ required "task_type" string
      ∷ required "unit_price_cents" integer
      ∷ required "active" boolean
      ∷ required "created_at" timestamp
      ∷ [];
  foreign_keys = ("firm_id", "firms") ∷ [];
  primary_key = "id";
  unique = [];
}

abbrev pub users : Table
users = record {
  name = "users";
  columns =
      required "id" string
      ∷ required "name" string
      ∷ required "email" string
      ∷ required "role" string
      ∷ optional "firm_id" string
      ∷ optional "expert_id" string
      ∷ required "active" boolean
      ∷ required "created_at" timestamp
      ∷ [];
  foreign_keys = ("expert_id", "experts") ∷ ("firm_id", "firms") ∷ [];
  primary_key = "id";
  unique = "email" ∷ [];
}

abbrev pub api_keys : Table
api_keys = record {
  name = "api_keys";
  columns =
      required "id" string
      ∷ required "user_id" string
      ∷ required "prefix" string
      ∷ required "key_hash" string
      ∷ required "active" boolean
      ∷ required "created_at" timestamp
      ∷ optional "last_used_at" timestamp
      ∷ [];
  foreign_keys = ("user_id", "users") ∷ [];
  primary_key = "id";
  unique = "key_hash" ∷ [];
}
