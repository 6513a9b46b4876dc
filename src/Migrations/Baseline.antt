-- ===== src/Migrations/Baseline.antt =====
-- migrations/versions/33f7521db9e0_baseline_schema_v0_2.py: the two functions of the migration.
pub mod Accounts
pub mod Work
use human_data.Migrations.Baseline.Accounts.{
  audit_events, experts, firms, qualifications, rate_cards, users, api_keys,
}
use human_data.Migrations.Baseline.Work.{
  invoices, projects, export_batches, tasks, submissions, reviews, usage_events,
}
use human_data.Migrations.{Table, Op, create_table, drop_table}
use human_data.Prelude.{List, [], ◌∷◌, map}

-- `upgrade`, the tables that it creates first
abbrev pub baseline_tables : List Table
baseline_tables =
    audit_events ∷ experts ∷ firms ∷ invoices ∷ projects ∷ qualifications ∷ rate_cards ∷ users
    ∷ api_keys ∷ export_batches ∷ tasks ∷ submissions ∷ reviews ∷ usage_events ∷ []

abbrev pub baseline_upgrade : List Op
baseline_upgrade = map create_table baseline_tables

-- `downgrade`
abbrev pub baseline_downgrade : List Op
baseline_downgrade =
    drop_table "usage_events"
    ∷ drop_table "reviews"
    ∷ drop_table "submissions"
    ∷ drop_table "tasks"
    ∷ drop_table "export_batches"
    ∷ drop_table "api_keys"
    ∷ drop_table "users"
    ∷ drop_table "rate_cards"
    ∷ drop_table "qualifications"
    ∷ drop_table "projects"
    ∷ drop_table "invoices"
    ∷ drop_table "firms"
    ∷ drop_table "experts"
    ∷ drop_table "audit_events"
    ∷ []
