-- ===== src/Migrations/Models.antt =====
-- The tables that the mappings of src/factory/models.py describe. A column may be null where its
-- annotation allows None.
pub mod Accounts
pub mod Work
use human_data.Migrations.Models.Accounts.{
  firms_model, users_model, api_keys_model, experts_model, qualifications_model, audit_events_model,
  rate_cards_model,
}
use human_data.Migrations.Models.Work.{
  projects_model, tasks_model, submissions_model, reviews_model, usage_events_model, invoices_model,
  export_batches_model,
}
use human_data.Migrations.{Table}
use human_data.Prelude.{List, [], ◌∷◌}

-- `Base.metadata`
abbrev pub model_tables : List Table
model_tables =
    firms_model ∷ users_model ∷ api_keys_model ∷ experts_model ∷ qualifications_model
    ∷ projects_model ∷ tasks_model ∷ submissions_model ∷ reviews_model ∷ audit_events_model
    ∷ rate_cards_model ∷ usage_events_model ∷ invoices_model ∷ export_batches_model ∷ []
