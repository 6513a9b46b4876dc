-- ===== src/Billing/Invariant.antt =====
-- What an invariant of the tables has to be kept by, so that all operations of
-- src/factory/qc/engine.py and src/factory/billing/service.py keep it.
use human_data.Config.{Env}
use human_data.Store.{Db, new_id, modify}
use human_data.Store.Keeps.{Keeps}
use human_data.Model.Entities.{Principal, Ident, Project, Task, Submission, UsageEvent, Moment}
use human_data.Prelude.{String, ◌≡◌, Bool}
use human_data.Model.Json.{Fields}
use human_data.Audit.{record_event}
use human_data.Billing.Metering.{record_approved_record}
use human_data.Billing.Invoicing.{attach}

pub record Invariant (env : Env) (P : Db → Type 0) : Type 0 where
  pub keeps_new_id : Keeps P new_id
  pub keeps_record_event :
      (actor : Principal) (action entity_type : String) (entity_id : Ident) (payload : Fields)
      → Keeps P (record_event env actor action entity_type entity_id payload)
  -- a write to a table other than the trail, the usage, the rate cards and the users
  pub keeps_write :
      (f : Db → Db)
      → ((db : Db) → (f db).audit_events ≡ db.audit_events)
      → ((db : Db) → (f db).usage_events ≡ db.usage_events)
      → ((db : Db) → (f db).rate_cards ≡ db.rate_cards)
      → ((db : Db) → (f db).users ≡ db.users)
      → Keeps P (modify f)
  pub keeps_metering :
      (project : Project) (task : Task) (sub : Submission)
      → Keeps P (record_approved_record env project task sub)
  pub keeps_attach :
      (id : Ident) (due : UsageEvent → Bool)
      → Keeps P (modify (λ db. record db { usage_events = attach id due db.usage_events }))
  pub keeps_tick : (moment : Moment) (db : Db) → P db → P (record db { clock = moment })
