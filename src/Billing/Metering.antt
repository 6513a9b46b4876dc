-- ===== src/Billing/Metering.antt =====
-- Metering in src/factory/billing/service.py: prices, and one usage event for an approved record.
pub mod Once
use human_data.Prelude.{
  String, Option, List, newest, ℕ, Bool, opt_eq, some, select, ◌==◌, ◌&&◌, none, if◌then◌else◌,
  str_eq, ◌++◌, ◌∷◌, [],
}
use human_data.Config.{Env}
use human_data.Model.Entities.{
  Ident, RateCard, Project, UsageEvent, Task, Submission, Firm, billing_engine,
}
use human_data.Model.Enums.{TaskType, task_type_eq}
use human_data.Store.{
  Action, ◌>>=◌, pure, gets, or_raise, one_or_none, find, attribute_error, new_id, ◌>>◌, modify,
}
use human_data.Audit.{record_event}
use human_data.Model.Json.{field, nat, end}

abbrev pub is_card_for : Option Ident → TaskType → RateCard → Bool
is_card_for scope task_type card =
    opt_eq card.firm_id scope && task_type_eq card.task_type task_type && card.active

-- the newest active card of a firm, or of none
abbrev pub card_for : Option Ident → TaskType → List RateCard → Option RateCard
card_for scope task_type cards =
    newest (λ c. c.created_at) (select (is_card_for scope task_type) cards)

-- the loop over the two scopes
abbrev pub price_of : Option RateCard → Option RateCard → ℕ → ℕ
price_of (some card) _ fallback = card.unit_price_cents
price_of none (some card) fallback = card.unit_price_cents
price_of none none fallback = fallback

unfoldable pub resolve_unit_price_cents : Env → List RateCard → Ident → TaskType → ℕ
resolve_unit_price_cents env cards firm_id task_type =
    price_of (card_for (some firm_id) task_type cards) (card_for none task_type cards)
      (env.settings.default_rates_cents task_type)

abbrev pub approved_record : String
approved_record = "approved_record"

abbrev pub is_metered : Ident → UsageEvent → Bool
is_metered task_id ev = ev.task_id == task_id && str_eq ev.kind approved_record

-- the branch in which no event stands for the task
unfoldable pub meter : Env → Project → Task → Submission → Action (Option UsageEvent)
unfolding resolve_unit_price_cents
meter env project task submission = do
  firms ← gets (λ db. db.firms)
  firm ← or_raise (find (λ (f : Firm). f.id) project.firm_id firms) attribute_error
  cards ← gets (λ db. db.rate_cards)
  now ← gets (λ db. db.clock)
  let price = resolve_unit_price_cents env cards firm.id project.task_type
  id ← new_id
  let ev : UsageEvent = record {
    id = id;
    firm_id = firm.id;
    project_id = project.id;
    task_id = task.id;
    submission_id = submission.id;
    kind = approved_record;
    quantity = 1;
    unit_price_cents = price;
    amount_cents = price;
    currency = firm.currency;
    invoice_id = none;
    created_at = now;
  }
  modify (λ db. record db { usage_events = db.usage_events ++ ev ∷ [] })
  record_event env billing_engine "usage.recorded" "usage_event" ev.id (
      field "firm_id" (nat firm.id)
        (field "task_id" (nat task.id) (field "amount_cents" (nat price) end)))
  pure (some ev)

abbrev pub unless_metered :
    Option UsageEvent → Action (Option UsageEvent) → Action (Option UsageEvent)
unless_metered (some ev) rest = pure none
unless_metered none rest = rest

unfoldable pub record_approved_record :
    Env → Project → Task → Submission → Action (Option UsageEvent)
unfolding meter
record_approved_record env project task submission = if task.is_gold then pure none else do
  rows ← gets (λ db. select (is_metered task.id) db.usage_events)
  existing ← one_or_none rows
  unless_metered existing (meter env project task submission)
