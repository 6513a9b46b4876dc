-- ===== src/Api/Firms.antt =====
-- The firms and their prices in src/factory/api/main.py.
pub mod Prices
use human_data.Model.Enums.{TaskType, BillingMode, task_type_value, billing_mode_value}
use human_data.Prelude.{
  String, ℕ, Bool, List, Option, str_eq, ◌∷◌, if◌then◌else◌, not, some, select, ltb, true, map,
  false, [], is_some, ◌++◌, none,
}
use human_data.Config.{Env}
use human_data.Model.Entities.{Ident, Firm, RateCard, StripeId, ident}
use human_data.Auth.{Credentials, require_roles, assert_firm_access}
use human_data.Store.{Action, ◌>>=◌, ◌>>◌, modify, new_id, raise_if, gets, pure, one_or_none, http}
use human_data.Api.{internal, any_authenticated, admin_only, get_firm_or_404}
use human_data.Billing.Metering.{is_card_for}
use human_data.Audit.{record_event}
use human_data.Model.Json.{field, nat, text, end}

pub record FirmIn : Type 0 where
  pub name : String
  pub billing_email : String
  pub billing_mode : BillingMode
  pub currency : String
  pub external_reference : String

pub record RateCardIn : Type 0 where
  pub task_type : TaskType
  pub unit_price_cents : ℕ

pub record FirmOut : Type 0 where
  pub id : Ident
  pub name : String
  pub billing_email : String
  pub billing_mode : BillingMode
  pub currency : String
  pub external_reference : String
  pub stripe_customer_id : Option StripeId

-- `_firm_out`
abbrev pub firm_out : Firm → FirmOut
firm_out f = record {
  id = f.id;
  name = f.name;
  billing_email = f.billing_email;
  billing_mode = f.billing_mode;
  currency = f.currency;
  external_reference = f.external_reference;
  stripe_customer_id = f.stripe_customer_id;
}

abbrev pub has_name : String → Firm → Bool
has_name name f = str_eq f.name name

unfoldable pub create_firm : Env → Credentials → FirmIn → Action FirmOut
create_firm env credentials body = do
  actor ← require_roles env credentials admin_only
  rows ← gets (λ db. select (has_name body.name) db.firms)
  existing ← one_or_none rows
  raise_if (is_some existing) (http 409)
  id ← new_id
  now ← gets (λ db. db.clock)
  let firm : Firm = record {
    id = id;
    name = body.name;
    billing_email = body.billing_email;
    billing_mode = body.billing_mode;
    currency = body.currency;
    external_reference = body.external_reference;
    stripe_customer_id = none;
    created_at = now;
  }
  modify (λ db. record db { firms = db.firms ++ firm ∷ [] })
  record_event env (ident actor.id) "firm.created" "firm" firm.id (
      field "name" (text body.name)
        (field "billing_mode" (text (billing_mode_value body.billing_mode)) end))
  pure (firm_out firm)

unfoldable pub list_firms : Env → Credentials → Action (List FirmOut)
list_firms env credentials = do
  require_roles env credentials internal
  firms ← gets (λ db. db.firms)
  pure (map firm_out firms)

unfoldable pub get_firm : Env → Credentials → Ident → Action FirmOut
get_firm env credentials firm_id = do
  actor ← require_roles env credentials any_authenticated
  assert_firm_access actor firm_id
  firm ← get_firm_or_404 firm_id
  pure (firm_out firm)

-- the loop over the firm's active cards of the task type
unfoldable pub retire_cards : Ident → TaskType → List RateCard → List RateCard
retire_cards firm_id task_type [] = []
retire_cards firm_id task_type (card ∷ cards) =
    (if is_card_for (some firm_id) task_type card then record card { active = false } else card)
    ∷ retire_cards firm_id task_type cards

-- The old cards are retired and the new one is added.
unfoldable pub replace_card : Ident → RateCardIn → Action RateCard
unfolding retire_cards
replace_card firm_id body = do
  modify (λ db. record db { rate_cards = retire_cards firm_id body.task_type db.rate_cards })
  id ← new_id
  now ← gets (λ db. db.clock)
  let card : RateCard = record {
    id = id;
    firm_id = some firm_id;
    task_type = body.task_type;
    unit_price_cents = body.unit_price_cents;
    active = true;
    created_at = now;
  }
  modify (λ db. record db { rate_cards = db.rate_cards ++ card ∷ [] })
  pure card

unfoldable pub create_rate_card : Env → Credentials → Ident → RateCardIn → Action RateCard
unfolding replace_card
create_rate_card env credentials firm_id body = do
  actor ← require_roles env credentials admin_only
  raise_if (not (ltb 0 body.unit_price_cents)) (http 422)
  firm ← get_firm_or_404 firm_id
  card ← replace_card firm.id body
  record_event env (ident actor.id) "rate_card.created" "rate_card" card.id (
      field "firm_id" (nat firm.id) (
        field "task_type" (text (task_type_value body.task_type))
          (field "unit_price_cents" (nat body.unit_price_cents) end)))
  pure card
