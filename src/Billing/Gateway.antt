-- ===== src/Billing/Gateway.antt =====
-- src/factory/billing/stripe_gateway.py: the live gateway over the Stripe library, the offline
-- stand-in, and the choice between them. An id that the stand-in draws is taken to be as distinct
-- as the uuid that it abbreviates.
use human_data.Model.Entities.{
  cus_fake, in_fake, cs_fake, invoice_example, checkout_example, StripeId, Firm, Invoice, Url,
}
use human_data.Store.{Action, or_raise, ◌>>=◌, gateway_failed, new_id, pure, ◌>>◌, raise_if, http}
use human_data.Prelude.{Option, Bool, not, if◌then◌else◌, some, str_eq, String, none}
use human_data.Config.{Env, StripeEvent}

-- `get_gateway` gives the live gateway
unfoldable pub is_live : Env → Bool
is_live env = not (str_eq env.settings.stripe_secret_key "")

abbrev or_create : Option StripeId → Option StripeId → Option StripeId
or_create (some customer) created = some customer
or_create none created = created

unfoldable pub ensure_customer : Env → Firm → Action StripeId
unfolding is_live
ensure_customer env firm =
    if is_live env
    then or_raise (or_create firm.stripe_customer_id (env.stripe.create_customer firm))
        gateway_failed
    else or_raise (or_create firm.stripe_customer_id (some (cus_fake firm.id))) gateway_failed

abbrev fake_push : Action (StripeId × Url)
fake_push = do k ← new_id; pure (in_fake k, invoice_example (in_fake k))

unfoldable pub push_invoice : Env → Firm → Invoice → Action (StripeId × Url)
unfolding is_live
push_invoice env firm invoice =
    if is_live env
    then or_raise (env.stripe.issue firm.stripe_customer_id invoice) gateway_failed
    else fake_push

abbrev fake_session : Action (StripeId × Url)
fake_session = do k ← new_id; pure (cs_fake k, checkout_example (cs_fake k))

unfoldable pub create_checkout_session :
    Env → Firm → Invoice → String → String → Action (StripeId × Url)
unfolding is_live
create_checkout_session env firm invoice success_url cancel_url =
    if is_live env
    then or_raise (env.stripe.create_session firm invoice success_url cancel_url) gateway_failed
    else fake_session

-- `signature or ""`
abbrev or_empty : Option String → String
or_empty none = ""
or_empty (some s) = s

unfoldable pub live_parse_webhook : Env → String → Option String → Action StripeEvent
live_parse_webhook env payload signature = do
  raise_if (str_eq env.settings.stripe_webhook_secret "") (http 503)
  or_raise
      (env.stripe.construct_event payload (or_empty signature) env.settings.stripe_webhook_secret)
      (http 400)

unfoldable pub fake_parse_webhook : Env → String → Action StripeEvent
fake_parse_webhook env payload = do
  raise_if (not env.settings.auth_disabled) (http 503)
  or_raise (env.convert.load_event payload) (http 400)

-- `parse_webhook` of the gateway that `get_gateway` gives, with the responses that api/main.py gives
-- to its exceptions
unfoldable pub parse_webhook : Env → String → Option String → Action StripeEvent
unfolding is_live live_parse_webhook fake_parse_webhook
parse_webhook env payload signature =
    if is_live env then live_parse_webhook env payload signature else fake_parse_webhook env payload
