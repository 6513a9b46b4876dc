-- ===== src/Config.antt =====
-- src/factory/config.py, and what the program reaches outside itself: hashing, the tie of a
-- rounding, the regular expressions, the reviewer model and the payment gateway. `Env` gathers
-- these as parameters of the model.
pub mod Environment
use human_data.Prelude.{ℕ, String, Bool, false, Option, List}
use human_data.Model.Enums.{TaskType}
use human_data.Model.Json.{Fields, Json}
use human_data.Model.Entities.{Ident, Score, EventBody, StripeId, Url, Firm, Invoice, Moment}
use human_data.Prelude.Int.{ℤ}

-- Thresholds, rates and scores are in ten-thousandths, prices in cents.
pub record Settings : Type 0 where
  pub qc_model : String
  pub qc_offline : Bool
  pub qc_pass_threshold : Score
  pub qc_gray_threshold : Score
  pub sampling_new : ℕ
  pub sampling_standard : ℕ
  pub sampling_trusted : ℕ
  pub trusted_score : Score
  pub trusted_min_approved : ℕ
  pub score_ewma_alpha : ℕ
  pub gold_fail_penalty : ℕ
  pub auth_disabled : Bool
  pub currency : String
  pub default_rates_cents : TaskType → ℕ
  pub rate_limit_per_minute : ℕ
  pub stripe_secret_key : String
  pub stripe_webhook_secret : String

abbrev pub default_rates : TaskType → ℕ
default_rates TaskType.sft = 12000
default_rates TaskType.preference = 15000
default_rates TaskType.eval = 18000

-- `Settings()` where no environment variable is set
abbrev pub default_settings : Settings
default_settings = record {
  qc_model = "claude-opus-4-8";
  qc_offline = false;
  qc_pass_threshold = 40000;
  qc_gray_threshold = 30000;
  sampling_new = 10000;
  sampling_standard = 3500;
  sampling_trusted = 1000;
  trusted_score = 42000;
  trusted_min_approved = 20;
  score_ewma_alpha = 3000;
  gold_fail_penalty = 7500;
  auth_disabled = false;
  currency = "usd";
  default_rates_cents = default_rates;
  rate_limit_per_minute = 120;
  stripe_secret_key = "";
  stripe_webhook_secret = "";
}

-- The flags that a review may carry (qc/auto_reviewer.py).
pub data Flag : Type 0 where
  calculation_error fabricated_citation hallucination_risk pii : Flag
  style_issue incomplete weak_contrast offline_fallback : Flag

-- A row of `criterion_scores`.
pub record CriterionScore : Type 0 where
  pub criterion : String
  pub score : Score

-- What the model answers: a refusal, or the parsed JSON.
pub data ClaudeReply : Type 0 where
  refusal : ClaudeReply
  reply : List CriterionScore → List Flag → Bool → String → ClaudeReply

pub record ReviewRequest : Type 0 where
  pub task_prompt : String
  pub task_context : Fields
  pub task_type : TaskType
  pub content : Fields

-- The regular expressions of validators.py and the searches that the code makes with them; the
-- lists are the numbers in the groups, or the digits of a match, in the order of `finditer`.
pub record Patterns : Type 0 where
  pub ssn : List ℕ → Bool
  pub ein : List ℕ → Bool
  pub email : List ℕ → Bool
  pub phone : List ℕ → Bool
  pub card : List ℕ → List (List ℕ)
  pub placeholder : List ℕ → Bool
  pub asc : List ℕ → List ℕ
  pub ifrs : List ℕ → List ℕ
  pub ias : List ℕ → List ℕ

-- The parts of a webhook event that the code reads: `type`, and of `data.object` the `id`, the
-- `payment_intent` and `metadata.hdf_invoice_id`.
pub record StripeEvent : Type 0 where
  pub etype : String
  pub object_id : Option StripeId
  pub payment_intent : Option StripeId
  pub hdf_invoice_id : Option Ident

-- A float that an amount becomes: in ten-thousandths, an infinity, of which the positive one is
-- `true`, or not a number.
pub data Amount : Type 0 where
  finite : ℤ → Amount
  infinite : Bool → Amount
  nan : Amount

-- Conversions of Python's between values and texts.
pub record Convert : Type 0 where
  -- `float(s)`; `none` is ValueError
  pub float_text : String → Option Amount
  -- `lower()` of a text that is not all ASCII, and whether `\w` matches a character beyond ASCII
  pub lower_text : List ℕ → List ℕ
  pub is_word : ℕ → Bool
  -- `str(v)` of a value that is no text
  pub str_value : Json → List ℕ
  -- whether two amounts a cent apart come out above the tolerance in binary fractions
  pub cent_is_over : ℤ → ℤ → Bool
  -- `f"{when:%Y%m}"`, as a number
  pub year_month : Moment → ℕ
  -- `json.loads` of a webhook's payload, if it is an event; `none` is an exception
  pub load_event : String → Option StripeEvent

-- The calls of the Stripe library that `LiveStripeGateway` makes; `none` is an exception. `issue`
-- stands for the calls that create, finalise and send an invoice for a customer.
pub record Stripe : Type 0 where
  pub create_customer : Firm → Option StripeId
  pub issue : Option StripeId → Invoice → Option (StripeId × Url)
  pub create_session : Firm → Invoice → String → String → Option (StripeId × Url)
  -- `Webhook.construct_event`, of a payload, a signature and the secret
  pub construct_event : String → String → String → Option StripeEvent

pub record Env : Type 0 where
  pub settings : Settings
  -- sha256 of a key, as a number
  pub key_digest : String → ℕ
  -- the id "dev-admin"
  pub dev_admin : Ident
  -- sha256 of the canonical JSON of an event
  pub event_hash : EventBody → ℕ
  -- the first 8 hexadecimal digits of the sha256 of an id
  pub id_prefix : Ident → ℕ
  -- sha256 of the normalised main text of a submission
  pub text_hash : List ℕ → ℕ
  -- whether a quotient with this numerator and denominator that falls half way is rounded up: in
  -- the program that depends on the binary fractions
  pub rounds_up : ℕ → ℕ → Bool
  pub patterns : Patterns
  pub convert : Convert
  -- an Anthropic credential is in the environment
  pub credential : Bool
  -- a call of the model; `none` is any exception of it
  pub claude : ReviewRequest → Option ClaudeReply
  pub stripe : Stripe
