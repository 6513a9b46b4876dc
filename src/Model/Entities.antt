-- ===== src/Model/Entities.antt =====
-- The tables of src/factory/models.py, a record for a row. An id is a text drawn by uuid4, or
-- given from outside, that the code only compares: it is kept as its number. A moment is a number
-- of microseconds. A score is a decimal in ten-thousandths.
use human_data.Prelude.{ℕ, String, Bool, Option, List}
use human_data.Model.Enums.{
  Role, BillingMode, InvoiceStatus, DomainTrack, TaskType, ExpertStatus, TaskStatus,
  SubmissionStatus, ReviewKind, Verdict,
}
use human_data.Model.Json.{Fields}

abbrev pub Ident : Type 0
Ident = ℕ

abbrev pub Moment : Type 0
Moment = ℕ

abbrev pub Score : Type 0
Score = ℕ

-- Who acts or reviews: a person's id, or one of the fixed texts of the engine.
pub data Principal : Type 0 where
  ident : Ident → Principal
  validators_v1 qc_engine auto_qc_claude auto_qc_heuristic_v1 : Principal
  billing_engine stripe_webhook : Principal

-- Ids and addresses that a payment gateway gives out: the live one's, or those that the offline
-- gateway makes of an id of ours.
pub data StripeId : Type 0 where
  live : String → StripeId
  cus_fake in_fake cs_fake : Ident → StripeId

pub data Url : Type 0 where
  address : String → Url
  invoice_example checkout_example : StripeId → Url

pub record Firm : Type 0 where
  pub id : Ident
  pub name : String
  pub billing_email : String
  pub billing_mode : BillingMode
  pub currency : String
  pub external_reference : String
  pub stripe_customer_id : Option StripeId
  pub created_at : Moment

pub record User : Type 0 where
  pub id : Ident
  pub name : String
  pub email : String
  pub role : Role
  pub firm_id : Option Ident
  pub expert_id : Option Ident
  pub active : Bool
  pub created_at : Moment

-- `key_hash` is the digest of the key, as a number
pub record ApiKey : Type 0 where
  pub id : Ident
  pub user_id : Ident
  pub prefix : String
  pub key_hash : ℕ
  pub active : Bool
  pub created_at : Moment
  pub last_used_at : Option Moment

pub record Expert : Type 0 where
  pub id : Ident
  pub name : String
  pub email : String
  pub credentials : List String
  pub status : ExpertStatus
  pub is_reviewer : Bool
  pub quality_score : Score
  pub approved_count : ℕ
  pub gold_pass_count : ℕ
  pub gold_fail_count : ℕ
  pub created_at : Moment

pub record Qualification : Type 0 where
  pub id : Ident
  pub expert_id : Ident
  pub track : DomainTrack
  pub exam_score : Score
  pub passed : Bool
  pub granted_at : Moment

pub record Project : Type 0 where
  pub id : Ident
  pub name : String
  pub firm_id : Ident
  pub track : DomainTrack
  pub task_type : TaskType
  pub guidelines : String
  pub rubric_id : String
  pub created_by : Ident
  pub created_at : Moment

pub record Task : Type 0 where
  pub id : Ident
  pub project_id : Ident
  pub prompt : String
  pub context : Fields
  pub is_gold : Bool
  pub gold_answer : Option Fields
  pub status : TaskStatus
  pub assigned_to : Option Ident
  pub created_at : Moment

pub record Submission : Type 0 where
  pub id : Ident
  pub task_id : Ident
  pub expert_id : Ident
  pub version : ℕ
  pub content : Fields
  pub status : SubmissionStatus
  pub sampled_for_human_review : Bool
  pub created_at : Moment
  pub updated_at : Moment

pub record Review : Type 0 where
  pub id : Ident
  pub submission_id : Ident
  pub kind : ReviewKind
  pub reviewer_id : Principal
  pub verdict : Verdict
  pub overall_score : Option Score
  pub detail : Fields
  pub created_at : Moment

-- A digest is the number that its 64 hexadecimal digits spell.
pub record AuditEvent : Type 0 where
  pub seq : ℕ
  pub actor : Principal
  pub action : String
  pub entity_type : String
  pub entity_id : Ident
  pub payload : Fields
  pub prev_hash : ℕ
  pub hash : ℕ
  pub created_at : Moment

pub record RateCard : Type 0 where
  pub id : Ident
  pub firm_id : Option Ident
  pub task_type : TaskType
  pub unit_price_cents : ℕ
  pub active : Bool
  pub created_at : Moment

-- the column `kind` only ever holds "approved_record"
pub record UsageEvent : Type 0 where
  pub id : Ident
  pub firm_id : Ident
  pub project_id : Ident
  pub task_id : Ident
  pub submission_id : Ident
  pub kind : String
  pub quantity : ℕ
  pub unit_price_cents : ℕ
  pub amount_cents : ℕ
  pub currency : String
  pub invoice_id : Option Ident
  pub created_at : Moment

-- one row of the column `line_items`, a list of dicts
pub record LineItem : Type 0 where
  pub project_id : Ident
  pub kind : String
  pub unit_price_cents : ℕ
  pub quantity : ℕ
  pub amount_cents : ℕ

-- "HDF-{month}-{serial}"
pub record InvoiceNumber : Type 0 where
  pub month : ℕ
  pub serial : ℕ

-- `external_paid_reference`: the reference that a person entered, or "stripe-checkout:" and the
-- reference of the payment
pub data Reference : Type 0 where
  entered : String → Reference
  stripe_checkout : Option StripeId → Reference

pub record Invoice : Type 0 where
  pub id : Ident
  pub number : InvoiceNumber
  pub firm_id : Ident
  pub mode : BillingMode
  pub period_start : Moment
  pub period_end : Moment
  pub subtotal_cents : ℕ
  pub currency : String
  pub status : InvoiceStatus
  pub line_items : List LineItem
  pub stripe_invoice_id : Option StripeId
  pub hosted_invoice_url : Option Url
  pub checkout_session_id : Option StripeId
  pub external_paid_reference : Option Reference
  pub issued_by : Ident
  pub issued_at : Option Moment
  pub paid_at : Option Moment
  pub created_at : Moment

pub data BatchStatus : Type 0 where
  pending_approval released : BatchStatus

-- `manifest`: the control report of the request, and what the release adds
pub record ExportBatch : Type 0 where
  pub id : Ident
  pub project_id : Ident
  pub requested_by : Ident
  pub approved_by : Option Ident
  pub path : Option String
  pub manifest : Fields
  pub status : BatchStatus
  pub created_at : Moment

-- What the hash of an audit event covers: the dict that audit._event_hash serialises.
pub record EventBody : Type 0 where
  pub prev : ℕ
  pub actor : Principal
  pub action : String
  pub entity_type : String
  pub entity_id : Ident
  pub payload : Fields
