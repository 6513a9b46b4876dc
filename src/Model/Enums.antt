-- ===== src/Model/Enums.antt =====
-- The enumerations of src/factory/models.py. Each is a `str` enum, and its columns hold the
-- `.value` of a member; the model keeps the member, and the `_value` functions give the text where
-- the code writes it into a payload or a name.
use human_data.Prelude.{String, Bool, true, false}

pub data Role : Type 0 where
  admin ops reviewer expert client : Role

pub data BillingMode : Type 0 where
  external stripe : BillingMode

-- `opened` is the member OPEN
pub data InvoiceStatus : Type 0 where
  draft issued_external opened paid void : InvoiceStatus

pub data DomainTrack : Type 0 where
  financial_accounting audit_assurance tax financial_analysis managerial_accounting : DomainTrack

pub data TaskType : Type 0 where
  sft preference eval : TaskType

pub data ExpertStatus : Type 0 where
  pending qualified suspended : ExpertStatus

-- `unassigned` is the member OPEN
pub data TaskStatus : Type 0 where
  unassigned assigned completed : TaskStatus

pub data SubmissionStatus : Type 0 where
  submitted auto_check_failed auto_qc_pending human_review needs_revision : SubmissionStatus
  approved rejected : SubmissionStatus

pub data ReviewKind : Type 0 where
  deterministic auto_llm human gold_check : ReviewKind

pub data Verdict : Type 0 where
  pass fail revise : Verdict

abbrev pub role_value : Role → String
role_value admin = "admin"
role_value ops = "ops"
role_value reviewer = "reviewer"
role_value expert = "expert"
role_value client = "client"

abbrev pub billing_mode_value : BillingMode → String
billing_mode_value external = "external"
billing_mode_value stripe = "stripe"

abbrev pub track_value : DomainTrack → String
track_value financial_accounting = "financial_accounting"
track_value audit_assurance = "audit_assurance"
track_value tax = "tax"
track_value financial_analysis = "financial_analysis"
track_value managerial_accounting = "managerial_accounting"

abbrev pub task_type_value : TaskType → String
task_type_value sft = "sft"
task_type_value preference = "preference"
task_type_value eval = "eval"

abbrev pub expert_status_value : ExpertStatus → String
expert_status_value pending = "pending"
expert_status_value qualified = "qualified"
expert_status_value suspended = "suspended"

-- `==` on the texts of two members
abbrev pub track_eq : DomainTrack → DomainTrack → Bool
track_eq financial_accounting financial_accounting = true
track_eq audit_assurance audit_assurance = true
track_eq tax tax = true
track_eq financial_analysis financial_analysis = true
track_eq managerial_accounting managerial_accounting = true
track_eq _ _ = false

abbrev pub invoice_status_eq : InvoiceStatus → InvoiceStatus → Bool
invoice_status_eq draft draft = true
invoice_status_eq issued_external issued_external = true
invoice_status_eq opened opened = true
invoice_status_eq paid paid = true
invoice_status_eq void void = true
invoice_status_eq _ _ = false

abbrev pub role_eq : Role → Role → Bool
role_eq admin admin = true
role_eq ops ops = true
role_eq reviewer reviewer = true
role_eq expert expert = true
role_eq client client = true
role_eq _ _ = false

abbrev pub expert_status_eq : ExpertStatus → ExpertStatus → Bool
expert_status_eq pending pending = true
expert_status_eq qualified qualified = true
expert_status_eq suspended suspended = true
expert_status_eq _ _ = false

abbrev pub submission_status_eq : SubmissionStatus → SubmissionStatus → Bool
submission_status_eq submitted submitted = true
submission_status_eq auto_check_failed auto_check_failed = true
submission_status_eq auto_qc_pending auto_qc_pending = true
submission_status_eq human_review human_review = true
submission_status_eq needs_revision needs_revision = true
submission_status_eq approved approved = true
submission_status_eq rejected rejected = true
submission_status_eq _ _ = false

abbrev pub task_type_eq : TaskType → TaskType → Bool
task_type_eq sft sft = true
task_type_eq preference preference = true
task_type_eq eval eval = true
task_type_eq _ _ = false

abbrev pub is_qualified : ExpertStatus → Bool
is_qualified qualified = true
is_qualified _ = false

abbrev pub is_approved : SubmissionStatus → Bool
is_approved approved = true
is_approved _ = false

abbrev pub is_human_review : SubmissionStatus → Bool
is_human_review human_review = true
is_human_review _ = false

abbrev pub is_pass : Verdict → Bool
is_pass pass = true
is_pass _ = false

abbrev pub is_paid : InvoiceStatus → Bool
is_paid paid = true
is_paid _ = false

abbrev pub is_void : InvoiceStatus → Bool
is_void void = true
is_void _ = false

abbrev pub is_draft : InvoiceStatus → Bool
is_draft draft = true
is_draft _ = false
