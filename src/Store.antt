-- ===== src/Store.antt =====
-- The database session: the tables, the errors that a request can end in, and actions. A request
-- that raises commits nothing, since api/main.py closes its session (lines 54-59), so an action
-- gives the new tables only when it returns.
pub mod Engine
pub mod Keeps
pub mod Ensures
pub mod Raises
pub mod Rows
use human_data.Prelude.{
  ℕ, ◌+◌, String, Bool, Option, none, some, List, [], ◌∷◌, ◌++◌, ◌==◌, if◌then◌else◌, true, false,
}
use human_data.Model.Entities.{
  Ident, Moment, Firm, User, ApiKey, Expert, Qualification, Project, Task, Submission, Review,
  AuditEvent, RateCard, UsageEvent, Invoice, ExportBatch,
}

-- The tables. `next_id` counts the ids that uuid4 has drawn, which are all different. `clock` is
-- the moment of the request, which every read of the clock in one request gives.
pub record Db : Type 0 where
  pub next_id : ℕ
  pub clock : Moment
  pub firms : List Firm
  pub users : List User
  pub api_keys : List ApiKey
  pub experts : List Expert
  pub qualifications : List Qualification
  pub projects : List Project
  pub tasks : List Task
  pub submissions : List Submission
  pub reviews : List Review
  pub audit_events : List AuditEvent
  pub rate_cards : List RateCard
  pub usage_events : List UsageEvent
  pub invoices : List Invoice
  pub export_batches : List ExportBatch

-- The control that a `ControlViolation` names.
pub data Control : Type 0 where
  c1 c2 c6 : Control

-- The exceptions, with the reason in place of the message. `attribute_error` is the use of a row
-- that `db.get` did not find; `multiple_results` is SQLAlchemy's.
pub data Error : Type 0 where
  control_violation : Control → Error
  attribute_error multiple_results integrity_error unknown_rubric key_error : Error
  other_expert not_in_human_review : Error
  no_usage stripe_managed not_payable relative_url gateway_failed : Error
  not_clean not_pending upload_failed : Error
  http : ℕ → Error

pub data Result (A : Type 0) : Type 0 where
  ok : A → Result A
  err : Error → Result A

abbrev pub is_ok : {A : Type 0} → Result A → Bool
is_ok (ok a) = true
is_ok (err e) = false

-- what a run returns, if it returns
abbrev pub returned : {A : Type 0} → Result (A × Db) → Option A
returned (ok (a, db)) = some a
returned (err e) = none

abbrev pub Action : Type 0 → Type 0
Action A = Db → Result (A × Db)

module _ {A : Type 0} where
  abbrev pub pure : A → Action A
  pure a db = ok (a, db)

  abbrev pub raise : Error → Action A
  raise e db = err e

  abbrev pub gets : (Db → A) → Action A
  gets f db = ok (f db, db)

  -- the use of a row that may be absent
  abbrev pub or_raise : Option A → Error → Action A
  or_raise none e = raise e
  or_raise (some a) e = pure a

module _ {A : Type 0} where
  -- `scalar_one_or_none`
  abbrev pub one_or_none : List A → Action (Option A)
  one_or_none [] = pure none
  one_or_none (x ∷ []) = pure (some x)
  one_or_none (x ∷ y ∷ xs) = raise multiple_results

module _ {A B : Type 0} where
  abbrev pub continue : Result (A × Db) → (A → Action B) → Result (B × Db)
  continue (err e) f = err e
  continue (ok (a, db)) f = f a db

  infixl 10 ◌>>=◌ ◌>>◌
  abbrev pub ◌>>=◌ : Action A → (A → Action B) → Action B
  ◌>>=◌ m f db = continue (m db) f

  abbrev pub ◌>>◌ : Action A → Action B → Action B
  ◌>>◌ m k = m >>= λ _. k

abbrev pub raise_if : Bool → Error → Action Unit
raise_if b e db = if b then err e else ok (tt, db)

abbrev pub modify : (Db → Db) → Action Unit
modify f db = ok (tt, f db)

-- `uuid4().hex`
abbrev pub new_id : Action Ident
new_id db = ok (db.next_id, record db { next_id = db.next_id + 1 })

module _ {A : Type 0} (id_of : A → Ident) where
  -- `db.get(Model, id)`
  abbrev pub find : Ident → List A → Option A
  find k [] = none
  find k (x ∷ xs) = let rest = find k xs in if id_of x == k then some x else rest

  -- The row of that id, as it stands after assignments to the attributes of its object.
  abbrev pub put : A → List A → List A
  put a [] = []
  put a (x ∷ xs) = (if id_of x == id_of a then a else x) ∷ put a xs
