-- ===== src/Factory.antt =====
-- The requests to src/factory/api/main.py that write, and the commands of src/factory/cli.py, one after
-- the other: a request is one session, which commits if the endpoint returns (lines 54-59). A request
-- that only reads commits nothing.
pub mod Reachable
pub mod Trail
pub mod Billed
pub mod Registry
use human_data.Cli.Demo.Run.{Command, run_command}
use human_data.Api.Invoices.{
  generate_invoice, record_external_payment, create_invoice_checkout, stripe_webhook,
}
use human_data.Api.Oversight.{request_export, approve_export}
use human_data.Api.Accounts.{BootstrapIn, bootstrap, UserIn, create_user, revoke_user}
use human_data.Config.{Env}
use human_data.Store.{Db, Result, ok, err}
use human_data.Prelude.{String, Option}
use human_data.Export.Materialize.{Outside}
use human_data.Auth.{Credentials}
use human_data.Model.Entities.{Moment, Ident}
use human_data.Api.Firms.{FirmIn, create_firm, RateCardIn, create_rate_card}
use human_data.Api.Experts.{create_expert, ExpertIn, record_exam, ExamIn}
use human_data.Api.Projects.{create_project, ProjectIn, TaskIn, create_task, assign_task}
use human_data.Api.Submissions.{SubmissionIn, HumanReviewIn, create_submission, post_human_review}

-- The secret of a request that issues a key is the one that it draws.
pub data Request : Type 0 where
  bootstraps : BootstrapIn → String → Request
  creates_user : Credentials → UserIn → String → Request
  revokes_user : Credentials → Ident → Request
  creates_firm : Credentials → FirmIn → Request
  creates_rate_card : Credentials → Ident → RateCardIn → Request
  creates_expert : Credentials → ExpertIn → Request
  records_exam : Credentials → Ident → ExamIn → Request
  creates_project : Credentials → ProjectIn → Request
  creates_task : Credentials → Ident → TaskIn → Request
  assigns_task : Credentials → Ident → Ident → Request
  submits : Credentials → Ident → SubmissionIn → Request
  reviews : Credentials → Ident → HumanReviewIn → Request
  invoices : Credentials → Ident → Moment → Moment → Request
  opens_checkout : Credentials → Ident → String → String → Request
  records_payment : Credentials → Ident → String → Request
  delivers : String → Option String → Request
  requests_export : Credentials → Ident → Request
  approves_export : Credentials → Ident → Ident → Request

module _ {A : Type 0} where
  -- the tables that a session leaves
  abbrev pub committed : Db → Result (A × Db) → Db
  committed db (ok (a, after)) = after
  committed db (err e) = db

unfoldable pub serve : Env → Outside → Request → Db → Db
serve env outside (bootstraps body secret) db = committed db (bootstrap env body secret db)
serve env outside (creates_user c body secret) db = committed db (create_user env c body secret db)
serve env outside (revokes_user c id) db = committed db (revoke_user env c id db)
serve env outside (creates_firm c body) db = committed db (create_firm env c body db)
serve env outside (creates_rate_card c id body) db =
    committed db (create_rate_card env c id body db)
serve env outside (creates_expert c body) db = committed db (create_expert env c body db)
serve env outside (records_exam c id body) db = committed db (record_exam env c id body db)
serve env outside (creates_project c body) db = committed db (create_project env c body db)
serve env outside (creates_task c id body) db = committed db (create_task env c id body db)
serve env outside (assigns_task c task_id expert_id) db =
    committed db (assign_task env c task_id expert_id db)
serve env outside (submits c id body) db = committed db (create_submission env c id body db)
serve env outside (reviews c id body) db = committed db (post_human_review env c id body db)
serve env outside (invoices c id s e) db = committed db (generate_invoice env c id s e db)
serve env outside (opens_checkout c id s t) db =
    committed db (create_invoice_checkout env c id s t db)
serve env outside (records_payment c id r) db = committed db (record_external_payment env c id r db)
serve env outside (delivers payload signature) db =
    committed db (stripe_webhook env payload signature db)
serve env outside (requests_export c id) db = committed db (request_export env c id db)
serve env outside (approves_export c id by) db =
    committed db (approve_export env outside c id by db)

-- One step: time passes, a request is served, or a command of the operators is run.
pub data Step (env : Env) (outside : Outside) : Db → Db → Type 0 where
  waits : (db : Db) (moment : Moment) → Step env outside db (record db { clock = moment })
  serves : (db : Db) (request : Request) → Step env outside db (serve env outside request db)
  runs : (db : Db) (command : Command) → Step env outside db (run_command env outside command db)

pub data Reach (env : Env) (outside : Outside) : Db → Db → Type 0 where
  here : (db : Db) → Reach env outside db db
  later : (a b c : Db) → Reach env outside a b → Step env outside b c → Reach env outside a c
