-- ===== src/Factory/Reachable.antt =====
-- An invariant that the endpoints of src/factory/api/main.py keep holds after any sequence of them and
-- of the commands of src/factory/cli.py.
use human_data.Cli.Kept.{run_command-Kept}
use human_data.Factory.{runs}
use human_data.Api.Kept.{
  bootstrap-Keeps, generate_invoice-Keeps, create_invoice_checkout-Keeps,
  record_external_payment-Keeps, stripe_webhook-Keeps, request_export-Keeps, approve_export-Keeps,
  create_user-Keeps, revoke_user-Keeps, create_firm-Keeps, create_rate_card-Keeps,
  create_expert-Keeps, record_exam-Keeps, create_project-Keeps, create_task-Keeps,
  assign_task-Keeps, create_submission-Keeps, post_human_review-Keeps, Registers,
}
use human_data.Store.{Db, Action, Result, ok, err}
use human_data.Config.{Env}
use human_data.Export.Materialize.{Outside}
use human_data.Store.Keeps.{Keeps, Holds}
use human_data.Billing.Invariant.{Invariant}
use human_data.Factory.{
  Step, Reach, serve, committed, here, Request, waits, later, bootstraps, serves, creates_user,
  revokes_user, creates_firm, creates_rate_card, creates_expert, records_exam, creates_project,
  creates_task, assigns_task, submits, reviews, invoices, opens_checkout, records_payment, delivers,
  requests_export, approves_export,
}

module _ {A : Type 0} where
  committed-Holds :
      (P : Db → Type 0) (db : Db) (r : Result (A × Db)) → P db → Holds P r → P (committed db r)
  committed-Holds P db (ok (a, after)) p h = h
  committed-Holds P db (err e) p h = p

  pub committed-Keeps :
      (P : Db → Type 0) (m : Action A) (db : Db) → Keeps P m → P db → P (committed db (m db))
  committed-Keeps P m db k p = committed-Holds P db (m db) p (k.at db p)

module _ (env : Env) (outside : Outside) (P : Db → Type 0) (inv : Invariant env P)
    (reg : Registers P) where
  serve-Keeps : (request : Request) (db : Db) → P db → P (serve env outside request db)
  unfolding serve
  serve-Keeps (bootstraps body secret) db p =
      committed-Keeps P _ db (bootstrap-Keeps env P inv reg body secret) p
  serve-Keeps (creates_user c body secret) db p =
      committed-Keeps P _ db (create_user-Keeps env P inv reg c body secret) p
  serve-Keeps (revokes_user c id) db p =
      committed-Keeps P _ db (revoke_user-Keeps env P inv reg c id) p
  serve-Keeps (creates_firm c body) db p =
      committed-Keeps P _ db (create_firm-Keeps env P inv reg c body) p
  serve-Keeps (creates_rate_card c id body) db p =
      committed-Keeps P _ db (create_rate_card-Keeps env P inv reg c id body) p
  serve-Keeps (creates_expert c body) db p =
      committed-Keeps P _ db (create_expert-Keeps env P inv reg c body) p
  serve-Keeps (records_exam c id body) db p =
      committed-Keeps P _ db (record_exam-Keeps env P inv reg c id body) p
  serve-Keeps (creates_project c body) db p =
      committed-Keeps P _ db (create_project-Keeps env P inv reg c body) p
  serve-Keeps (creates_task c id body) db p =
      committed-Keeps P _ db (create_task-Keeps env P inv reg c id body) p
  serve-Keeps (assigns_task c task_id expert_id) db p =
      committed-Keeps P _ db (assign_task-Keeps env P inv reg c task_id expert_id) p
  serve-Keeps (submits c id body) db p =
      committed-Keeps P _ db (create_submission-Keeps env P inv reg c id body) p
  serve-Keeps (reviews c id body) db p =
      committed-Keeps P _ db (post_human_review-Keeps env P inv reg c id body) p
  serve-Keeps (invoices c id s e) db p =
      committed-Keeps P _ db (generate_invoice-Keeps env P inv reg c id s e) p
  serve-Keeps (opens_checkout c id s t) db p =
      committed-Keeps P _ db (create_invoice_checkout-Keeps env P inv reg c id s t) p
  serve-Keeps (records_payment c id r) db p =
      committed-Keeps P _ db (record_external_payment-Keeps env P inv reg c id r) p
  serve-Keeps (delivers payload signature) db p =
      committed-Keeps P _ db (stripe_webhook-Keeps env P inv reg payload signature) p
  serve-Keeps (requests_export c id) db p =
      committed-Keeps P _ db (request_export-Keeps env P inv reg c id) p
  serve-Keeps (approves_export c id by) db p =
      committed-Keeps P _ db (approve_export-Keeps env P inv reg outside c id by) p

  Step-Keeps : (a b : Db) → P a → Step env outside a b → P b
  Step-Keeps _ _ c (waits db moment) = inv.keeps_tick moment db c
  Step-Keeps _ _ c (serves db request) = serve-Keeps request db c
  Step-Keeps _ _ c (runs db command) = run_command-Kept env P inv reg outside command db c

  pub Reach-Keeps : (a b : Db) → P a → Reach env outside a b → P b
  Reach-Keeps _ _ c (here db) = c
  Reach-Keeps _ _ c (later a m b before step) = Step-Keeps m b (Reach-Keeps a m c before) step
