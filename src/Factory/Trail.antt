-- ===== src/Factory/Trail.antt =====
-- The audit trail over any sequence of requests and commands.
use human_data.Config.{Env}
use human_data.Export.Materialize.{Outside}
use human_data.Prelude.{
  List, Option, ◌≡◌, true, length, some, refl, ◌++◌, [], none, sym, append-nil, String,
}
use human_data.Store.{Db, Action}
use human_data.Model.Entities.{AuditEvent, UsageEvent, Project, Task, Submission, Ident, User}
use human_data.Billing.Invariant.{Invariant}
use human_data.Audit.{verify_chain}
use human_data.Billing.Metering.{meter, record_approved_record, unless_metered}
use human_data.Audit.Chain.{
  Continues, new_id-Continues, record_event-Continues, modify-Continues, verify_chain_iff,
}
use human_data.Store.Keeps.{Keeps, keeps_rules, Keeps-pure}
use human_data.Factory.{Reach}
use human_data.Factory.Reachable.{Reach-Keeps}
use human_data.Api.Accounts.{add_user, deactivate}
use human_data.Api.Kept.{Registers}
use human_data.Api.Firms.{replace_card, RateCardIn}
use human_data.Model.Enums.{Role}

module _ (env : Env) (old : List AuditEvent) where
  meter-Continues :
      (project : Project) (task : Task) (sub : Submission)
      → Keeps (Continues env old) (meter env project task sub)
  unfolding meter
  meter-Continues project task sub =
      search (keeps_rules, new_id-Continues, record_event-Continues, modify-Continues) depth 24

  unless_metered-Continues :
      (existing : Option UsageEvent) (rest : Action (Option UsageEvent))
      → Keeps (Continues env old) rest
      → Keeps (Continues env old) (unless_metered existing rest)
  unless_metered-Continues none rest k = k
  unless_metered-Continues (some ev) rest k = Keeps-pure none

  record_approved_record-Continues :
      (project : Project) (task : Task) (sub : Submission)
      → Keeps (Continues env old) (record_approved_record env project task sub)
  unfolding record_approved_record
  record_approved_record-Continues project task sub =
      search (keeps_rules, unless_metered-Continues, meter-Continues) depth 24

  Continues-Invariant : Invariant env (Continues env old)
  Continues-Invariant = record {
    keeps_new_id = new_id-Continues env old;
    keeps_record_event = record_event-Continues env old;
    keeps_write = λ f same usage cards users. modify-Continues env old f same;
    keeps_metering = record_approved_record-Continues;
    keeps_attach = λ id due. modify-Continues env old _ (λ db. refl);
    keeps_tick =
        λ moment db c. record { later = c.later; appended = c.appended; intact = c.intact };
  }

  replace_card-Continues :
      (firm_id : Ident) (body : RateCardIn) → Keeps (Continues env old) (replace_card firm_id body)
  unfolding replace_card
  replace_card-Continues firm_id body =
      search (keeps_rules, new_id-Continues, modify-Continues) depth 24

  add_user-Continues :
      (name email : String) (role : Role) (firm_id expert_id : Option Ident)
      → Keeps (Continues env old) (add_user name email role firm_id expert_id)
  unfolding add_user
  add_user-Continues name email role firm_id expert_id =
      search (keeps_rules, new_id-Continues, modify-Continues) depth 24

  deactivate-Continues : (user : User) → Keeps (Continues env old) (deactivate user)
  unfolding deactivate
  deactivate-Continues user = search (keeps_rules, new_id-Continues, modify-Continues) depth 24

  Continues-Registers : Registers (Continues env old)
  Continues-Registers = record {
    keeps_replace_card = replace_card-Continues;
    keeps_add_user = add_user-Continues;
    keeps_deactivate = deactivate-Continues;
  }

-- Whatever requests are served and commands run, in whatever order, from tables with an intact trail: the trail that
-- was there stays in front, and all of it verifies.
pub Reach-verifies :
    (env : Env) (outside : Outside) (a b : Db)
    → verify_chain env a.audit_events ≡ (true, length a.audit_events)
    → Reach env outside a b
    → (verify_chain env b.audit_events ≡ (true, length b.audit_events))
      × ((added : List AuditEvent) × (b.audit_events ≡ a.audit_events ++ added))
Reach-verifies env outside a b v steps =
    let start : Continues env a.audit_events a = record {
      later = [];
      appended = sym (append-nil a.audit_events);
      intact = (verify_chain_iff env a.audit_events).0 v;
    } in
    let c =
      Reach-Keeps env outside (Continues env a.audit_events)
        (Continues-Invariant env a.audit_events) (Continues-Registers env a.audit_events) a b start
        steps in
    ((verify_chain_iff env b.audit_events).1 c.intact, (c.later, c.appended))
