-- ===== src/Factory/Billed.antt =====
-- Billing over any sequence of requests and commands.
use human_data.Billing.Invoicing.{attach}
use human_data.Config.{Env}
use human_data.Billing.Invariant.{Invariant}
use human_data.Audit.{record_event}
use human_data.Model.Entities.{Ident, Principal, UsageEvent}
use human_data.Export.Materialize.{Outside}
use human_data.Store.{Db}
use human_data.Billing.Metering.Once.{IsMeteredOnce, record_approved_record-once}
use human_data.Factory.{Reach}
use human_data.Prelude.{
  Bool, String, subst, List, length, select, ◌≤◌, ◌≡◌, sym, ◌∷◌, arith, [], refl,
}
use human_data.Factory.Reachable.{Reach-Keeps}
use human_data.Model.Json.{Fields}
use human_data.Store.Keeps.{Keeps}
use human_data.Billing.Metering.{is_metered}
use human_data.Api.Firms.{replace_card}
use human_data.Api.Accounts.{add_user, deactivate}
use human_data.Api.Kept.{Registers}

is_metered-attach :
    (t id : Ident) (due : UsageEvent → Bool) (events : List UsageEvent)
    → length (select (is_metered t) (attach id due events)) ≡ length (select (is_metered t) events)
unfolding attach
is_metered-attach t id due [] = refl
is_metered-attach t id due (ev ∷ events) = ground (arith, is_metered-attach t id due events)

module _ (env : Env) where
  record_event-IsMeteredOnce :
      (actor : Principal) (action entity_type : String) (entity_id : Ident) (payload : Fields)
      → Keeps IsMeteredOnce (record_event env actor action entity_type entity_id payload)
  unfolding record_event
  record_event-IsMeteredOnce actor action entity_type entity_id payload = record { at = λ db h. h }

  IsMeteredOnce-Invariant : Invariant env IsMeteredOnce
  IsMeteredOnce-Invariant = record {
    keeps_new_id = record { at = λ db h. h };
    keeps_record_event = record_event-IsMeteredOnce;
    keeps_write = λ f trail usage cards users. record {
      at = λ db h t.
          subst (λ (es : List UsageEvent). length (select (is_metered t) es) ≤ 1) (sym (usage db))
            (h t);
    };
    keeps_metering = λ project task sub. record_approved_record-once env project task sub;
    keeps_attach = λ id due. record {
      at = λ db h t. omega (arith, is_metered-attach t id due db.usage_events, h t);
    };
    keeps_tick = λ moment db h. h;
  }

IsMeteredOnce-Registers : Registers IsMeteredOnce
unfolding replace_card add_user deactivate
IsMeteredOnce-Registers = record {
  keeps_replace_card = λ firm_id body. record { at = λ db h. h };
  keeps_add_user = λ name email role firm_id expert_id. record { at = λ db h. h };
  keeps_deactivate = λ user. record { at = λ db h. h };
}

-- Whatever requests are served and commands run, in whatever order: no task ever has a second usage event, so that none
-- is billed twice.
pub Reach-IsMeteredOnce :
    (env : Env) (outside : Outside) (a b : Db)
    → IsMeteredOnce a
    → Reach env outside a b
    → IsMeteredOnce b
Reach-IsMeteredOnce env outside a b once steps =
    Reach-Keeps env outside IsMeteredOnce (IsMeteredOnce-Invariant env) IsMeteredOnce-Registers a b
      once steps
