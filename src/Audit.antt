-- ===== src/Audit.antt =====
-- src/factory/audit.py: the hash-chained audit trail. `audit_events` stands in the order of `seq`.
pub mod Chain
pub mod Tamper
use human_data.Prelude.{
  ℕ, ◌+◌, String, Bool, true, false, Option, none, some, List, [], ◌∷◌, ◌++◌, last, length, ◌==◌,
  ◌||◌, not, if◌then◌else◌,
}
use human_data.Model.Json.{Fields}
use human_data.Model.Entities.{Ident, Principal, AuditEvent, EventBody}
use human_data.Config.{Env}
use human_data.Store.{Db, Action, modify}

-- `"0" * 64`
abbrev pub genesis : ℕ
genesis = 0

-- The dict that `_event_hash` serialises.
abbrev pub event_body : ℕ → AuditEvent → EventBody
event_body prev ev = record {
  prev = prev;
  actor = ev.actor;
  action = ev.action;
  entity_type = ev.entity_type;
  entity_id = ev.entity_id;
  payload = ev.payload;
}

-- `seq` is an autoincremented key.
abbrev next_seq : Option AuditEvent → ℕ
next_seq none = 1
next_seq (some ev) = ev.seq + 1

abbrev hash_of : Option AuditEvent → ℕ
hash_of none = genesis
hash_of (some ev) = ev.hash

unfoldable pub chain_head : List AuditEvent → ℕ
chain_head events = hash_of (last events)

module _ (env : Env) where
  -- the row that `record` adds
  abbrev pub new_event : Db → Principal → String → String → Ident → Fields → AuditEvent
  new_event db actor action entity_type entity_id payload =
      let prev = chain_head db.audit_events in
      record {
        seq = next_seq (last db.audit_events);
        actor = actor;
        action = action;
        entity_type = entity_type;
        entity_id = entity_id;
        payload = payload;
        prev_hash = prev;
        hash = env.event_hash (record {
          prev = prev;
          actor = actor;
          action = action;
          entity_type = entity_type;
          entity_id = entity_id;
          payload = payload;
        });
        created_at = db.clock;
      }

  -- `record`
  unfoldable pub record_event : Principal → String → String → Ident → Fields → Action Unit
  record_event actor action entity_type entity_id payload = modify λ db. record db {
    audit_events = db.audit_events ++ new_event db actor action entity_type entity_id payload ∷ [];
  }

  -- the loop of `verify_chain`: the sequence number of the first event that does not fit
  unfoldable pub first_broken : ℕ → List AuditEvent → Option ℕ
  first_broken prev [] = none
  first_broken prev (ev ∷ events) =
      let rest = first_broken ev.hash events in
      if not (ev.prev_hash == prev) || not (ev.hash == env.event_hash (event_body prev ev))
      then some ev.seq
      else rest

  abbrev verdict : Option ℕ → ℕ → Bool × ℕ
  verdict none n = (true, n)
  verdict (some seq) n = (false, seq)

  unfoldable pub verify_chain : List AuditEvent → Bool × ℕ
  unfolding first_broken
  verify_chain events = verdict (first_broken genesis events) (length events)
