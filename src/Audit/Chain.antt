-- ===== src/Audit/Chain.antt =====
-- What the chain of src/factory/audit.py guarantees.
use human_data.Prelude.{
  ℕ, ◌≡◌, refl, none, List, [], ◌∷◌, arith, ◌++◌, true, Option-cases, last, String, length, ◌↔◌, ap,
  ◌∙◌, append_assoc, sym, inl, inr, subst,
}
use human_data.Model.Entities.{AuditEvent, Principal, Ident}
use human_data.Config.{Env}
use human_data.Audit.{
  event_body, first_broken, chain_head, verify_chain, record_event, genesis, new_event,
}
use human_data.Store.{Db, modify, new_id}
use human_data.Model.Json.{Fields}
use human_data.Store.Keeps.{Keeps, Keeps-modify}

-- the hash that the next event will carry
abbrev pub end_of : ℕ → List AuditEvent → ℕ
end_of prev [] = prev
end_of prev (ev ∷ events) = end_of ev.hash events

end_of-last :
    (prev : ℕ) (e : AuditEvent) (events : List AuditEvent)
    → end_of prev (e ∷ events) ≡ chain_head (e ∷ events)
unfolding chain_head
end_of-last prev e [] = refl
end_of-last prev e (e' ∷ events) = elim (Option-cases (last events)) [
  | inl p ↦ ground (arith, end_of-last prev e' events)
  | inr (x, p) ↦ ground (arith, end_of-last prev e' events)
]

pub end_of-eq-chain_head : (events : List AuditEvent) → end_of genesis events ≡ chain_head events
unfolding chain_head
end_of-eq-chain_head [] = refl
end_of-eq-chain_head (e ∷ events) = end_of-last genesis e events

module _ (env : Env) where
  -- every event carries the hash of the one before it, and its own hash is right
  abbrev pub IsChain : ℕ → List AuditEvent → Type 0
  IsChain prev [] = Unit
  IsChain prev (ev ∷ events) =
      (ev.prev_hash ≡ prev)
      × (ev.hash ≡ env.event_hash (event_body prev ev))
      × IsChain ev.hash events

  first_broken-none :
      (prev : ℕ) (events : List AuditEvent)
      → IsChain prev events
      → first_broken env prev events ≡ none
  unfolding first_broken
  first_broken-none prev [] c = refl
  first_broken-none prev (ev ∷ events) c = ground (arith, first_broken-none ev.hash events c.2)

  IsChain-of_none :
      (prev : ℕ) (events : List AuditEvent)
      → first_broken env prev events ≡ none
      → IsChain prev events
  unfolding first_broken
  IsChain-of_none prev [] h = tt
  IsChain-of_none prev (ev ∷ events) h = ground (arith, IsChain-of_none ev.hash events)

  IsChain-append_one :
      (prev : ℕ) (events : List AuditEvent) (ev : AuditEvent)
      → IsChain prev events
      → ev.prev_hash ≡ end_of prev events
      → ev.hash ≡ env.event_hash (event_body (end_of prev events) ev)
      → IsChain prev (events ++ ev ∷ [])
  IsChain-append_one prev [] ev c p h = (p, h, tt)
  IsChain-append_one prev (e ∷ events) ev c p h =
      (c.0, c.1, IsChain-append_one e.hash events ev c.2 p h)

  -- any part of an intact trail from its start is intact
  pub IsChain-prefix :
      (prev : ℕ) (events later : List AuditEvent)
      → IsChain prev (events ++ later)
      → IsChain prev events
  IsChain-prefix prev [] later c = tt
  IsChain-prefix prev (e ∷ events) later c = (c.0, c.1, IsChain-prefix e.hash events later c.2)

  -- `verify_chain` answers yes exactly for an intact chain, and then counts all of its events.
  pub verify_chain_iff :
      (events : List AuditEvent)
      → (verify_chain env events ≡ (true, length events)) ↔ IsChain genesis events
  unfolding verify_chain
  verify_chain_iff events = (
    λ h. IsChain-of_none genesis events (ground arith),
    λ c. rw (first_broken-none genesis events c),
  )

  -- The trail goes on from `old`, and is intact.
  pub record Continues (old : List AuditEvent) (db : Db) : Type 0 where
    pub later : List AuditEvent
    pub appended : db.audit_events ≡ old ++ later
    pub intact : IsChain genesis db.audit_events

  pub record_event-Continues :
      (old : List AuditEvent) (actor : Principal) (action entity_type : String) (entity_id : Ident)
      (payload : Fields)
      → Keeps (Continues old) (record_event env actor action entity_type entity_id payload)
  unfolding record_event
  record_event-Continues old actor action entity_type entity_id payload = record {
    at = λ db c.
        let ev = new_event env db actor action entity_type entity_id payload in
        record {
          later = c.later ++ ev ∷ [];
          appended =
              ap (λ events. events ++ ev ∷ []) c.appended ∙ append_assoc old c.later (ev ∷ []);
          intact =
              IsChain-append_one genesis db.audit_events ev c.intact
                (sym (end_of-eq-chain_head db.audit_events)) (rw end_of-eq-chain_head);
        };
  }

  -- a write to another table leaves the trail alone
  pub modify-Continues :
      (old : List AuditEvent) (f : Db → Db)
      → ((db : Db) → (f db).audit_events ≡ db.audit_events)
      → Keeps (Continues old) (modify f)
  modify-Continues old f same = Keeps-modify f λ db c. record {
    later = c.later;
    appended = same db ∙ c.appended;
    intact = subst (IsChain genesis) (sym (same db)) c.intact;
  }

  pub new_id-Continues : (old : List AuditEvent) → Keeps (Continues old) new_id
  new_id-Continues old = record {
    at = λ db c. record { later = c.later; appended = c.appended; intact = c.intact };
  }
