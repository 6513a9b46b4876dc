-- ===== src/Audit/Tamper.antt =====
-- How far the chain of src/factory/audit.py shows a change of its history.
use human_data.Audit.{genesis, event_body, verify_chain, chain_head}
use human_data.Model.Entities.{AuditEvent, EventBody, Principal, Ident}
use human_data.Config.{Env}
use human_data.Prelude.{
  ◌≢◌, ℕ, List, length, ◌≡◌, ◌++◌, ◌⊎◌, true, ℕ_discrete, inl, map, ap, inr, [], ◌∷◌, arith, ap₂,
  refl, String,
}
use human_data.Model.Json.{String-discrete, Json-discrete, Fields-discrete, Fields}
use human_data.Audit.Chain.{IsChain, end_of, verify_chain_iff, IsChain-prefix, end_of-eq-chain_head}

EventBody-discrete : Discrete EventBody
EventBody-discrete = hlevel (String-discrete, Json-discrete, Fields-discrete, ℕ_discrete)

-- what a stored event says: who did what to what, with which payload, after which event
pub record Told : Type 0 where
  pub prev_hash : ℕ
  pub actor : Principal
  pub action : String
  pub entity_type : String
  pub entity_id : Ident
  pub payload : Fields

abbrev pub content_of : AuditEvent → Told
content_of ev = record {
  prev_hash = ev.prev_hash;
  actor = ev.actor;
  action = ev.action;
  entity_type = ev.entity_type;
  entity_id = ev.entity_id;
  payload = ev.payload;
}

abbrev told_of : EventBody → Told
told_of b = record {
  prev_hash = b.prev;
  actor = b.actor;
  action = b.action;
  entity_type = b.entity_type;
  entity_id = b.entity_id;
  payload = b.payload;
}

module _ (env : Env) where
  -- two different event bodies with one hash
  abbrev pub Collision : Type 0
  Collision = (a : EventBody) × (b : EventBody) × (a ≢ b) × (env.event_hash a ≡ env.event_hash b)

  linked :
      (p q : ℕ) (x y : AuditEvent)
      → (x.prev_hash ≡ p)
      → (y.prev_hash ≡ q)
      → x.hash ≡ env.event_hash (event_body p x)
      → y.hash ≡ env.event_hash (event_body q y)
      → x.hash ≡ y.hash
      → ((p ≡ q) × (content_of x ≡ content_of y)) ⊎ Collision
  linked p q x y px qy hx hy e = elim (EventBody-discrete (event_body p x) (event_body q y)) [
    | yes same ↦ inl (ap (λ (b : EventBody). b.prev) same, rw (px, qy) (ap told_of same))
    | no differ ↦ inr (event_body p x, event_body q y, differ, cc)
  ]

  same_history :
      (p q : ℕ) (xs ys : List AuditEvent)
      → length xs ≡ length ys
      → IsChain env p xs
      → IsChain env q ys
      → end_of p xs ≡ end_of q ys
      → ((p ≡ q) × (map content_of xs ≡ map content_of ys)) ⊎ Collision
  same_history p q [] [] l cx cy e = inl (e, refl)
  same_history p q [] (y ∷ ys) l cx cy e = absurd (omega arith)
  same_history p q (x ∷ xs) [] l cx cy e = absurd (omega arith)
  same_history p q (x ∷ xs) (y ∷ ys) l cx cy e =
      elim (same_history x.hash y.hash xs ys (omega arith) cx.2 cy.2 e) [
        | inr collision ↦ inr collision
        | inl (heads, tails) ↦ elim (linked p q x y cx.0 cy.0 cx.1 cy.1 heads) [
          | inr collision ↦ inr collision
          | inl (prevs, bodies) ↦ inl (prevs, ap₂ (◌∷◌) bodies tails)
        ]
      ]

  -- Two trails of one length and with one head, which both verify, tell the same history, event
  -- by event: actor, action, entity and payload. Else two different event bodies with one hash are
  -- at hand.
  pub same_head_same_history :
      (xs ys : List AuditEvent)
      → length xs ≡ length ys
      → verify_chain env xs ≡ (true, length xs)
      → verify_chain env ys ≡ (true, length ys)
      → chain_head xs ≡ chain_head ys
      → (map content_of xs ≡ map content_of ys) ⊎ Collision
  same_head_same_history xs ys l vx vy e =
      elim (same_history genesis genesis xs ys l ((verify_chain_iff env xs).0 vx)
        ((verify_chain_iff env ys).0 vy)
        (rw (end_of-eq-chain_head xs, end_of-eq-chain_head ys) e)) [
          | inl (_, same) ↦ inl same
          | inr collision ↦ inr collision
        ]

  -- A trail whose newest events have been deleted verifies like the whole one: only the number of
  -- events, or a head kept elsewhere, shows the loss.
  pub truncation_verifies :
      (xs later : List AuditEvent)
      → verify_chain env (xs ++ later) ≡ (true, length (xs ++ later))
      → verify_chain env xs ≡ (true, length xs)
  truncation_verifies xs later v =
      (verify_chain_iff env xs).1
        (IsChain-prefix env genesis xs later ((verify_chain_iff env (xs ++ later)).0 v))
