-- ===== src/Billing/Invoicing/Returns.antt =====
-- When `generate_invoice` of src/factory/billing/service.py returns an invoice.
use human_data.Config.{Env}
use human_data.Prelude.{
  ℕ, List, Bool, length, all, order_by, insert_by, ◌≡◌, is_some, ◌&&◌, ◌∷◌, true, ◌≤◌, suc, select,
  ◌∙◌, arith, [], ap, Option-cases, refl, inl, inr,
}
use human_data.Billing.Invoicing.{
  describe, group, add_event, issue_invoice, generate_invoice, unless_empty, is_due,
}
use human_data.Model.Entities.{Project, UsageEvent, Firm, LineItem, Ident, Moment, Invoice}
use human_data.Store.{Action, Db, find, ok, is_ok}
use human_data.Audit.{record_event}
use human_data.Model.Enums.{external}

-- the project is among the rows
abbrev pub is_known : List Project → Ident → Bool
is_known projects id = is_some (find (λ (p : Project). p.id) id projects)

describe-knows :
    (projects : List Project) (rows : List LineItem) (db : Db)
    → all (λ (r : LineItem). is_known projects r.project_id) rows ≡ true
    → describe projects rows db ≡ ok (tt, db)
unfolding describe
describe-knows projects [] db h = refl
describe-knows projects (row ∷ rows) db h =
    elim (Option-cases (find (λ (p : Project). p.id) row.project_id projects)) [
      | inl missing ↦ absurd (ground arith)
      | inr (p, found) ↦ rw found (describe-knows projects rows db (ground arith))
    ]

add_event-knows :
    (projects : List Project) (rows : List LineItem) (ev : UsageEvent)
    → all (λ (r : LineItem). is_known projects r.project_id) rows ≡ true
    → is_known projects ev.project_id ≡ true
    → all (λ (r : LineItem). is_known projects r.project_id) (add_event rows ev) ≡ true
unfolding add_event
add_event-knows projects [] ev h k = ground arith
add_event-knows projects (row ∷ rows) ev h k = ground (arith, add_event-knows projects rows ev)

group-knows :
    (projects : List Project) (rows : List LineItem) (events : List UsageEvent)
    → all (λ (r : LineItem). is_known projects r.project_id) rows ≡ true
    → all (λ (e : UsageEvent). is_known projects e.project_id) events ≡ true
    → all (λ (r : LineItem). is_known projects r.project_id) (group rows events) ≡ true
unfolding group
group-knows projects rows [] h k = h
group-knows projects rows (ev ∷ events) h k =
    group-knows projects (add_event rows ev) events
      (add_event-knows projects rows ev h (ground arith)) (ground arith)

module _ {A : Type 0} where
  all-insert_by :
      (p : A → Bool) (key : A → ℕ) (x : A) (xs : List A)
      → all p (insert_by key x xs) ≡ (p x && all p xs)
  all-insert_by p key x [] = refl
  all-insert_by p key x (y ∷ ys) = ground (arith, all-insert_by p key x ys)

  all-order_by : (p : A → Bool) (key : A → ℕ) (xs : List A) → all p (order_by key xs) ≡ all p xs
  all-order_by p key [] = refl
  all-order_by p key (x ∷ xs) =
      all-insert_by p key x (order_by key xs) ∙ ap (λ b. p x && b) (all-order_by p key xs)

  length-insert_by :
      (key : A → ℕ) (x : A) (xs : List A) → length (insert_by key x xs) ≡ suc (length xs)
  length-insert_by key x [] = refl
  length-insert_by key x (y ∷ ys) = ground (arith, length-insert_by key x ys)

  length-order_by : (key : A → ℕ) (xs : List A) → length (order_by key xs) ≡ length xs
  length-order_by key [] = refl
  length-order_by key (x ∷ xs) =
      length-insert_by key x (order_by key xs) ∙ ap suc (length-order_by key xs)

unless_empty-is_ok :
    (events : List UsageEvent) (f : List UsageEvent → Action Invoice) (db : Db)
    → 1 ≤ length events
    → is_ok (f events db) ≡ true
    → is_ok (unless_empty events f db) ≡ true
unless_empty-is_ok [] f db n h = absurd (omega arith)
unless_empty-is_ok (ev ∷ events) f db n h = h

module _ (env : Env) where
  issue_invoice-is_ok :
      (firm : Firm) (s e : Moment) (by : Ident) (events : List UsageEvent) (db : Db)
      → firm.billing_mode ≡ external
      → all (λ (ev : UsageEvent). is_known db.projects ev.project_id) events ≡ true
      → is_ok (issue_invoice env firm s e by events db) ≡ true
  unfolding issue_invoice record_event
  issue_invoice-is_ok firm s e by events db m k =
      rw
        (
          describe-knows db.projects (group [] events) db
              (group-knows db.projects [] events refl k),
          m,
        )
        refl

  -- For a firm that is billed outside Stripe, where usage is due and each due event is of a project on
  -- record, an invoice is generated.
  pub generate_invoice-is_ok :
      (firm : Firm) (s e : Moment) (by : Ident) (db : Db)
      → firm.billing_mode ≡ external
      → 1 ≤ length (select (is_due firm.id s e) db.usage_events)
      → all
          (λ (ev : UsageEvent). is_known db.projects ev.project_id)
          (select (is_due firm.id s e) db.usage_events)
        ≡ true
      → is_ok (generate_invoice env firm s e by db) ≡ true
  unfolding generate_invoice
  generate_invoice-is_ok firm s e by db m n k =
      let due : List UsageEvent = select (is_due firm.id s e) db.usage_events in
      let events : List UsageEvent = order_by (λ (ev : UsageEvent). ev.created_at) due in
      unless_empty-is_ok events (issue_invoice env firm s e by) db
        (omega (arith, n, length-order_by (λ (ev : UsageEvent). ev.created_at) due))
        (issue_invoice-is_ok firm s e by events db m (
          all-order_by (λ (ev : UsageEvent). is_known db.projects ev.project_id)
            (λ ev. ev.created_at) due
          ∙ k))
