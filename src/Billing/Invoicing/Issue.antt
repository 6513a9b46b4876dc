-- ===== src/Billing/Invoicing/Issue.antt =====
-- What an issued invoice says, and what it leaves due (src/factory/billing/service.py).
use human_data.Billing.Invoicing.{
  generate_invoice, attach, is_due, describe, put_firm, invoice_ref, issue, firm_ref, put_invoice,
  finish, add_invoice, issue_invoice, unless_empty, issue_drafted, group, draft_of,
}
use human_data.Config.{Env}
use human_data.Model.Enums.{BillingMode, InvoiceStatus, issued_external, opened, external, stripe}
use human_data.Model.Entities.{
  Invoice, Firm, Project, Ident, Moment, LineItem, UsageEvent, in_fake, invoice_example,
  InvoiceNumber,
}
use human_data.Store.{Db, put, pure, or_raise, gateway_failed, new_id, ◌>>=◌, Action}
use human_data.Billing.Gateway.{push_invoice, ensure_customer, is_live}
use human_data.Prelude.{
  List, ◌≡◌, length, sum_of, select, ◌∷◌, [], arith, ◌+◌, refl, ap, subst, some, sym, ◌∙◌, ℕ, ◌++◌,
  order_by, sum_of-order_by, All, ◌<◌,
}
use human_data.Store.Ensures.{Ensures, Ensures-if, Ensures-or_raise, Ensures-bind}
use human_data.Billing.Invoicing.LineItems.{
  event_amount, line_amount, Distinct, group-sums, group-Distinct,
}
use human_data.Audit.{record_event}

-- the status that each billing mode gives
abbrev pub issued_status : BillingMode → InvoiceStatus
issued_status external = issued_external
issued_status stripe = opened

attach-due :
    (id firm_id : Ident) (s e : Moment) (events : List UsageEvent)
    → select (is_due firm_id s e) (attach id (is_due firm_id s e) events) ≡ []
unfolding attach is_due
attach-due id firm_id s e [] = refl
attach-due id firm_id s e (ev ∷ events) = ground (arith, attach-due id firm_id s e events)

-- the ids of the invoices were drawn before `n`
abbrev pub IsBefore : ℕ → List Invoice → Type 0
IsBefore n invoices = All (λ (i : Invoice). i.id < n) invoices

put-append_one :
    (drafted invoice : Invoice) (invoices : List Invoice)
    → IsBefore drafted.id invoices
    → invoice.id ≡ drafted.id
    → put invoice_ref invoice (invoices ++ drafted ∷ []) ≡ invoices ++ invoice ∷ []
put-append_one drafted invoice [] f e = ground arith
put-append_one drafted invoice (x ∷ xs) f e = ground (arith, put-append_one drafted invoice xs)

-- what the branch on the mode keeps of a drafted invoice, and of the tables
record Kept (mode : BillingMode) (drafted : Invoice) (before : Db) (issued : Invoice) (after : Db)
    : Type 0 where
  same_usage : after.usage_events ≡ before.usage_events
  same_invoices : after.invoices ≡ before.invoices
  same_id : issued.id ≡ drafted.id
  same_firm : issued.firm_id ≡ drafted.firm_id
  same_serial : issued.number ≡ drafted.number
  same_subtotal : issued.subtotal_cents ≡ drafted.subtotal_cents
  same_lines : issued.line_items ≡ drafted.line_items
  new_status : issued.status ≡ issued_status mode

-- What a returned invoice and the tables after it satisfy.
pub record Issued (env : Env) (firm : Firm) (s e : Moment) (before : Db) (invoice : Invoice)
    (after : Db) : Type 0 where
  -- the subtotal is the usage that was due, and the lines add up to it
  pub subtotal_is_due :
      invoice.subtotal_cents ≡ sum_of event_amount (select (is_due firm.id s e) before.usage_events)
  pub lines_add_up : sum_of line_amount invoice.line_items ≡ invoice.subtotal_cents
  pub lines_distinct : Distinct invoice.line_items
  -- each event that was due now belongs to the invoice, and nothing is left due
  pub attached : after.usage_events ≡ attach invoice.id (is_due firm.id s e) before.usage_events
  pub nothing_due : select (is_due firm.id s e) after.usage_events ≡ []
  pub by_mode : invoice.status ≡ issued_status firm.billing_mode
  pub serial_next : invoice.number.serial ≡ length before.invoices + 1
  -- it is a new row of the firm's, after the others
  pub new_id_drawn : invoice.id ≡ before.next_id
  pub same_firm : invoice.firm_id ≡ firm.id
  pub stored : after.invoices ≡ before.invoices ++ invoice ∷ []

module _ (env : Env) where
  ensure_customer-same :
      (firm : Firm) (db : Db) → Ensures (ensure_customer env firm) db (λ c db'. db' ≡ db)
  unfolding ensure_customer
  ensure_customer-same firm db = search (Ensures-if, Ensures-or_raise, refl) depth 8

  push_invoice-same :
      (firm : Firm) (invoice : Invoice) (db : Db)
      → Ensures
          (push_invoice env firm invoice)
          db
          (λ p db'. (db'.usage_events ≡ db.usage_events) × (db'.invoices ≡ db.invoices))
  unfolding push_invoice
  push_invoice-same firm invoice db =
      Ensures-if (is_live env)
        (or_raise (env.stripe.issue firm.stripe_customer_id invoice) gateway_failed)
        (new_id >>= λ k. pure (in_fake k, invoice_example (in_fake k)))
        (λ _.
          Ensures-or_raise (env.stripe.issue firm.stripe_customer_id invoice) gateway_failed
            (λ c p. (refl, refl)))
        (λ _. record { at = (refl, refl) })

  describe-same :
      (projects : List Project) (rows : List LineItem) (db : Db)
      → Ensures (describe projects rows) db (λ u db'. db' ≡ db)
  unfolding describe
  describe-same projects [] db = record { at = refl }
  describe-same projects (row ∷ rows) db =
      Ensures-bind (λ p db'. db' ≡ db) (Ensures-or_raise _ _ (λ p q. refl))
        λ p db' same.
          subst (λ d. Ensures (describe projects rows) d (λ u db'. db' ≡ db)) (sym same)
            (describe-same projects rows db)

  issue-Kept :
      (firm : Firm) (drafted : Invoice) (mode : BillingMode) (db : Db)
      → Ensures (issue env firm drafted mode) db (Kept mode drafted db)
  unfolding put_firm
  issue-Kept firm drafted external db = record {
    at = record {
      same_usage = refl;
      same_invoices = refl;
      same_id = refl;
      same_firm = refl;
      same_serial = refl;
      same_subtotal = refl;
      same_lines = refl;
      new_status = refl;
    };
  }
  issue-Kept firm drafted stripe db =
      Ensures-bind (λ c db'. db' ≡ db) (ensure_customer-same firm db)
        λ customer db₁ same.
          let known : Firm = record firm { stripe_customer_id = some customer } in
          let db₂ : Db = record db₁ { firms = put firm_ref known db₁.firms } in
          record {
            at =
                (Ensures-bind
                  (λ p db'. (db'.usage_events ≡ db₂.usage_events) × (db'.invoices ≡ db₂.invoices))
                  {Q = Kept stripe drafted db} {m = push_invoice env known drafted}
                  {f = λ pushed. pure (record drafted {
                    stripe_invoice_id = some pushed.0;
                    hosted_invoice_url = some pushed.1;
                    status = opened;
                  })}
                  (push_invoice-same known drafted db₂)
                  λ pushed db₃ (u, i). record {
                    at = record {
                      same_usage = u ∙ ap (λ (d : Db). d.usage_events) same;
                      same_invoices = i ∙ ap (λ (d : Db). d.invoices) same;
                      same_id = refl;
                      same_firm = refl;
                      same_serial = refl;
                      same_subtotal = refl;
                      same_lines = refl;
                      new_status = refl;
                    };
                  }).at;
          }

  -- what is known of the issued invoice carries through the last two steps
  finish-Issued :
      (firm : Firm) (s e : Moment) (before : Db) (n : ℕ) (drafted : Invoice) (issued : Invoice)
      (db : Db)
      → drafted.subtotal_cents
        ≡ sum_of event_amount (select (is_due firm.id s e) before.usage_events)
      → sum_of line_amount drafted.line_items ≡ drafted.subtotal_cents
      → Distinct drafted.line_items
      → drafted.number.serial ≡ length before.invoices + 1
      → drafted.id ≡ before.next_id
      → drafted.firm_id ≡ firm.id
      → IsBefore before.next_id before.invoices
      → issued.id ≡ drafted.id
      → issued.firm_id ≡ drafted.firm_id
      → issued.number ≡ drafted.number
      → issued.subtotal_cents ≡ drafted.subtotal_cents
      → issued.line_items ≡ drafted.line_items
      → issued.status ≡ issued_status firm.billing_mode
      → db.usage_events ≡ attach drafted.id (is_due firm.id s e) before.usage_events
      → db.invoices ≡ before.invoices ++ drafted ∷ []
      → Ensures (finish env n drafted.created_at issued) db (Issued env firm s e before)
  unfolding record_event put_invoice
  finish-Issued firm s e before n drafted issued db total adds distinct serial new owner fresh id
        firm_id number subtotal lines status usage invoices =
      record {
        at = record {
          subtotal_is_due = subtotal ∙ total;
          lines_add_up = ap (sum_of line_amount) lines ∙ adds ∙ sym subtotal;
          lines_distinct = subst Distinct (sym lines) distinct;
          attached = usage ∙ ap (λ i. attach i (is_due firm.id s e) before.usage_events) (sym id);
          nothing_due =
              ap (select (is_due firm.id s e)) usage
              ∙ attach-due drafted.id firm.id s e before.usage_events;
          by_mode = status;
          serial_next = ap (λ (n : InvoiceNumber). n.serial) number ∙ serial;
          new_id_drawn = id ∙ new;
          same_firm = firm_id ∙ owner;
          stored =
              ap (put invoice_ref (record issued { issued_at = some drafted.created_at })) invoices
              ∙ put-append_one drafted (record issued { issued_at = some drafted.created_at })
                  before.invoices (subst (λ n. IsBefore n before.invoices) (sym new) fresh) id;
        };
      }

  issue_drafted-Issued :
      (firm : Firm) (s e : Moment) (by : Ident) (id : Ident) (n : ℕ) (lines : List LineItem)
      (before db : Db)
      → id ≡ before.next_id
      → IsBefore before.next_id before.invoices
      → db.usage_events ≡ before.usage_events
      → db.invoices ≡ before.invoices
      → sum_of line_amount lines
        ≡ sum_of event_amount (select (is_due firm.id s e) before.usage_events)
      → Distinct lines
      → Ensures
          (issue_drafted env firm n
            (draft_of env firm s e by lines id (length before.invoices) before.clock))
          db
          (Issued env firm s e before)
  unfolding add_invoice
  issue_drafted-Issued firm s e by id n lines before db new fresh usage invoices total distinct =
      let drafted : Invoice =
        draft_of env firm s e by lines id (length before.invoices) before.clock in
      let db₁ : Db = record db {
        invoices = db.invoices ++ drafted ∷ [];
        usage_events = attach id (is_due firm.id s e) db.usage_events;
      } in
      record {
        at =
            (Ensures-bind (Kept firm.billing_mode drafted db₁) {Q = Issued env firm s e before}
              {m = issue env firm drafted firm.billing_mode} {f = finish env n before.clock}
              (issue-Kept firm drafted firm.billing_mode db₁)
              λ issued db₂ k.
                finish-Issued firm s e before n drafted issued db₂ total refl distinct refl new refl
                  fresh k.same_id k.same_firm k.same_serial k.same_subtotal k.same_lines
                  k.new_status (k.same_usage ∙ ap (attach id (is_due firm.id s e)) usage)
                  (k.same_invoices ∙ ap (λ is. is ++ drafted ∷ []) invoices)).at;
      }

  issue_invoice-Issued :
      (firm : Firm) (s e : Moment) (by : Ident) (events : List UsageEvent) (db : Db)
      → IsBefore db.next_id db.invoices
      → sum_of event_amount events
        ≡ sum_of event_amount (select (is_due firm.id s e) db.usage_events)
      → Ensures (issue_invoice env firm s e by events) db (Issued env firm s e db)
  unfolding issue_invoice
  issue_invoice-Issued firm s e by events db fresh total =
      let lines : List LineItem = group [] events in
      let add : Db → Action Invoice = λ d.
        issue_drafted env firm (length events)
          (draft_of env firm s e by lines d.next_id (length d.invoices) d.clock) in
      let bumped : Db → Db = λ d. record d { next_id = d.next_id + 1 } in
      let rest : Unit {0} → Action Invoice = λ _ d. add d (bumped d) in
      record {
        at =
            (Ensures-bind (λ u db'. db' ≡ db) {Q = Issued env firm s e db}
              {m = describe db.projects lines} {f = rest} (describe-same db.projects lines db)
              λ u db₁ same.
                subst (λ d. Ensures (rest u) d (Issued env firm s e db)) (sym same)
                  (record {
                    at =
                        (issue_drafted-Issued firm s e by db.next_id (length events) lines db
                          (bumped db) refl fresh refl refl
                          (omega (arith, (group-sums [] events).0, total))
                          (group-Distinct [] events tt)).at;
                  })).at;
      }

  unless_empty-Ensures :
      (events : List UsageEvent) (f : List UsageEvent → Action Invoice) (db : Db)
      (Q : Invoice → Db → Type 0)
      → Ensures (f events) db Q
      → Ensures (unless_empty events f) db Q
  unless_empty-Ensures [] f db Q h = record { at = tt }
  unless_empty-Ensures (ev ∷ events) f db Q h = h

  -- Where the ids of the invoices were drawn before, an invoice that is generated has the usage of
  -- its firm and period that was due as its subtotal, with line items that add up to it and have one
  -- project, kind and price each; the usage that was due is attached to it, so that none is left due;
  -- its status is the one that the firm's billing mode gives, its serial number one more than the
  -- number of invoices before, and it is stored after them under a new id.
  pub generate_invoice-Issued :
      (firm : Firm) (s e : Moment) (by : Ident) (db : Db)
      → IsBefore db.next_id db.invoices
      → Ensures (generate_invoice env firm s e by) db (Issued env firm s e db)
  unfolding generate_invoice
  generate_invoice-Issued firm s e by db fresh =
      let due : List UsageEvent = select (is_due firm.id s e) db.usage_events in
      let events : List UsageEvent = order_by (λ (ev : UsageEvent). ev.created_at) due in
      record {
        at =
            (unless_empty-Ensures events (issue_invoice env firm s e by) db (Issued env firm s e db)
              (issue_invoice-Issued firm s e by events db fresh
                (sum_of-order_by event_amount (λ ev. ev.created_at) due))).at;
      }
