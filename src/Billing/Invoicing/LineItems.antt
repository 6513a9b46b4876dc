-- ===== src/Billing/Invoicing/LineItems.antt =====
-- The line items of an invoice add up to its usage (src/factory/billing/service.py).
use human_data.Billing.Invoicing.{add_event, group, same_line}
use human_data.Model.Entities.{UsageEvent, LineItem}
use human_data.Prelude.{
  List, Bool, ◌∷◌, ℕ, any, sum_of, [], ◌≡◌, ◌==◌, ◌&&◌, ◌+◌, false, str_eq, refl, arith,
}

abbrev pub line_amount : LineItem → ℕ
line_amount r = r.amount_cents

abbrev pub line_quantity : LineItem → ℕ
line_quantity r = r.quantity

abbrev pub event_amount : UsageEvent → ℕ
event_amount e = e.amount_cents

abbrev pub event_quantity : UsageEvent → ℕ
event_quantity e = e.quantity

-- one event adds its amount and its quantity to the lines
add_event-sums :
    (rows : List LineItem) (ev : UsageEvent)
    → (sum_of line_amount (add_event rows ev) ≡ sum_of line_amount rows + ev.amount_cents)
      × (sum_of line_quantity (add_event rows ev) ≡ sum_of line_quantity rows + ev.quantity)
unfolding add_event
add_event-sums [] ev = omega arith
add_event-sums (row ∷ rows) ev = ground (arith, add_event-sums rows ev)

-- Grouping loses no cent and no record, whatever lines there were before.
pub group-sums :
    (rows : List LineItem) (events : List UsageEvent)
    → (sum_of line_amount (group rows events)
        ≡ sum_of line_amount rows + sum_of event_amount events)
      × (sum_of line_quantity (group rows events)
          ≡ sum_of line_quantity rows + sum_of event_quantity events)
unfolding group
group-sums rows [] = omega arith
group-sums rows (ev ∷ events) =
    omega (arith, add_event-sums rows ev, group-sums (add_event rows ev) events)

-- no two lines have one project, kind and price
abbrev pub clashes : LineItem → LineItem → Bool
clashes a b =
    a.project_id == b.project_id && str_eq a.kind b.kind && a.unit_price_cents == b.unit_price_cents

abbrev pub Distinct : List LineItem → Type 0
Distinct [] = Unit
Distinct (row ∷ rows) = (any (clashes row) rows ≡ false) × Distinct rows

any-clashes-add_event :
    (row : LineItem) (rows : List LineItem) (ev : UsageEvent)
    → any (clashes row) rows ≡ false
    → same_line ev row ≡ false
    → any (clashes row) (add_event rows ev) ≡ false
unfolding add_event
any-clashes-add_event row [] ev h n = ground arith
any-clashes-add_event row (r ∷ rows) ev h n = ground (arith, any-clashes-add_event row rows ev)

add_event-Distinct :
    (rows : List LineItem) (ev : UsageEvent) → Distinct rows → Distinct (add_event rows ev)
unfolding add_event
add_event-Distinct [] ev d = (refl, tt)
add_event-Distinct (row ∷ rows) ev d =
    ground (arith, any-clashes-add_event row rows ev, add_event-Distinct rows ev)

-- The lines of an invoice are one for each project, kind and unit price.
pub group-Distinct :
    (rows : List LineItem) (events : List UsageEvent) → Distinct rows → Distinct (group rows events)
unfolding group
group-Distinct rows [] d = d
group-Distinct rows (ev ∷ events) d =
    group-Distinct (add_event rows ev) events (add_event-Distinct rows ev d)
