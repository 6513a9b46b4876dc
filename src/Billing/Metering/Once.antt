-- ===== src/Billing/Metering/Once.antt =====
-- No task is billed twice (src/factory/billing/service.py).
use human_data.Billing.Metering.{
  meter, is_metered, record_approved_record, unless_metered, resolve_unit_price_cents,
  approved_record,
}
use human_data.Model.Entities.{Ident, Project, Firm, Task, Submission, UsageEvent}
use human_data.Config.{Env}
use human_data.Store.{Db, find, Result, one_or_none, err, ◌>>=◌, ok, pure, gets}
use human_data.Prelude.{
  List, length, select, ◌≡◌, ◌≤◌, Option, Bool-cases, false, some, inl, [], ◌∷◌, arith, inr,
  Option-cases, subst, ◌++◌, sym, none, ◌==◌, refl, ◌∙◌, true, Bool, if◌then◌else◌, ==_iff,
  length-select-append, ap,
}
use human_data.Store.Keeps.{Keeps, Holds}
use human_data.Audit.{record_event}

-- at most one usage event stands for a task
abbrev pub IsMeteredOnce : Db → Type 0
IsMeteredOnce db = (t : Ident) → length (select (is_metered t) db.usage_events) ≤ 1

-- What metering a task does: nothing, or one event for a task that had none, priced by the rate
-- cards and not yet invoiced.
abbrev pub Meters :
    Env → Project → Task → Submission → Db → Result (Option UsageEvent × Db) → Type 0
Meters env project task sub db (err e) = Unit
Meters env project task sub db (ok (none, db')) = db' ≡ db
Meters env project task sub db (ok (some ev, db')) =
    (task.is_gold ≡ false)
    × (select (is_metered task.id) db.usage_events ≡ [])
    × (db'.usage_events ≡ db.usage_events ++ ev ∷ [])
    × (ev.task_id ≡ task.id)
    × (ev.submission_id ≡ sub.id)
    × (ev.amount_cents
        ≡ resolve_unit_price_cents env db.rate_cards project.firm_id project.task_type)
    × (ev.invoice_id ≡ none)
    × (ev.kind ≡ approved_record)

find-id :
    (k : Ident) (firms : List Firm) (f : Firm)
    → find (λ (f : Firm). f.id) k firms ≡ some f
    → f.id ≡ k
find-id k [] f h = cc
find-id k (g ∷ firms) f h = ground (arith, find-id k firms f)

add-once :
    (t : Ident) (ev : UsageEvent) (events : List UsageEvent)
    → length (select (is_metered t) events) ≤ 1
    → ((ev.task_id == t) ≡ true → select (is_metered t) events ≡ [])
    → length (select (is_metered t) (events ++ ev ∷ [])) ≤ 1
add-once t ev events h k = elim (Bool-cases (ev.task_id == t)) [
  | inl same ↦
      ground (arith, length-select-append (is_metered t) events (ev ∷ []), ap length (k same))
  | inr other ↦ ground (arith, length-select-append (is_metered t) events (ev ∷ []))
]

module _ (env : Env) (project : Project) (task : Task) (sub : Submission) where
  meter-Meters :
      (db : Db)
      → task.is_gold ≡ false
      → select (is_metered task.id) db.usage_events ≡ []
      → Meters env project task sub db (meter env project task sub db)
  unfolding meter record_event
  meter-Meters db g e = elim (Option-cases (find (λ (f : Firm). f.id) project.firm_id db.firms)) [
    | inl p ↦ rw p tt
    | inr (firm, p) ↦
        rw p (g, e, refl, refl, refl, rw (find-id project.firm_id db.firms firm p) refl, refl, refl)
  ]

  of_rows :
      (db : Db) (rows : List UsageEvent)
      → task.is_gold ≡ false
      → select (is_metered task.id) db.usage_events ≡ rows
      → Meters env project task sub db (
          (one_or_none rows >>= λ existing. unless_metered existing (meter env project task sub))
            db)
  of_rows db [] g e = meter-Meters db g e
  of_rows db (x ∷ []) g e = refl
  of_rows db (x ∷ y ∷ rows) g e = tt

  of_gold :
      (db : Db) (b : Bool)
      → task.is_gold ≡ b
      → Meters env project task sub db (
          (if b
              then pure none
              else (gets (λ (db : Db). select (is_metered task.id) db.usage_events) >>= λ rows.
                  one_or_none rows >>= λ existing.
                  unless_metered existing (meter env project task sub)))
            db)
  of_gold db true g = refl
  of_gold db false g = of_rows db (select (is_metered task.id) db.usage_events) g refl

  -- Metering an approved record either changes nothing, or adds one event: only for a task that is
  -- not gold and has no event yet, for that task and submission, priced by the rate cards, and not
  -- invoiced.
  pub record_approved_record-Meters :
      (db : Db) → Meters env project task sub db (record_approved_record env project task sub db)
  unfolding record_approved_record
  record_approved_record-Meters db = of_gold db task.is_gold refl

  Meters-once :
      (db : Db) (r : Result (Option UsageEvent × Db))
      → Meters env project task sub db r
      → IsMeteredOnce db
      → Holds IsMeteredOnce r
  Meters-once db (err e) m h = tt
  Meters-once db (ok (none, db')) m h = subst IsMeteredOnce (sym m) h
  Meters-once db (ok (some ev, db')) m h = λ t. rw m.2 (
      add-once t ev db.usage_events (h t)
        λ same. rw (sym m.3 ∙ (==_iff ev.task_id t).0 same) at m.1)

  -- If every task has at most one usage event, this still holds after metering.
  pub record_approved_record-once :
      Keeps IsMeteredOnce (record_approved_record env project task sub)
  record_approved_record-once = record {
    at = λ db h. Meters-once db _ (record_approved_record-Meters db) h;
  }
