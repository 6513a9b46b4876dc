-- ===== src/Export/Release.antt =====
-- What a requested and a released batch of src/factory/export.py rest on.
use human_data.Export.{request_export, control_report, Row, is_nil, has_evidence, approved_rows}
use human_data.Export.Materialize.{approve_and_materialize, Outside, is_pending}
use human_data.Audit.{verify_chain, record_event, genesis}
use human_data.Model.Entities.{
  ExportBatch, Project, Review, Ident, AuditEvent, pending_approval, released,
}
use human_data.Config.{Env}
use human_data.Prelude.{
  List, ◌≡◌, true, map, ◌≢◌, arith, all, select, not, ◌∷◌, some, ◌≤◌, refl, [], length, ◌==◌,
}
use human_data.Controls.{assert_export_dual_control}
use human_data.Store.{Db, ok, not_clean, not_pending, control_violation, c6}
use human_data.Store.Ensures.{
  Ensures, Ensures-bind, Ensures-raise_if, Ensures-ok, Ensures-then, Ensures-pure,
}
use human_data.Audit.Chain.{IsChain, verify_chain_iff}

-- what a clean report says
abbrev pub IsReleasable : Env → Db → Project → Type 0
IsReleasable env db project =
    IsChain env genesis db.audit_events
    × (all (λ (r : Row). has_evidence db.reviews r.1) (approved_rows db project) ≡ true)
    × (1 ≤ length (approved_rows db project))

evidence_lem :
    (reviews : List Review) (rows : List Row)
    → is_nil (map (λ (r : Row). r.1.id) (select (λ (r : Row). not (has_evidence reviews r.1)) rows))
      ≡ true
    → all (λ (r : Row). has_evidence reviews r.1) rows ≡ true
evidence_lem reviews [] h = refl
evidence_lem reviews (r ∷ rs) h = ground (arith, evidence_lem reviews rs)

verified_lem :
    (env : Env) (events : List AuditEvent)
    → (verify_chain env events).0 ≡ true
    → IsChain env genesis events
unfolding verify_chain
verified_lem env events h = (verify_chain_iff env events).0 (ground arith)

clean_lem :
    (env : Env) (db : Db) (project : Project)
    → (control_report env db project).clean ≡ true
    → IsReleasable env db project
unfolding control_report
clean_lem env db project h = (
  verified_lem env db.audit_events (ground arith),
  evidence_lem db.reviews (approved_rows db project) (ground arith),
  ground arith,
)

request_export_lem :
    (env : Env) (project : Project) (by : Ident) (db : Db)
    → Ensures (request_export env project by) db (λ batch after.
      IsReleasable env db project × (batch.status ≡ pending_approval) × (batch.requested_by ≡ by))
unfolding request_export record_event
request_export_lem env project by db = record {
  at =
      (Ensures-bind (λ u d. IsReleasable env db project)
        (Ensures-raise_if (not (control_report env db project).clean) not_clean
          (λ h. clean_lem env db project (ground arith)))
        (λ u d r. record { at = (r, refl, refl) })).at;
}

-- A batch is requested only where the trail verifies, each row of the export has a review by the
-- model or a human, and there is a row; it then waits for an approval.
pub request_export-IsReleasable :
    (env : Env) (project : Project) (by : Ident) (db after : Db) (batch : ExportBatch)
    → request_export env project by db ≡ ok (batch, after)
    → IsReleasable env db project × (batch.status ≡ pending_approval) × (batch.requested_by ≡ by)
request_export-IsReleasable env project by db after batch e =
    Ensures-ok (request_export_lem env project by db) e

-- what a release changes of its batch
abbrev pub Releases : ExportBatch → Ident → ExportBatch → Type 0
Releases batch by out =
    (batch.status ≡ pending_approval)
    × (batch.requested_by ≢ by)
    × (out.status ≡ released)
    × (out.approved_by ≡ some by)
    × (out.requested_by ≡ batch.requested_by)

approve_lem :
    (env : Env) (outside : Outside) (batch : ExportBatch) (by : Ident) (db : Db)
    → Ensures (approve_and_materialize env outside batch by) db (λ out after. Releases batch by out)
unfolding approve_and_materialize assert_export_dual_control
approve_lem env outside batch by db =
    Ensures-bind (λ u d. batch.status ≡ pending_approval)
      (Ensures-raise_if (not (is_pending batch.status)) not_pending (λ h. ground arith))
      λ u d waits.
        Ensures-bind (λ u d. batch.requested_by ≢ by)
          (Ensures-raise_if (batch.requested_by == by) (control_violation c6) (λ h. ground arith))
          λ u' d' other.
            let done : (batch.status ≡ pending_approval)
                × (batch.requested_by ≢ by)
                × (released ≡ released)
                × (some by ≡ some by)
                × (batch.requested_by ≡ batch.requested_by) =
              (waits, other, refl, refl, refl) in
            search (Ensures-then, Ensures-pure, done) depth 24

-- A batch is released only from its waiting state and by someone else than who requested it, and is
-- marked with who approved it.
pub approve_and_materialize-Releases :
    (env : Env) (outside : Outside) (batch out : ExportBatch) (by : Ident) (db after : Db)
    → approve_and_materialize env outside batch by db ≡ ok (out, after)
    → Releases batch by out
approve_and_materialize-Releases env outside batch out by db after e =
    Ensures-ok (approve_lem env outside batch by db) e
