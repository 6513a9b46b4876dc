-- ===== src/Api/Oversight/Release.antt =====
-- `approve_export` of src/factory/api/main.py: who releases a batch.
use human_data.Api.Oversight.{approve_export, batch_ref, approver_of}
use human_data.Config.{Env}
use human_data.Export.Materialize.{Outside, approve_and_materialize}
use human_data.Auth.{Actor, Credentials}
use human_data.Model.Entities.{Ident, ExportBatch, released, pending_approval}
use human_data.Store.{Db, find}
use human_data.Prelude.{◌≡◌, false, some, ◌≢◌, sym, ap, ◌∙◌, subst}
use human_data.Auth.Access.{IsAuthorised}
use human_data.Api.{internal, release_response}
use human_data.Store.Ensures.{Ensures, Ensures-bind, Ensures-of}
use human_data.Api.Lookups.{Ensures-actor, Ensures-get, Ensures-catching}
use human_data.Export.Release.{Releases, approve_and_materialize-Releases}

-- A waiting batch, and an authorised member of the staff who did not request it.
abbrev pub IsReleasedByAnother : Env → Credentials → Db → Ident → Type 0
IsReleasedByAnother env credentials db batch_id =
    (actor : Actor) × (batch : ExportBatch) × IsAuthorised env credentials internal db actor
    × (find batch_ref batch_id db.export_batches ≡ some batch)
    × (batch.status ≡ pending_approval)
    × (batch.requested_by ≢ actor.id)

approver_lem :
    (env : Env) (actor : Actor) (by : Ident)
    → env.settings.auth_disabled ≡ false
    → approver_of env actor by ≡ actor.id
approver_lem env actor by on = rw on

-- Where authentication is on: a batch is released only by an authorised member of the staff other
-- than the one who requested it, whatever the body says, and only from its waiting state.
pub approve_export-IsReleasedByAnother :
    (env : Env) (outside : Outside) (credentials : Credentials) (batch_id by : Ident) (db : Db)
    → env.settings.auth_disabled ≡ false
    → Ensures
        (approve_export env outside credentials batch_id by)
        db
        (λ out db'. IsReleasedByAnother env credentials db batch_id × (out.status ≡ released))
unfolding approve_export
approve_export-IsReleasedByAnother env outside credentials batch_id by db on =
    Ensures-actor env credentials internal _ on (λ actor db1 who same.
      Ensures-get batch_ref (λ db. db.export_batches) batch_id _
        (λ batch found.
          Ensures-bind (λ out db'. Releases batch (approver_of env actor by) out)
            (Ensures-catching release_response
              (approve_and_materialize env outside batch (approver_of env actor by))
              (Ensures-of (approve_and_materialize env outside batch (approver_of env actor by))
                (λ out db' e.
                  approve_and_materialize-Releases env outside batch out (approver_of env actor by)
                    db1 db' e)))
            (λ out db2 r. record {
              at = (
                (
                  actor,
                  batch,
                  who,
                  sym (ap (λ (d : Db). find batch_ref batch_id d.export_batches) same) ∙ found,
                  r.0,
                  subst (λ i. batch.requested_by ≢ i) (approver_lem env actor by on) r.1,
                ),
                r.2,
              );
            })))
