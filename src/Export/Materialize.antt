-- ===== src/Export/Materialize.antt =====
-- src/factory/export.py: the records, and the release of a batch under dual control. The files are the
-- records in order; writing them, their hashes and the upload are parameters.
use human_data.Export.{Row, approved_rows}
use human_data.Prelude.{
  Option, String, List, ◌∷◌, ◌∷◌, ℕ, some, Bool, none, true, [], map, false, not, length,
}
use human_data.Store.{
  Action, ◌>>=◌, ◌>>◌, gets, raise_if, not_pending, modify, or_raise, find, attribute_error, pure,
  key_error, upload_failed, put,
}
use human_data.Model.Enums.{TaskType, sft, preference, eval, track_value, task_type_value}
use human_data.Model.Entities.{
  BatchStatus, ExportBatch, Ident, Project, pending_approval, released, ident, Firm,
}
use human_data.Model.Json.{
  Fields, Json, field, nat, end, text, get, arr, bool, nil, obj, null, Items, cons,
}
use human_data.Config.{Env}
use human_data.Audit.{record_event, chain_head}
use human_data.Controls.{assert_export_dual_control}

-- What the release reaches outside: the sha256 of a file with these rows, where the files are put,
-- and the storage, if one is configured, which gives the block of the manifest after both uploads,
-- or `none` for an exception (Export/Storage).
pub record Outside : Type 0 where
  pub sha256_rows : List Fields → ℕ
  pub base_path : Ident → String
  pub storage : Option (Ident → Option Fields)

-- `c.get(key, default)`
abbrev or_default : Option Json → Json → Json
or_default none d = d
or_default (some v) d = v

abbrev metadata : Row → Fields
metadata (t, s) = field "task_id" (nat t.id) (
    field "submission_id" (nat s.id) (
      field "version" (nat s.version)
        (field "sampled_human_review" (bool s.sampled_for_human_review) end)))

abbrev tail_of : Row → Fields → Fields
tail_of r c =
    field "citations" (or_default (get "citations" c) (arr nil))
      (field "metadata" (obj (metadata r)) end)

abbrev with_pair : Row → Option Json → Option Json → Option Fields
with_pair r (some chosen) (some rejected_text) = some (
    field "prompt" (text r.0.prompt) (
      field "chosen" chosen (
        field "rejected" rejected_text (
          field "rejection_rationale" (or_default (get "rejection_rationale" r.1.content) (text ""))
            (tail_of r r.1.content)))))
with_pair r _ _ = none

-- `_format_record`; `none` is the KeyError of a missing field
unfoldable pub format_record : TaskType → Row → Option Fields
format_record sft r = elim (get "response" r.1.content) [
  | none ↦ none
  | some v ↦ some (field "prompt" (text r.0.prompt) (field "completion" v (tail_of r r.1.content)))
]
format_record preference r = with_pair r (get "chosen" r.1.content) (get "rejected" r.1.content)
format_record eval r = elim (get "answer" r.1.content) [
  | none ↦ none
  | some v ↦ some (
      field "question" (text r.0.prompt) (
        field "reference_answer" v (
          field "grading_notes" (or_default (get "grading_notes" r.1.content) (text ""))
            (tail_of r r.1.content))))
]

abbrev both : Option Fields → Option (List Fields) → Option (List Fields)
both (some d) (some ds) = some (d ∷ ds)
both _ _ = none

unfoldable pub format_records : TaskType → List Row → Option (List Fields)
unfolding format_record
format_records task_type [] = some []
format_records task_type (r ∷ rs) = both (format_record task_type r) (format_records task_type rs)

abbrev pub is_pending : BatchStatus → Bool
is_pending pending_approval = true
is_pending released = false

-- `record[key]` of a record that `_format_record` made, where the key is there
abbrev item : String → Fields → Json
item key record_fields = or_default (get key record_fields) null

abbrev message : String → Json → Items → Items
message role content rest = cons (obj (field "role" (text role) (field "content" content end))) rest

-- `_to_chat`
unfoldable pub to_chat : Fields → Fields
to_chat r =
    field "messages"
      (arr (message "user" (item "prompt" r) (message "assistant" (item "completion" r) nil)))
      (field "metadata" (item "metadata" r) end)

-- `files`: the hash of each file, under its name
unfoldable pub files_of : Outside → TaskType → List Fields → Fields
unfolding to_chat
files_of outside sft records =
    field "sft.jsonl" (nat (outside.sha256_rows records))
      (field "chat.jsonl" (nat (outside.sha256_rows (map to_chat records))) end)
files_of outside preference records =
    field "preference.jsonl" (nat (outside.sha256_rows records)) end
files_of outside eval records = field "eval.jsonl" (nat (outside.sha256_rows records)) end

-- the block of the upload, if a storage is configured; `none` is an exception
abbrev pub upload : Option (Ident → Option Fields) → Ident → Option (Option Fields)
upload none batch_id = some none
upload (some storage) batch_id = elim (storage batch_id) [
  | none ↦ none
  | some block ↦ some (some block)
]

abbrev with_storage : Option Fields → Fields → Fields
with_storage none manifest = manifest
with_storage (some block) manifest = field "storage" (obj block) manifest

-- `manifest.get("storage", {}).get("backend", "local")`
abbrev backend_of : Option Fields → Json
backend_of none = text "local"
backend_of (some block) = or_default (get "backend" block) (text "local")

-- `"project"` of the manifest
abbrev project_block : Project → Firm → Fields
project_block project firm = field "id" (nat project.id) (
    field "name" (text project.name) (
      field "firm" (obj (field "id" (nat firm.id) (field "name" (text firm.name) end))) (
        field "track" (text (track_value project.track))
          (field "task_type" (text (task_type_value project.task_type)) end))))

abbrev batch_ref : ExportBatch → Ident
batch_ref b = b.id

unfoldable pub approve_and_materialize : Env → Outside → ExportBatch → Ident → Action ExportBatch
unfolding approved_rows format_records files_of
approve_and_materialize env outside batch approved_by = do
  raise_if (not (is_pending batch.status)) not_pending
  assert_export_dual_control batch.requested_by approved_by
  projects ← gets (λ db. db.projects)
  project ← or_raise (find (λ (p : Project). p.id) batch.project_id projects) attribute_error
  rows ← gets (λ db. approved_rows db project)
  records ← or_raise (format_records project.task_type rows) key_error
  firms ← gets (λ db. db.firms)
  firm ← or_raise (find (λ (f : Firm). f.id) project.firm_id firms) attribute_error
  head ← gets (λ db. chain_head db.audit_events)
  now ← gets (λ db. db.clock)
  block ← or_raise (upload outside.storage batch.id) upload_failed
  let files = files_of outside project.task_type records
  let manifest = with_storage block (
      field "project" (obj (project_block project firm)) (
        field "record_count" (nat (length records)) (
          field "files" (obj files) (
            field "audit_chain_head" (nat head) (
              field "generated_at" (nat now) (
                field "requested_by" (nat batch.requested_by)
                  (field "approved_by" (nat approved_by) batch.manifest)))))))
  let out = record batch {
    approved_by = some approved_by;
    path = some (outside.base_path batch.id);
    manifest = manifest;
    status = released;
  }
  modify (λ db. record db { export_batches = put batch_ref out db.export_batches })
  record_event env (ident approved_by) "export.released" "export_batch" batch.id (
      field "record_count" (nat (length records))
        (field "files" (obj files) (field "storage" (backend_of block) end)))
  pure out
