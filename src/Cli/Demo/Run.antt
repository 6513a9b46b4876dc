-- ===== src/Cli/Demo/Run.antt =====
-- `seed_demo` of src/factory/cli.py: the tables, then three submissions. The hints that it prints are
-- left out.
use human_data.Cli.Demo.{seed_tables, one}
use human_data.Cli.{Outcome, fails, prints, bootstrap_admin, export_dataset, invoice}
use human_data.Model.Json.{Fields, Json, field, arr, cons, obj, text, end, nat}
use human_data.Store.{Db, find, Result, err, ok}
use human_data.Model.Entities.{Ident, Expert, Submission, Moment}
use human_data.Prelude.{String, Option, ℕ, List, ◌∷◌, some, [], none}
use human_data.Config.{Env}
use human_data.Qc.Engine.{submit}
use human_data.Export.Materialize.{Outside}

abbrev good_response : String
good_response =
    "Under ASC 606, the arrangement is analyzed with the five-step model. Step 1 — identify the contract: the signed order form creates enforceable rights and obligations. Step 2 — identify performance obligations: the 3-year license, implementation services, and annual support are assessed for distinctness; implementation that significantly customizes the software is combined with the license, while standard setup is distinct. Step 3 — determine the transaction price, including any variable consideration subject to the constraint. Step 4 — allocate the price to each performance obligation on a relative standalone selling price basis. Step 5 — recognize revenue as each obligation is satisfied: the license/SaaS obligation over the 3-year term (a stand-ready obligation satisfied over time), distinct implementation at the point service is completed or over the service period, and support ratably over each annual period. Judgment areas — SSP estimation and the distinctness of implementation — should be documented in the revenue memo."

abbrev entries_response : String
entries_response =
    "At invoicing on Jan 1, the company records the receivable and a contract liability because payment precedes performance: debit Accounts Receivable $120,000, credit Deferred Revenue $120,000. Each month, as the entity satisfies its stand-ready performance obligation ratably under ASC 606, it recognizes one-twelfth: debit Deferred Revenue $10,000, credit Subscription Revenue $10,000. By Dec 31 the contract liability is fully amortized and $120,000 of revenue has been recognized."

abbrev lease_response : String
lease_response =
    "No balance-sheet recognition is required if the lessee elects the short-term lease exemption. Under ASC 842, a lease with a term of 12 months or less at commencement, and no purchase option the lessee is reasonably certain to exercise, qualifies for the short-term exemption; the 10-month rental qualifies. The lessee recognizes lease expense on a straight-line basis instead of a right-of-use asset and lease liability, and discloses short-term lease cost."

abbrev first_content : Fields
first_content = field "response" (text good_response) (
    field "citations" (arr (one (text "ASC 606"))) (
      field "assumptions"
        (arr (one (text "Implementation does not significantly modify the software."))) end))

abbrev entry : String → ℕ → ℕ → Json
entry account debit credit =
    obj
      (field "account" (text account) (field "debit" (nat debit) (field "credit" (nat credit) end)))

abbrev second_content : Fields
second_content = field "response" (text entries_response) (
    field "citations" (arr (one (text "ASC 606"))) (
      field "financials"
        (obj (
          field "journal_entries"
            (arr (
              cons (entry "Accounts Receivable" 120000 0) (
                cons (entry "Deferred Revenue" 0 120000) (
                  cons (entry "Deferred Revenue (monthly)" 10000 0)
                    (one (entry "Subscription Revenue (monthly)" 0 10000))))))
            end))
        end))

abbrev third_content : Fields
third_content =
    field "response" (text lease_response) (field "citations" (arr (one (text "ASC 842"))) end)

abbrev expert_ref : Expert → Ident
expert_ref ex = ex.id

abbrev or_seeded : Expert → Option Expert → Expert
or_seeded ex none = ex
or_seeded ex (some now) = now

-- the expert as she stands after the submissions before
abbrev now_in : Db → Expert → Expert
now_in db ex = or_seeded ex (find expert_ref ex.id db.experts)

module _ {A B : Type 0} where
  -- a part that commits, then the rest; where the part raises, its changes are lost
  abbrev pub stage : Db → Result (A × Db) → (A → Db → Outcome B × Db) → Outcome B × Db
  stage db (err e) rest = (fails e, db)
  stage db (ok (a, after)) rest = rest a after

pub record Demo : Type 0 where
  pub firm_id : Ident
  pub project_id : Ident
  pub author : Ident
  pub reviewer : Ident
  pub submissions : List Submission

-- `seed_demo`
unfoldable pub seed_demo : Env → Ident → Db → Outcome Demo × Db
unfolding seed_tables
seed_demo env ops db = stage db (seed_tables env ops db) λ s seeded.
    stage seeded (submit env s.first (now_in seeded s.author) first_content seeded) λ a after_a.
      stage after_a (submit env s.second (now_in after_a s.author) second_content after_a)
        λ b after_b.
          stage after_b (submit env s.third (now_in after_b s.author) third_content after_b)
            λ c after_c. (
              prints (record {
                firm_id = s.firm_id;
                project_id = s.project_id;
                author = s.author.id;
                reviewer = s.reviewer;
                submissions = a ∷ b ∷ c ∷ [];
              }),
              after_c,
            )

-- a command that may write, with what is typed
pub data Command : Type 0 where
  bootstraps_admin : String → String → String → Command
  exports : Ident → Ident → Ident → Command
  invoices_firm : Ident → Moment → Moment → Ident → Command
  seeds : Ident → Command

-- the tables that a command leaves
unfoldable pub run_command : Env → Outside → Command → Db → Db
run_command env outside (bootstraps_admin name email secret) db =
    (bootstrap_admin env name email secret db).1
run_command env outside (exports project_id requested_by approved_by) db =
    (export_dataset env outside project_id requested_by approved_by db).1
run_command env outside (invoices_firm firm_id period_start period_end issued_by) db =
    (invoice env firm_id period_start period_end issued_by db).1
run_command env outside (seeds ops) db = (seed_demo env ops db).1
