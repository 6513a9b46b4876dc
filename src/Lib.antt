-- ===== src/Lib.antt =====
-- Human Data Factory: contributors answer tasks, three gates check each answer, a human decides
-- the doubtful ones, and each approved record is metered and invoiced.
--
-- The parts, with the files of src/factory/ that they model: Model (models.py): the rows and
-- enumerations. Store (db.py): Engine has the engine that is made once; a session is an action
-- from the tables to a result and new tables. An action that raises commits nothing, since the
-- API closes its session then. Every id is the number of its uuid in the order of drawing, so
-- ids differ. Config (config.py): the settings, and Env, which gathers what the program reaches
-- outside itself: sha256, the regular expressions, float() and str() of Python, the reviewer
-- model and the Stripe library. They are parameters of the model, with no law assumed of them.
-- Audit (audit.py): record_event is `record`; the trail is a list in the order of seq. Controls
-- (controls.py): the six policies. Rubrics (rubrics.py). Validators (validators.py): the checks
-- of gate 1, with the tie-out of financials in Validators/Financials and `run_all` in
-- Validators/Run. Qc (qc/): AutoReviewer is auto_reviewer.py, and Rows, Engine and Decision are
-- engine.py: submit, process, and human_review as review_by_human. Billing (billing/): Gateway
-- is stripe_gateway.py; Metering, Invoicing, Payments and Reports are the parts of service.py.
-- Export and Export/Materialize (export.py) with Export/Storage (storage.py), Ratelimit with
-- Ratelimit/Middleware (ratelimit.py), Calibration (qc/calibration.py) and Config/Environment
-- (the variables of config.py). Auth (auth.py): keys, the actor of a request, roles and firms.
-- Api (api/main.py): every endpoint as an action on the session, the checks of its actor first;
-- its children Accounts, Firms, Experts, Projects, Submissions, Invoices and Oversight follow
-- the sections of that file, with one function per handler under the handler's name. Factory has
-- the requests that write, and the commands, as steps from tables to tables. Cli (cli.py): the
-- commands, and Cli/Demo with the demo's rows and its run; a command is one session, of which
-- what is committed before a failure stays. Migrations (migrations/versions/): Baseline and
-- Checkout are the two revisions, Models the tables that the mappings of models.py describe. The
-- pipeline calls the validators, the controls, the reviewer and the metering; the pipeline, the
-- billing and the export record their events in the trail.
--
-- Scores, rates and amounts of journal entries are natural numbers of ten-thousandths, weights
-- of tenths, money of cents. A rounding of the program is one of the two nearest values, and Env
-- says which where a quotient falls half way. The loops are structural, so no fuel is needed. A
-- secret that a request draws is an argument of the request. Digests are numbers. Texts are read
-- as code points by the checks; lower() and the word characters beyond ASCII are parameters.
-- Criterion scores of a human review are well-formed rows of natural numbers.
--
-- Child modules named for what they prove: Audit/Chain and Tamper, Controls/Gating, Sampling and
-- Scores, Validators/Passing and Luhn, Qc/AutoReviewer/Verdicts and Overall, Qc/Engine/Routing,
-- Branches and Gate1, Qc/Decision/Reviewers, Billing/Metering/Once, Billing/Invoicing/LineItems,
-- Issue and Returns, Billing/Payments/Transitions, Billing/Reports/TieOut and AfterInvoice,
-- Export/Rows and Release, Ratelimit/Window, Calibration/Counts, Qc/Engine/Settled and Stored,
-- Billing/Reports/Window and Validators/Financials/TieOut. Billing/Invariant is the interface of
-- an invariant of the tables; Billing/Kept, Qc/Engine/Kept and Factory/Reachable are about any
-- such invariant, and Api/Kept too, with what such an invariant has to be kept by besides as
-- Registers; Factory/Trail, Factory/Billed and Factory/Registry are about one or two each.
-- Auth/Keys and Access, and in Api the modules Accounts/Revoked, Firms/Prices, Projects/Assigned
-- and Blind, Submissions/Themselves, Invoices/Isolation and Overall, Oversight/Release and
-- Responses prove what their names say, with Api/Lookups for the steps they share; Cli/Commands
-- and Kept, Migrations/RoundTrip and Head likewise. Store/Keeps has the rules for invariants of
-- actions, Store/Raises those for their errors, and Store/Ensures those for what an action that
-- returns ensures. Examples has concrete rows, and the theorems at them.
--
-- Not modelled: the commands init-db and serve and the printing, the writing and serialising of
-- the files of an export, the parsing of bodies by pydantic and the web framework around the
-- endpoints, the landing page, malformed or negative criterion scores of a human review, the
-- prompt that goes to the reviewer model, and the texts of messages.
pub mod Prelude
pub mod Model
pub mod Store
pub mod Rounding
pub mod Cli
pub mod Config
pub mod Audit
pub mod Auth
pub mod Controls
pub mod Rubrics
pub mod Validators
pub mod Qc
pub mod Billing
pub mod Calibration
pub mod Export
pub mod Ratelimit
pub mod Api
pub mod Migrations
pub mod Factory
mod Examples
