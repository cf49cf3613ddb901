-- ===== src/Lib.antt =====
-- The core services of the project lifecycle backend (backend/app), which reviews main projects and sub
-- projects, moves a sub project through its phases, takes its payments, lets a finished phase be opened
-- again, and hands sub projects over from one leader to another.
--
-- Parts. A main project has sub projects. `MainProjectService` and `SubProjectService` create them,
-- review them and end them; the approval of a sub project creates its phases, from a version of a
-- workflow template or six by default, of which phase 2 is the procurement, phase 4 the acceptance and
-- phase 5 the payment. `WorkflowService` writes and publishes these versions. `HandoverRequestService`
-- hands sub projects over when a request is approved or forced. `PhaseService` completes a phase when
-- its demands are met, activates the next one and completes the sub project with its last phase.
-- `RevokeRequestService` opens a completed phase again when a request is approved. `PaymentService`
-- adds payments and reversals, and keeps what sub projects and main projects have spent.
-- `AcceptanceStepService` keeps the steps that phase 4 waits for, and `TaskService` the tasks of the
-- members. All of them share one database, and hand notices to the notification service.
--
-- Files.
--   Base, with its children: lists as tables, integers, and text with the parts of Python's `str`.
--   Model: backend/app/models. A database is a record of lists of rows, in the order in which they
--     were added. A row that the session has changed is written back by its primary key.
--   Errors: backend/app/core/exceptions.py. A handler returns the new database or an error; an error
--     carries no database, since the session drops what was not committed.
--   Queries: the SELECT statements that several repositories share.
--   Phases: backend/app/services/phases.py. Rules has the document rules, Guards the checks of
--     `promote_phase`, Service the operations; Promotion, Demands, Tables, Effects, Invariant and
--     Completion have the lemmas and theorems.
--   Revokes: backend/app/services/revoke_requests.py, with Service, Review, Pending and Soundness.
--   Payments: backend/app/services/payments.py, with Money, Uploads and Service, and the theorems in
--     Spending, Budget, Cleanup and Reversals.
--   Acceptance: backend/app/services/acceptance_steps.py, with Service and Steps.
--   Tasks: backend/app/services/tasks.py, with Service and Reassign (`update_task`); Status, Rows, Update
--     and Numbers have the lemmas and theorems.
--   MainProjects: backend/app/services/main_projects.py, with Creation, Review and Closing, and Effects
--     for what a call that returns has checked.
--   SubProjects: backend/app/services/sub_projects.py, with Creation, Review, Members and Closing;
--     Effects and Staffing for what a call that returns has checked; Definitions, Approval, Budget,
--     Ending, Leaders, Numbers and Handovers for the theorems.
--   Portfolio: the calls of these two services as steps of a relation on databases. Lifecycle has the
--     abstract life of a sub project; Tables, Refinement and Closure have the theorems.
--   Handovers: backend/app/services/handover_requests.py, with Service, Transfers and Decisions.
--   Workflows: backend/app/services/workflows.py, with Service, and Publishing for the calls as steps of
--     a relation and the theorems.
--   Numbering: the numbers of payments, tasks and sub projects (`next_sequence_from_payment_numbers` and
--     `next_sequence_from_task_numbers`), with decimal printing in Decimal.
--   System: the calls of the phase, revoke and payment services, together with the steps of Portfolio, as
--     steps of a relation on databases, with Accounts, Frames and Projects (what each service leaves of
--     the others' tables), Reachability and Ledger.
--   Tests: runs of the services on one small database.
--
-- Conventions. An id is a number, as is a time, a date, and a code point; money is a number of cents,
-- as the columns Numeric(15, 2) hold it. `Env` gives a call its clock, its date and the ids that it
-- draws. The calls `NotificationService.send` and `AuditLogWriter.enqueue` are recorded in order. The
-- queries follow the repositories over SQLAlchemy; a query without an order has the order of the rows,
-- in which a row that is updated keeps its place, and text is compared by code points. A task holds its
-- rows of task_executors. A handover request counts time in microseconds.
-- `str(n)` is printed on fuel n + 1, which is enough, since each digit divides n by ten.
--
-- Not modelled. The database engine and its locks are assumed to run the calls one after another;
-- of its constraints, those on the numbers of new phases and on columns that a review sets to null
-- are modelled, and the primary and foreign keys are premises of the steps of System that write
-- projects. A row gets its time of update by an UPDATE that changes no value too; a notification
-- service, an audit writer and a storage are given to every service. What the storage saves and
-- deletes, what the file validator accepts and whether the database takes the rows of a payment are
-- parameters; what may fail after a commit (a refresh, a notice, the last read) is assumed not to. Decimal values are exact: the limit of 28 digits
-- of the decimal context is left out, and `int` reads ASCII digits. The columns `doc_no` and
-- `display_name`, and other columns that the services only store, are left out, and so are the
-- messages of the exceptions. The HTTP layer, the frontend, and the other services (documents,
-- reports, notifications and their channels, authentication, project templates, imports, exports
-- and the AI services) are not part of this development. Of the payment, task, main project, sub
-- project, handover and workflow services the paged and the single reads, which change nothing, are
-- left out too.
mod Base
pub mod Model
pub mod Errors
pub mod Queries
pub mod Phases
pub mod Revokes
pub mod Numbering
pub mod Payments
pub mod Acceptance
pub mod Tasks
pub mod SubProjects
pub mod MainProjects
pub mod Workflows
pub mod Portfolio
pub mod Handovers
pub mod System
mod Tests
