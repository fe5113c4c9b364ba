-- ===== src/Lib.antt =====
-- Verification of the services of sole-backend that decide on stock options and the loans that pay
-- for their exercise. Each file names the source it models; this is the map of the whole.
--
-- Parts, and how they work together:
-- * Vesting (app/services/vesting_engine.py, app/models/employee_stock_grant.py): Stock/Vesting.antt,
--   with the dictionary of dates in Stock/Vesting/Dates.antt. compute_grant_vesting gives the vested
--   and unvested shares of a grant on a date; all other parts count with it.
-- * Grants (app/services/stock_grants.py): Stock/Grants.antt has create_grant, update_grant and
--   preview_grant as functions from a store (grants, memberships, audit log, two caches) to a result
--   and a store; Stock/Grants/Rules.antt has the rules on vesting events.
-- * Eligibility (app/services/eligibility.py): Stock/Eligibility.antt and Stock/Membership.antt.
-- * Quotes (app/services/loan_quotes.py): Loan/Quotes.antt puts together eligibility, reservations,
--   the allocation of shares (Loan/Allocation.antt), the payments (Loan/Payment.antt) and the options.
-- * Schedules (app/services/loan_schedules.py): Loan/Calendar.antt has the dates, Loan/Schedule.antt
--   the rows, Loan/Waterfall.antt the application of repayments to instalments.
-- * Payment status (app/services/loan_payment_status.py): Loan/PaymentStatus.antt.
-- * Rows of the loan services (app/models/loan_application.py, loan_workflow_stage.py,
--   stock_grant_reservation.py, loan_document.py, loan_repayment.py): Loan/Store.antt.
-- * Reservations (app/services/stock_reservations.py, and _reserve_shares_for_application of
--   app/services/loan_applications.py): Loan/Reservations.antt.
-- * Workflow (app/services/loan_workflow.py): Loan/Workflow.antt; the handlers update_hr_stage,
--   update_finance_stage and update_legal_stage of app/api/v1/routers/loan_admin.py:
--   Loan/Workflow/Stages.antt.
-- * Decisions (update_admin_application and cancel_draft_application of
--   app/services/loan_applications.py) and repayments
--   (app/services/loan_repayments.py): Loan/Lifecycle.antt. Loan/Lifecycle/Steps.antt makes one step
--   relation of these operations and those of the workflow.
-- * Drafts and submission (create_draft_application, update_draft_application and submit_application
--   of app/services/loan_applications.py): Loan/Drafts.antt and Loan/Submission.antt, with the marital
--   statuses of app/schemas/common.py in Loan/Marital.antt. What the services load before they begin
--   (settings, the latest rate, grants, the day) is the record Market; a draft passes through
--   calculate_loan_quote on each change. Their steps are part of Loan/Lifecycle/Steps.antt.
-- * Edits by an administrator (update_admin_application_fields, _delete_loan_documents and
--   _reset_workflow_stages of app/services/loan_applications.py): Loan/Edits.antt. They are not steps
--   of Loan/Lifecycle/Steps.antt; the stored objects of documents are left aside.
-- * Permissions (app/services/authz.py, app/core/permissions.py): Auth/Permissions.antt, with the codes
--   in Auth/PermissionCodes.antt.
-- * Security of logins (app/utils/login_security.py, app/utils/redis_client.py): Auth/LoginSecurity.antt
--   over Auth/Redis.antt, which says what the services rely on of Redis. The handler login of
--   app/api/v1/routers/auth.py puts limits, passwords and attempts together in Auth/Login.antt;
--   refresh_tokens, with what it uses of app/api/deps.py, is Auth/Sessions.antt (its checks) and
--   Auth/Refresh.antt.
-- * The second factor (app/services/mfa.py): Auth/Mfa.antt.
-- Prelude.antt has the shared names, Decimal.antt the decimal arithmetic of Python, Tests.antt runs of
-- the model and the theorems at concrete inputs.
--
-- Choices of the model. Tables are lists of rows in the order of their creation; a query is a filter,
-- and an update changes the rows with the same identifier. A service takes the store and gives a
-- result: the new store, or the error that the source raises, in which case nothing is committed.
-- `scalar_one_or_none` on several rows is an error. Identifiers are numbers, texts lists of code
-- points, calendar dates either ordinals or (year, month, day), times seconds since 1970 in UTC.
-- A date has a year from 1 to 9999: the ValueError of a later one, and the ZeroDivisionError of the
-- payment formula, are error values of the schedules and quotes.
-- Amounts that the source quantizes are whole cents; a Decimal is a coefficient over a power of ten,
-- with 28 digits and half-even rounding as in Python's default context. The power of a Decimal is a
-- function of the decimal library, and an argument of the definitions that use it. All loops recur
-- on their lists or on the number of periods, so there is no fuel. The outcome of the second factor
-- is an argument of the handlers, as is the present time. Redis is an interface: each
-- command either does what is documented and answers, or fails, and then it is unknown whether it was
-- carried out. Password hashes, SHA-256, tokens and random characters are arguments too.
--
-- Not modelled: columns that no modelled code reads (files, notes of assignments, texts of error
-- messages, snapshots in the audit log beyond the statuses), the schedules that remain and the what-if
-- schedules, sum_reserved_by_status_for_org, the permission cache, the further handlers of sessions,
-- settings, dashboards, exports, storage, announcements and HTTP. Locks and concurrent transactions are not
-- modelled either: one request runs at a time.
pub mod Prelude
pub mod Decimal
pub mod Stock
pub mod Loan
pub mod Auth
mod Tests
