-- ===== src/Lib.antt =====
-- firmOS: the computing and matching engines of the backend, its invoices, money and work papers,
-- and the finance actions, the writes to accounting providers that a person approves. Every path is
-- given from the repository's root.
--
-- The parts and their files:
-- * Finance actions (Actions). firmos-backend/core/finance_actions/engine.py proposes, approves and
--   cancels them (Actions/Engine); firmos-backend/automation/worker.py claims the queued jobs and
--   writes to a provider (Actions/Worker, Actions/Worker/Run);
--   firmos-backend/automation/scheduler.py releases retries (Actions/Scheduler). They share only
--   the tables of supabase/migrations/20260714000005_trust_spine.sql, whose triggers guard every
--   UPDATE on finance_actions (Actions/Status, Actions/Store). A block of statements is a function
--   on the tables that returns a value or an exception; outside a transaction each statement
--   commits (Actions/Store/Monad). Actions/System is the step relation of all three together.
-- * GST (Gst). firmos-backend/engines/gst.py: calculate_gst, calculate_net_gst_payable and
--   check_itc_eligibility (Gst/Components), apply_itc_utilization (Gst/Utilization) and
--   generate_gstr3b_tables (Gst/Return), export_gstr3b_gstn_json (Gst/Export);
--   firmos-backend/engines/gstr2b_parser.py, the JSON export alone (Gst/Parser);
--   firmos-backend/engines/gst_components.py, on the amounts that Money reads (Gst/ProviderSplit).
-- * Income tax (IncomeTax). firmos-backend/engines/tax.py (IncomeTax/Engine) and
--   firmos-backend/engines/income_tax_rules.py (IncomeTax/Rules, IncomeTax/Rules/Compute), both
--   against the slab-by-slab tax of a table of slabs (IncomeTax/Slabs);
--   firmos-backend/core/itr_drafting.py (IncomeTax/Drafting).
-- * Interest (Interest). firmos-backend/engines/interest.py.
-- * Tax deducted at source (Tds). firmos-backend/engines/tds.py.
-- * Matching (Matching). firmos-backend/engines/gstr2b_matcher.py gives the documents of a GSTR-2B
--   file to the purchases of the register (Matching/Gstr2b); firmos-backend/engines/reconcile.py
--   matches two sources of lines by scores (Matching/Reconcile);
--   firmos-backend/engines/bank_matcher.py scores the books' candidates for a bank transaction
--   (Matching/Bank).
-- * Work papers (Workpapers). firmos-backend/core/gst_workpapers/calculation.py makes the source
--   rows of a return (Workpapers/Rows) and sums them by table (Workpapers/Summary).
-- * Money (Money). firmos-backend/core/money.py.
-- * Purchase invoices (Invoices). firmos-backend/core/purchase_invoices/validation.py: the GSTIN
--   (Invoices/Gstin), the state codes (Invoices/States), and validate_invoice (Invoices/Findings,
--   Invoices/Validation, Invoices/Checks).
-- * Hardening (Hardening). firmos-backend/core/feature_flags.py (Hardening/Flags), whose answer
--   blocks a run of the worker, and of firmos-backend/core/hardening.py the retries
--   (Hardening/Retry), the rate limiter (Hardening/RateLimit) and the idempotency keys
--   (Hardening/Idempotency).
-- * Tally (Tally). firmos-backend/connectors/tally/canonical.py validates the vouchers that are
--   written (Tally/Voucher) and compares their read-back (Tally/Compare);
--   firmos-backend/api/routes/tally_agent_actions.py lets a paired device claim a finance action,
--   renew its lease and report the result (Tally/Agent, Tally/Agent/Precondition,
--   Tally/Agent/Claim, Tally/Agent/Report; its requests as steps, Tally/Agent/Steps). A request
--   that raises rolls back. The statuses and triggers are those of Actions/Status and Actions/Store,
--   the switches those of Hardening/Flags.
-- * Registers (Registers). firmos-backend/core/purchase_invoices/projection.py and
--   firmos-backend/core/sales_invoices/projection.py, which a verified report calls.
-- * Capabilities (Capabilities). firmos-backend/connectors/platform/capabilities.py.
-- * Base holds what these share: lists and their sorting, texts as code points, dicts as
--   association lists, values or exceptions, Python's integers, decimals, and binary64 floats with
--   round to nearest even, in which the engines divide (Base/Float). Tests holds runs at concrete
--   inputs.
--
-- Bounds. An amount that is divided in floats has a bound of 10 ^ 13 paise where the result is
-- compared with the integer quotient; the engines' other amounts have no bound. The float model has
-- no infinity; it normalizes in as many doublings and halvings as the exponents of binary64 allow,
-- which no amount below 2 ^ 1024 passes. The digits of a number are written and counted with the
-- number itself as fuel, or one more, as it has no more digits. No other definition is on fuel: the
-- rounds of a retry are the number of retries and one more. Money has the 28 digits of Python's
-- decimal context.
--
-- Parameters and what is left out. The hash of a payload is a parameter, and so are SHA-256 in the
-- version of a source row, rapidfuzz's score of two names, strptime, fromisoformat, the text of a
-- date, what Decimal reads in a text, and the text of a Decimal. What a run of the worker reads
-- from other tables, and what the provider, the read-back and the projections answer, is a record,
-- `Setting`. The operations are steps that do not overlap, but for the calls of a rate limiter, which
-- may sleep together; no statement fails but by a trigger; lost connections are not modelled, nor are
-- the checks of a key that overlap. A key that is only compared is a number; where the characters of a
-- text matter it is ASCII, and a missing text is the empty one. Clock times are ticks and dates are
-- numbers of days. Reasons and messages that a code fixes are left out. Row-level security,
-- correlation ids and the time stamps that nothing reads are left out. Arguments that the engines
-- take as paise of tax, income and payments in Interest, IncomeTax and Tds are natural numbers;
-- other amounts may be negative. Not modelled: the Excel export of GSTR-2B, the bank parsers, the
-- drafts of invoices, the other HTTP routes and connectors, extraction, workflows and clients.
pub mod Base
pub mod Actions
pub mod Gst
pub mod IncomeTax
pub mod Interest
pub mod Tds
pub mod Capabilities
pub mod Hardening
pub mod Invoices
pub mod Matching
pub mod Money
pub mod Registers
pub mod Tally
pub mod Workpapers
pub mod Tests
