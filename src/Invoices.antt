-- ===== src/Invoices.antt =====
-- Purchase invoices: the GSTIN (Gstin), the state codes (States) and the
-- findings on an invoice (Findings, Validation) of
-- firmos-backend/core/purchase_invoices/validation.py.
pub mod Gstin
pub mod States
pub mod Findings
pub mod Validation
pub mod Checks
