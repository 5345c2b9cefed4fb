-- ===== src/IncomeTax.antt =====
-- The two income-tax engines, firmos-backend/engines/tax.py (Engine) and
-- firmos-backend/engines/income_tax_rules.py (Rules), the slab tables that they
-- read (Slabs), and the draft of a return, firmos-backend/core/itr_drafting.py (Drafting).
pub mod Slabs
pub mod Engine
pub mod Rules
pub mod Drafting
