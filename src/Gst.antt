-- ===== src/Gst.antt =====
-- firmos-backend/engines/gst.py: the components of a GST amount, the credit set off against it, and
-- the cells of the GSTR-3B return with their export (Export); Parser reads the GSTR-2B file; and
-- firmos-backend/engines/gst_components.py, the split of a provider's tax (ProviderSplit). Amounts
-- are paise. Python's integers are ℤ; what the code cuts off at zero by `max(0, ...)` is a ℕ from
-- there on. A dictionary with fixed keys is a record.
pub mod Components
pub mod Utilization
pub mod Return
pub mod ProviderSplit
pub mod Export
pub mod Parser
