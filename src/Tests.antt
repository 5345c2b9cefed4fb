-- ===== src/Tests.antt =====
-- The theorems at concrete inputs, and runs of the code.
mod Gst
mod IncomeTax
mod Interest
mod Tds
mod Actions
mod Cancelled
mod Rules
mod Hardening
mod Invoices
mod Matching
mod Workpapers
mod Money
mod Tally
mod Agent
mod Registers
mod Parser
