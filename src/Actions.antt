-- ===== src/Actions.antt =====
-- The finance actions, the writes to accounting providers that a person approves:
-- firmos-backend/core/finance_actions/engine.py (Engine), firmos-backend/automation/worker.py
-- (Worker), firmos-backend/automation/scheduler.py (Scheduler), over the tables and the triggers of
-- supabase/migrations/20260714000005_trust_spine.sql (Store).
pub mod Status
pub mod Codes
pub mod Store
pub mod Engine
pub mod Worker
pub mod Scheduler
pub mod System
