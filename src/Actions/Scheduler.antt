-- ===== src/Actions/Scheduler.antt =====
-- firmos-backend/automation/scheduler.py: tick releases the retries whose time has come.
use firmos.Base.{ℕ, Bool, ◌&&◌, ◌==◌, leb}
use firmos.Base.Lists.{any, keep, length}
use firmos.Actions.Status.{queued, retry_scheduled, same_status}
use firmos.Actions.Store.{Action, Job, Store}
use firmos.Actions.Store.Monad.{Db, ◌>>=◌, ◌>>◌, gets, pure, transaction, update, update_jobs}
use firmos.Actions.Engine.{set_status}

-- `status='RETRY_SCHEDULED' AND available_at<=NOW()`
abbrev pub due : ℕ → Job → Bool
due now j = same_status j.status retry_scheduled && leb j.available_at now

-- The join of the first UPDATE: an action in retry whose job is due.
abbrev pub released : Store → Action → Bool
released s a =
    same_status a.status retry_scheduled && any (λ j. j.aggregate_id == a.id && due s.now j) s.jobs

-- The count that comes back is that of the jobs.
unfoldable pub tick : Db ℕ
tick = transaction (do
  s ← gets (λ s. s)
  update (released s) (set_status queued)
  update_jobs (due s.now) (λ j. record j { status = queued })
  pure (length (keep (due s.now) s.jobs)))
