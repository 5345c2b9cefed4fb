-- ===== src/Actions/Codes.antt =====
-- The statuses of a provider's result (firmos-backend/connectors/platform/types.py) and the reason codes
-- that firmos-backend/automation/worker.py stores.
use firmos.Base.{ℕ, Bool, true, false}

pub data ResultStatus : Type 0 where
  success partial no_data unsupported auth_expired_result rate_limited : ResultStatus
  provider_unavailable invalid_mapping invalid_payload ambiguous_result needs_review_result :
      ResultStatus

abbrev pub is_success : ResultStatus → Bool
is_success ResultStatus.success = true
is_success _ = false

abbrev pub retryable : ResultStatus → Bool
retryable rate_limited = true
retryable provider_unavailable = true
retryable _ = false

-- The reason codes, which are only stored: the worker's own, a reason of the write block, the code of
-- a result, and the value of a result's status where it has no code.
pub data Code : Type 0 where
  action_not_found installation_unavailable certification_required mappings_required : Code
  already_reached readback_mismatch implementation_unavailable unexpected_failure : Code
  blocked reported : ℕ → Code
  status_value : ResultStatus → Code
