-- ===== src/Settings.antt =====
-- The settings that the modelled code reads (src/zammad_pdf_archiver/config/settings.py), without
-- the parsing and validation of pydantic.
use zammad_ticket_archiver.Base.{ℕ, Bool, Option}
use zammad_ticket_archiver.Base.Text.{Text}

-- `settings.workflow`; delays are nanoseconds
pub record WorkflowSettings : Type 0 where
  pub trigger_tag : Text
  pub require_tag : Bool
  pub acknowledge_on_success : Bool
  pub delivery_id_ttl_seconds : ℕ
  pub execution_backend : Text
  pub idempotency_backend : Text
  pub redis_url : Option Text
  pub queue_retry_max_attempts : ℕ
  pub queue_retry_backoff : ℕ
  pub queue_stream : Text
  pub queue_group : Text
  pub queue_consumer : Option Text
  pub queue_dlq_stream : Text
  pub queue_read_count : ℕ
  pub queue_read_block_ms : ℕ
