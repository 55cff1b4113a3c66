-- ===== src/Outbox/Config.antt =====
-- `PollerConfig` of internal/infra/outbox/outbox.go. Durations are int64 nanoseconds.
use cloud_agent_platform.Base.{
  ℕ, String, Option, none, some, ◌==◌, string_comparable, if◌then◌else◌,
}
use cloud_agent_platform.Base.Int64.{slt, sle}

pub record PollerConfig : Type 0 where
  pub poll_interval : ℕ
  pub batch_size : ℕ
  pub max_retries : ℕ
  pub lock_duration : ℕ
  pub lock_key : String

abbrev pub default_poller_config : PollerConfig
default_poller_config = record {
  poll_interval = 1_000_000_000;
  batch_size = 100;
  max_retries = 5;
  lock_duration = 30_000_000_000;
  lock_key = "lock:outbox_poller";
}

pub data PollerConfigError : Type 0 where
  poll_interval_not_positive batch_size_not_positive max_retries_negative lock_duration_not_positive
        lock_key_missing :
      PollerConfigError

unfoldable pub validate_poller_config : PollerConfig → Option PollerConfigError
validate_poller_config c =
    if sle c.poll_interval 0
    then some poll_interval_not_positive
    else if sle c.batch_size 0
    then some batch_size_not_positive
    else if slt c.max_retries 0
    then some max_retries_negative
    else if sle c.lock_duration 0
    then some lock_duration_not_positive
    else if c.lock_key == ""
    then some lock_key_missing
    else none
