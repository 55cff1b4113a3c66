-- ===== src/Pool/Config.antt =====
-- internal/worker/pool/config.go. Durations are int64 nanoseconds.
use cloud_agent_platform.Base.{
  Bool, false, String, List, [], ℕ, ◌≡◌, ◌≤◌, ◌<◌, Option, none, some, arith, if◌then◌else◌,
}
use cloud_agent_platform.Base.Int64.{slt, sle, IsNonneg}

-- The options of the sandbox, which are passed on to it.
pub record SandboxOpts : Type 0 where
  pub image : String
  pub working_dir : String
  pub envvars : List (String × String)
  pub cpu_period : ℕ
  pub cpu_quota : ℕ
  pub memory_limit : ℕ
  pub network_disabled : Bool
  pub readonly_rootfs : Bool
  pub timeout : ℕ

pub record Config : Type 0 where
  pub min_workers : ℕ
  pub max_workers : ℕ
  pub scale_up_step : ℕ
  pub scale_down_step : ℕ
  pub scale_up_threshold : ℕ
  pub scale_down_threshold : ℕ
  pub scale_interval : ℕ
  pub health_check_interval : ℕ
  pub health_check_timeout : ℕ
  pub max_task_duration : ℕ
  pub cleanup_interval : ℕ
  pub idle_worker_ttl : ℕ
  pub shutdown_timeout : ℕ
  pub sandbox_opts : SandboxOpts

abbrev pub default_config : Config
default_config = record {
  min_workers = 2;
  max_workers = 10;
  scale_up_step = 2;
  scale_down_step = 1;
  scale_up_threshold = 5;
  scale_down_threshold = 2;
  scale_interval = 10_000_000_000;
  health_check_interval = 30_000_000_000;
  health_check_timeout = 5_000_000_000;
  max_task_duration = 300_000_000_000;
  cleanup_interval = 60_000_000_000;
  idle_worker_ttl = 300_000_000_000;
  shutdown_timeout = 30_000_000_000;
  sandbox_opts = record {
    image = "alpine:latest";
    working_dir = "";
    envvars = [];
    cpu_period = 0;
    cpu_quota = 0;
    memory_limit = 0;
    network_disabled = false;
    readonly_rootfs = false;
    timeout = 30_000_000_000;
  };
}

pub data ConfigError : Type 0 where
  invalid_min_workers max_workers_less_than_min invalid_scale_up_step invalid_scale_down_step
        invalid_scale_up_threshold invalid_scale_thresholds :
      ConfigError

unfoldable pub validate : Config → Option ConfigError
validate c =
    if slt c.min_workers 0
    then some invalid_min_workers
    else if slt c.max_workers c.min_workers
    then some max_workers_less_than_min
    else if sle c.scale_up_step 0
    then some invalid_scale_up_step
    else if sle c.scale_down_step 0
    then some invalid_scale_down_step
    else if sle c.scale_up_threshold 0
    then some invalid_scale_up_threshold
    else if sle c.scale_up_threshold c.scale_down_threshold
    then some invalid_scale_thresholds
    else none

-- What `Validate` ensures of int64 values: the sizes are at least 0 and in order, and the steps and
-- the upper threshold are positive.
pub record IsUsable (c : Config) : Type 0 where
  pub min_nonneg : IsNonneg c.min_workers
  pub max_nonneg : IsNonneg c.max_workers
  pub ordered : c.min_workers ≤ c.max_workers
  pub up_nonneg : IsNonneg c.scale_up_step
  pub up_positive : 0 < c.scale_up_step
  pub down_nonneg : IsNonneg c.scale_down_step
  pub down_positive : 0 < c.scale_down_step

-- The fields are int64 patterns.
pub record IsTyped (c : Config) : Type 0 where
  pub min_typed : c.min_workers < 18446744073709551616
  pub max_typed : c.max_workers < 18446744073709551616
  pub up_typed : c.scale_up_step < 18446744073709551616
  pub down_typed : c.scale_down_step < 18446744073709551616

pub validate-IsUsable : (c : Config) → IsTyped c → validate c ≡ none → IsUsable c
unfolding validate
validate-IsUsable c t h = ground arith
