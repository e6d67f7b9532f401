-- ===== src/Config/Agent.antt =====
-- `AgentConfig` and `ProcessCmdlineMode` of monitor_agent/config.py.
use employee_tracker.Common.{String, Bool, Option, List}
use employee_tracker.Common.Int.{ℤ}
use employee_tracker.Models.{Float}

-- a `pathlib.Path`, as the text that it was made from
abbrev pub FilePath : Type 0
FilePath = String

pub data ProcessCmdlineMode : Type 0 where
  no_cmdline redacted full : ProcessCmdlineMode

pub data LogFormat : Type 0 where
  text json : LogFormat

pub record AgentConfig : Type 0 where
  pub collector_uri : Option String
  pub api_token : Option String
  pub heartbeat_sec : ℤ
  pub startup_delay_sec : ℤ
  pub connect_timeout_sec : Float
  pub read_timeout_sec : Float
  pub collection_timeout_sec : Float
  pub max_collector_workers : ℤ
  pub spool_path : FilePath
  pub spool_max_bytes : ℤ
  pub spool_max_age_sec : ℤ
  pub replay_batch_size : ℤ
  pub ca_bundle : Option FilePath
  pub process_cmdline_mode : ProcessCmdlineMode
  pub include_network_connections : Bool
  pub include_software : Bool
  pub include_active_window : Bool
  pub audit_paths : List FilePath
  pub audit_max_files : ℤ
  pub audit_max_file_bytes : ℤ
  pub screenshot_enabled : Bool
  pub screenshot_max_bytes : ℤ
  pub employee_notice_acknowledged : Bool
  pub log_path : Option FilePath
  pub log_format : LogFormat
  pub log_level : String
