-- ===== src/Collectors/Registry.antt =====
-- `Collector` and `build_collectors` of monitor_agent/collectors. A collector stands here with what
-- its `collect` gives for the answers of the machine.
use employee_tracker.Common.{ℕ, String, List, [], ◌∷◌, map, Result, ok, ◌>>◌, Bool}
use employee_tracker.Common.Int.{ℤ, pos}
use employee_tracker.Config.{FilePath, AgentConfig}
use employee_tracker.Identity.{MachineIdentity}
use employee_tracker.Models.{Float, CollectorPayload}
use employee_tracker.Processes.Collect.{Host, Probe}
use employee_tracker.Processes.Collect as Processes
use employee_tracker.FileAudit.Walk.{Target, audit_path_of}
use employee_tracker.FileAudit.Collect as FileAudit
use employee_tracker.Software.Inventory.{TextOps, Machine, Cached}
use employee_tracker.Software.Inventory as Software
use employee_tracker.Users.{UserSession, collect_users}
use employee_tracker.Network.Records.{Texts}
use employee_tracker.Network.Collect.{Psutil, collect_network}
use employee_tracker.Resources.{Rounding, Gauges, collect_resources}
use employee_tracker.Window.{Desktop, collect_active_window}
use employee_tracker.Screenshot.{Grabber, check_max_bytes, collect_screenshot}
use employee_tracker.SystemInfo.{Answers, collect_system}

-- What the machine answers to the collectors, and the cache of the software collector with the two
-- times that it reads.
pub record Environment : Type 0 where
  pub answers : Answers
  pub host : Host
  pub sessions : Result (List UserSession)
  pub rounding : Rounding
  pub gauges : Gauges
  pub texts : Texts
  pub psutil : Psutil
  pub processes : List Probe
  pub text_ops : TextOps
  pub installed : Machine
  -- the default `cache_ttl_sec`
  pub cache_ttl : Float
  pub now : Float
  pub later : Float
  pub cache : Cached
  pub desktop : Desktop
  pub sha256 : List ℕ → String
  -- the order of names in a directory, and what an audit path leads to
  pub name_le : String → String → Bool
  pub target : FilePath → Target
  pub grabber : Grabber

-- `Collector`
pub record Collector : Type 0 where
  pub name : String
  pub collect : Result CollectorPayload

abbrev pub default_limit : ℤ
default_limit = pos 100

unfoldable pub registered : Environment → AgentConfig → MachineIdentity → List Collector
registered e config identity =
    (record { name = "system"; collect = collect_system e.answers identity })
    ∷ (record { name = "users"; collect = collect_users e.host e.sessions })
    ∷ (record { name = "resources"; collect = collect_resources e.rounding e.gauges })
    ∷ (record {
      name = "network";
      collect = collect_network e.texts config.include_network_connections e.psutil;
    })
    ∷ (record {
      name = "processes";
      collect = Processes.collect e.host config.process_cmdline_mode default_limit e.processes;
    })
    ∷ (record {
      name = "software";
      collect =
          ok
            (Software.collect e.text_ops config.include_software e.cache_ttl e.installed e.now
              e.later e.cache).0;
    })
    ∷ (record {
      name = "active_window";
      collect = collect_active_window config.include_active_window e.host.platform e.desktop;
    })
    ∷ (record {
      name = "file_audit";
      collect =
          FileAudit.collect e.sha256 config.audit_max_files config.audit_max_file_bytes
            (map (λ path. audit_path_of e.name_le (e.target path)) config.audit_paths);
    })
    ∷ (record {
      name = "screenshot";
      collect = collect_screenshot e.grabber config.screenshot_enabled config.screenshot_max_bytes;
    })
    ∷ []

-- `build_collectors`, with the guards of the constructors
unfoldable pub build_collectors :
    Environment → AgentConfig → MachineIdentity → Result (List Collector)
build_collectors e config identity =
    FileAudit.check_limits e.sha256 config.audit_max_files config.audit_max_file_bytes
    >> check_max_bytes config.screenshot_max_bytes
    >> ok (registered e config identity)
