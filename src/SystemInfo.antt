-- ===== src/SystemInfo.antt =====
-- monitor_agent/collectors/system.py. What platform, psutil, socket, sys and time answer is a
-- parameter.
use employee_tracker.Common.{String, [], ◌∷◌, Result, ok, ◌>>=◌}
use employee_tracker.Common.Int.{ℤ, pos, pos_part}
use employee_tracker.Identity.{MachineIdentity}
use employee_tracker.Models.{Float, int, str, dict, fields, CollectorPayload, plain_payload}

pub record Uname : Type 0 where
  pub system : String
  pub release : String
  pub version : String
  pub machine : String
  pub processor : String

-- `uptime` is `int(time.time() - boot_timestamp)`.
pub record Answers : Type 0 where
  pub uname : Result Uname
  pub boot_time : Result Float
  pub fqdn : Result String
  pub python : String
  pub isoformat : Float → Result String
  pub uptime : Float → Result ℤ

-- `SystemCollector.collect`
unfoldable pub collect_system : Answers → MachineIdentity → Result CollectorPayload
collect_system a identity = a.uname >>= λ uname. a.boot_time >>= λ boot_timestamp.
    a.fqdn >>= λ hostname. a.isoformat boot_timestamp >>= λ boot_time.
    a.uptime boot_timestamp >>= λ uptime. ok (
      plain_payload (
        dict (
          fields (
            (
              "system",
              dict (
                  fields (
                    ("hostname", str hostname)
                    ∷ ("machine_id", str identity.value)
                    ∷ ("os", str uname.system)
                    ∷ ("os_release", str uname.release)
                    ∷ ("os_version", str uname.version)
                    ∷ ("architecture", str uname.machine)
                    ∷ ("processor", str uname.processor)
                    ∷ ("python", str a.python)
                    ∷ ("boot_time", str boot_time)
                    ∷ ("uptime_sec", int (pos (pos_part uptime)))
                    ∷ [])),
            )
            ∷ []))))
