-- ===== src/Tests/Registry.antt =====
-- The collectors of the agent on a machine that answers little, and the adapters of a concrete
-- network.
use mathlib.Core.List.{map, Memᴰ}
use employee_tracker.Common.{
  ◌≡◌, ◌⊎◌, inl, refl, true, false, none, some, List, [], ◌∷◌, Result, ok, err, os_error,
}
use employee_tracker.Common.Int.{pos, ◌+ℤ◌, ◌-ℤ◌}
use employee_tracker.Common.Sort.{sorted, Perm}
use employee_tracker.Common.Dict.{Dict, lookup}
use employee_tracker.Models.{
  as_string, null, bool, str, int, list, dict, items, fields, CollectorStatus, Fields, get_field,
  CollectorResult, CollectionBatch,
}
use employee_tracker.Orchestrator.Collect.{
  Task, duration_ms, collect_all, validate_limits, deadline_of, remaining_sec, results_of,
  collect_one, report, batch_of,
}
use employee_tracker.Payload.Build.{assemble, build_payload, event_matches, timestamp}
use employee_tracker.FileAudit.Collect as FileAudit
use employee_tracker.FileAudit.Walk.{missing}
use employee_tracker.Transport.Delay.{to_utc}
use employee_tracker.Users.{collect_users, user_records}
use employee_tracker.Network.Records.{Texts, optional_number}
use employee_tracker.Network.Collect.{
  Psutil, InterfaceAddress, InterfaceStats, Adapter, collect_adapters, scan_interfaces,
  with_adapter, scan_addresses,
}
use employee_tracker.Network.Adapters.{
  Described, IsTextOrder, NameSorted, collect_adapters-described,
}
use employee_tracker.Collectors.Registry.{Environment, Collector, registered, build_collectors}
use employee_tracker.Collectors.Sections.{Runs, all_run, one_runs, build_payload-reported}
use employee_tracker.Screenshot.{check_max_bytes}
use employee_tracker.Tests.Numbers.{numbers}
use employee_tracker.Tests.Settings.{loaded}
use employee_tracker.Tests.Gathering.{
  identity, host, noon, machine, text_ops, linux_machine, clock, pool,
}

abbrev texts : Texts
texts = record {
  digits = λ n. "80";
  casefold = λ s. s;
  text_lt = λ a b. false;
  is_finite = λ x. true;
}

abbrev ethernet : List InterfaceAddress
ethernet =
    (record { is_ipv4 = false; is_link = true; address = str "02:00" })
    ∷ (record { is_ipv4 = true; is_link = false; address = null })
    ∷ (record { is_ipv4 = true; is_link = false; address = str "10.0.0.7" })
    ∷ (record { is_ipv4 = true; is_link = false; address = str "10.0.0.8" })
    ∷ []

abbrev up : InterfaceStats
up = record { isup = bool true; speed = int (pos 1000); mtu = int (pos 1500) }

abbrev psutil : Psutil
psutil = record {
  net_if_addrs = ok (("eth0", ethernet) ∷ ("tun0", []) ∷ []);
  net_if_stats = ok (("eth0", up) ∷ []);
  net_io_counters = ok none;
  net_connections = ok [];
}

texts-IsTextOrder : IsTextOrder texts
texts-IsTextOrder = record { asym = λ a b h. cc; cotrans = λ a b c h. cc }

abbrev wired : Adapter
wired = record {
  interface = "eth0";
  ipv4 = some "10.0.0.7";
  mac = some "02:00";
  speed_mb = int (pos 1000);
  mtu = int (pos 1500);
}

wired_collected : collect_adapters texts psutil ≡ ok (wired ∷ [])
unfolding collect_adapters scan_interfaces with_adapter scan_addresses sorted lookup as_string
    optional_number
wired_collected = refl

collect_adapters-described_example :
    (addresses : Dict (List InterfaceAddress)) × (stats : Dict InterfaceStats) × (found : List
      Adapter)
    × (psutil.net_if_addrs ≡ ok addresses)
    × (psutil.net_if_stats ≡ ok stats)
    × Described texts stats addresses found
    × Perm (wired ∷ []) found
    × NameSorted texts (wired ∷ [])
collect_adapters-described_example =
    collect_adapters-described texts psutil (wired ∷ []) texts-IsTextOrder wired_collected

abbrev silent : {A : Type 0} → Result A
silent = err (record { class = os_error; message = "" })

abbrev environment : Environment
environment = record {
  answers = record {
    uname = silent;
    boot_time = silent;
    fqdn = silent;
    python = "3.12";
    isoformat = λ t. silent;
    uptime = λ t. silent;
  };
  host = machine;
  sessions = ok [];
  rounding = record { zero_float = 0; mean = λ xs. 0; gigabytes = λ n. n };
  gauges = record {
    physical_cores = silent;
    logical_cores = silent;
    cpu_percent = silent;
    cpu_freq = silent;
    load_average = silent;
    virtual_memory = silent;
    swap_memory = silent;
    partitions = silent;
  };
  texts = texts;
  psutil = psutil;
  processes = [];
  text_ops = text_ops;
  installed = linux_machine "bash";
  cache_ttl = 100;
  now = 0;
  later = 1;
  cache = none;
  desktop = record {
    xdotool = silent;
    has_windll = false;
    foreground_window = silent;
    window_text = silent;
    window_process = silent;
    process_name = λ n. silent;
    osascript = silent;
    rpartition = λ s. ("", false, s);
    parse_int = λ s. none;
    is_unavailable = λ c. true;
  };
  sha256 = λ b. "digest";
  name_le = λ a b. true;
  target = λ path. missing;
  grabber = record {
    capture_png = silent;
    is_unavailable = λ c. true;
    now = "noon";
    base64 = λ b. "";
  };
}

abbrev task_of : Collector → Task
task_of c = record {
  name = c.name;
  outcome = c.collect;
  started_ns = pos 1000000;
  finished_ns = pos 9000000;
  done = true;
}

abbrev collectors : List Collector
collectors = registered environment loaded identity

abbrev tasks : List Task
unfolding registered
tasks = map task_of collectors

collectors_run : Runs collectors tasks
unfolding registered
collectors_run = one_runs refl refl (
    one_runs refl refl (
      one_runs refl refl (
        one_runs refl refl (
          one_runs refl refl (
            one_runs refl refl
              (one_runs refl refl (one_runs refl refl (one_runs refl refl all_run))))))))

collectors_built : build_collectors environment loaded identity ≡ ok collectors
unfolding build_collectors check_max_bytes FileAudit.check_limits
collectors_built = refl

abbrev batch : CollectionBatch
batch = batch_of clock (results_of (duration_ms (pos 0) (pos 30000000)) tasks)

batch_collected : collect_all numbers pool 100000000000000 clock (pos 4) 3000000 tasks ≡ ok batch
unfolding collect_all validate_limits deadline_of remaining_sec registered ◌+ℤ◌ ◌-ℤ◌
batch_collected = refl

abbrev built : Fields
built = assemble host "heartbeat" identity batch "noon" "e1"

payload_builds :
    build_payload host (λ t. "noon") noon "heartbeat" identity batch none "e1" ≡ ok built
unfolding build_payload event_matches timestamp to_utc ◌-ℤ◌
payload_builds = refl

abbrev users : CollectorResult
users = collect_one (task_of (record { name = "users"; collect = collect_users machine (ok []) }))

users_reported : Memᴰ users batch.results
unfolding registered results_of
users_reported = Memᴰ.tail (Memᴰ.head refl)

users_succeeded :
    (users.status ≡ CollectorStatus.success) ⊎ (users.status ≡ CollectorStatus.partial)
unfolding collect_one report collect_users user_records
users_succeeded = inl refl

users_given :
    (users.data_value ≡ dict (fields (("users", list (items [])) ∷ [])))
    × (get_field "users" (fields (("users", list (items [])) ∷ [])) ≡ some (list (items [])))
unfolding collect_one report collect_users user_records fields get_field
users_given = (refl, refl)

build_payload-reported_example : get_field "users" built ≡ some (list (items []))
build_payload-reported_example =
    build_payload-reported environment loaded identity collectors tasks numbers pool 100000000000000
      clock (pos 4) 3000000 batch host (λ t. "noon") noon "heartbeat" none "e1" built users
      (fields (("users", list (items [])) ∷ [])) "users" (list (items [])) collectors_built
      collectors_run batch_collected payload_builds users_reported users_succeeded users_given.0
      users_given.1
