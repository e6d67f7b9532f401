-- ===== src/Tests/Gathering.antt =====
-- The collectors, the payload and the identity at concrete inputs.
use employee_tracker.Common.{
  file_not_found, file_exists, overflow_error, Error, ◌⊎◌, leb, ℕ, ◌≡◌, ◌≢◌, ◌/◌, ◌%◌, refl, String,
  Bool, true, false, none, some, List, [], ◌∷◌, take, ok, err, timeout_error, length, ◌==◌,
  if◌then◌else◌, arith,
}
use employee_tracker.Common.Int.{◌-ℤ◌, pos, pos_part, ◌≤ℤ◌}
use employee_tracker.Common.Dict.{lookup}
use employee_tracker.Common.Sort.{sorted, Perm}
use employee_tracker.Models.{
  as_string, Fields, str, int, dict, fields, get_field, CollectorStatus, CollectorPayload,
  CollectionBatch, plain_payload,
}
use employee_tracker.Orchestrator.Collect.{Task, Clock, Pool, duration_ms, collect_all}
use employee_tracker.Orchestrator.Isolated.{AllReport, Stopped, collect_all-AllReport}
use employee_tracker.Config.Agent.{redacted, no_cmdline}
use employee_tracker.Processes.Redact.{
  Words, is_secret_flag, name_of, separated, redact_command_line,
}
use employee_tracker.Processes.Secrets.{
  SameButSecrets, finished, plain, flag, secret_value, redact_command_line-SameButSecrets,
}
use employee_tracker.Identity.Resolve.{System, MachineIdentity, stamped}
use employee_tracker.Identity.Origin.{byte_at, stamped-version}
use employee_tracker.FileAudit.Collect.{
  AuditPath, walk, absent, bytes, Limits, Progress, nothing_yet, audit_paths, audit_files,
  audit_file, examine, sha256_of, sha256_from, record_of,
}
use employee_tracker.FileAudit.Bounds.{IsBounded, audit_paths-IsBounded}
use employee_tracker.Identity.Resolve.{
  resolve_machine_identity, or_fallback, read_linux_machine_id, unless_os_error,
  load_or_create_fallback, read_fallback_file, create_fallback, read_concurrent_winner, winner_from,
}
use employee_tracker.Identity.Origin.{Origin, resolve_machine_identity-Origin}
use employee_tracker.Processes.Collect.{
  value, Probe, seen, denied, Host, ProcessRecord, processes_payload, collect, scan, is_incomplete,
  process_record, safe_float, utc_timestamp, number, get, safe_int, memory_rss_kb,
  command_arguments, top_records, before,
}
use employee_tracker.Processes.Ranking.{Readable, IsRanked, Tells, collect-Ranked}
use employee_tracker.Payload.Build.{
  Platform, assemble, build_payload, event_matches, timestamp, default_sections,
}
use employee_tracker.Payload.Sections.{Decided, build_payload-sections}
use employee_tracker.Payload.Deliverable.{build_payload-valid}
use employee_tracker.Transport.Delay.{DateTime, to_utc}
use employee_tracker.Transport.Delivery.{validate_payload}
use employee_tracker.Software.Inventory.{TextOps, Machine}
use employee_tracker.Tests.Numbers.{numbers}

abbrev tasks : List Task
tasks =
    (record {
      name = "system";
      outcome = ok (plain_payload (dict (fields [])));
      started_ns = pos 1000000;
      finished_ns = pos 9000000;
      done = true;
    })
    ∷ (record {
      name = "software";
      outcome = err (record { class = timeout_error; message = "dpkg-query" });
      started_ns = pos 1000000;
      finished_ns = pos 5000000;
      done = true;
    })
    ∷ (record {
      name = "network";
      outcome = ok (plain_payload (dict (fields [])));
      started_ns = pos 1000000;
      finished_ns = pos 1000000;
      done = false;
    })
    ∷ []

abbrev pub clock : Clock
clock = record {
  cycle_started_ns = pos 0;
  waiting_ns = pos 1000000;
  classification_ns = pos 30000000;
  ended_ns = pos 31000000;
}

-- A pool that can wait for a minute.
abbrev pub pool : Pool
pool = record {
  to_int = λ x. pos (x / 100000);
  divide = λ n m. ok (pos_part n / (m / 100000));
  submit = ok tt;
  wait = λ x.
      if leb x 6000000
      then ok tt
      else err (record { class = overflow_error; message = "timeout value is too large" });
}

collect_all-AllReport_example :
    ((b : CollectionBatch) × (collect_all numbers pool 100000000000000 clock (pos 4) 3000000 tasks
        ≡ ok b)
      × AllReport (duration_ms (pos 0) (pos 30000000)) tasks b.results)
    ⊎ ((e : Error) × (collect_all numbers pool 100000000000000 clock (pos 4) 3000000 tasks ≡ err e)
        × Stopped numbers pool 100000000000000 clock 3000000 e)
collect_all-AllReport_example =
    collect_all-AllReport numbers pool 100000000000000 clock (pos 4) 3000000 tasks (omega arith)
      refl refl

abbrev words : Words
words = record {
  casefold = λ s. s;
  upper = λ s. s;
  list2cmdline = λ xs. "windows";
  shlex_join = λ xs. "posix";
}

differ :
    SameButSecrets words false
      ("login" ∷ "--password" ∷ "hunter2" ∷ [])
      ("login" ∷ "--password" ∷ "swordfish" ∷ [])
unfolding is_secret_flag name_of separated
differ = plain "login" refl (
    flag false "--password" refl refl
      (secret_value "hunter2" "swordfish" refl refl (finished false)))

redact_command_line-SameButSecrets_example :
    redact_command_line words ("login" ∷ "--password" ∷ "hunter2" ∷ []) redacted "linux"
    ≡ redact_command_line words ("login" ∷ "--password" ∷ "swordfish" ∷ []) redacted "linux"
redact_command_line-SameButSecrets_example =
    redact_command_line-SameButSecrets words ("login" ∷ "--password" ∷ "hunter2" ∷ [])
      ("login" ∷ "--password" ∷ "swordfish" ∷ []) "linux" differ

abbrev sixteen : List ℕ
sixteen = 255 ∷ 1 ∷ 2 ∷ 3 ∷ 4 ∷ 5 ∷ 255 ∷ 7 ∷ 255 ∷ 9 ∷ 10 ∷ 11 ∷ 12 ∷ 13 ∷ 14 ∷ 15 ∷ []

stamped-version_example :
    (length (stamped sixteen) ≡ 16)
    × (byte_at 6 (stamped sixteen) / 16 ≡ 5)
    × (byte_at 8 (stamped sixteen) / 64 ≡ 2)
    × (byte_at 6 (stamped sixteen) % 16 ≡ byte_at 6 sixteen % 16)
    × (byte_at 8 (stamped sixteen) % 64 ≡ byte_at 8 sixteen % 64)
    × ((i : ℕ) → i ≢ 6 → i ≢ 8 → byte_at i (stamped sixteen) ≡ byte_at i sixteen)
stamped-version_example = stamped-version sixteen refl

abbrev hash : List ℕ → String
hash b = "digest"

abbrev audit_limits : Limits
audit_limits = record { max_files = 1; max_file_bytes = 4 }

abbrev audited : List AuditPath
audited =
    absent
    ∷ walk
        ((record {
          path = "/a";
          size = ok 3;
          modified = ok "t";
          content = ok (bytes (1 ∷ 2 ∷ 3 ∷ []) ∷ []);
        })
          ∷ (record {
            path = "/b";
            size = ok 3;
            modified = ok "t";
            content = ok (bytes (1 ∷ 2 ∷ 3 ∷ []) ∷ []);
          })
          ∷ [])
        false
    ∷ []

abbrev audit_end : Progress hash
audit_end = record {
  records = (record { path = "/a"; size_bytes = 3; modified = "t"; sha256 = "digest" }) ∷ [];
  partial = true;
  limit_reached = true;
}

audit_ends : audit_paths hash audit_limits audited (nothing_yet hash) ≡ ok audit_end
unfolding audit_paths audit_files audit_file examine sha256_of sha256_from record_of
audit_ends = refl

audit_paths-IsBounded_example : IsBounded hash audit_limits audit_end
audit_paths-IsBounded_example =
    audit_paths-IsBounded hash audit_limits audited (nothing_yet hash) audit_end (omega arith, tt)
      audit_ends

abbrev pub identity : MachineIdentity
identity = record { value = "m"; source = "persisted-random" }

abbrev batch : CollectionBatch
batch = record {
  results =
      (record {
        name = "system";
        status = CollectorStatus.success;
        duration_ms = 8;
        data_value = dict (fields (("system", dict (fields [])) ∷ []));
        error_code = none;
        error_message = none;
      })
      ∷ [];
  duration_ms = 31;
}

abbrev pub host : Platform
host = record { python = "3.12"; platform = "linux" }

abbrev pub noon : DateTime
noon = record { micros = pos 5; offset = some (pos 0) }

abbrev built : Fields
built = assemble host "heartbeat" identity batch "noon" "e1"

payload_builds :
    build_payload host (λ t. "noon") noon "heartbeat" identity batch none "e1" ≡ ok built
unfolding build_payload event_matches timestamp to_utc ◌-ℤ◌
payload_builds = refl

build_payload-sections_example :
    Decided "system" (lookup "system" default_sections) batch.results (get_field "system" built)
build_payload-sections_example =
    build_payload-sections host (λ t. "noon") noon "heartbeat" identity batch none "e1" built
      "system" payload_builds refl

build_payload-valid_example :
    (validate_payload built ≡ ok tt) × (get_field "event_id" built ≡ some (str "e1"))
build_payload-valid_example =
    build_payload-valid host (λ t. "noon") noon "heartbeat" identity batch none "e1" built refl refl
      payload_builds

abbrev system : System
system = record {
  strip = λ s. s;
  parse_uuid = λ s. some (some 4, s);
  uuid_of_bytes = λ b. "u";
  digest = λ s. sixteen;
  machine_id_file = err (record { class = file_not_found; message = "" });
  machine_guid = none;
  platform_expert = ok (1, none);
  make_directory = ok tt;
  first_read = err (record { class = file_not_found; message = "" });
  later_read =
      λ n. if n == 0 then err (record { class = file_not_found; message = "" }) else ok "theirs";
  candidate = "ours";
  create_file = err (record { class = file_exists; message = "" });
  write_file = ok tt;
  chmod = ok tt;
}

abbrev found : MachineIdentity
found = record { value = "theirs"; source = "persisted-random" }

identity_resolves : resolve_machine_identity system "linux" ≡ ok found
unfolding resolve_machine_identity or_fallback read_linux_machine_id unless_os_error
    load_or_create_fallback read_fallback_file create_fallback read_concurrent_winner winner_from
identity_resolves = refl

resolve_machine_identity-Origin_example : Origin system "linux" found
resolve_machine_identity-Origin_example =
    resolve_machine_identity-Origin system "linux" found ("ours", refl) identity_resolves

abbrev process : String → ℕ → Probe
process name rss = seen (
    ("name", value (str name))
    ∷ ("memory_info", value (dict (fields (("rss", int (pos rss)) ∷ []))))
    ∷ [])

abbrev pub machine : Host
machine = record {
  words = words;
  to_float = λ n. some 0;
  zero_float = 0;
  is_finite = λ x. true;
  isoformat = λ x. none;
  platform = "linux";
}

abbrev ranked_record : String → ℕ → ProcessRecord
ranked_record name kb = record {
  pid = pos 0;
  name = some name;
  user = none;
  status = none;
  cpu_pct = 0;
  mem_rss_kb = kb;
  exe = none;
  cmdline = "";
  started = none;
}

abbrev processes : List Probe
processes = process "small" 2048 ∷ denied ∷ process "large" 8192 ∷ []

abbrev largest : CollectorPayload
largest = processes_payload (ranked_record "large" 8 ∷ []) true

processes_collected : collect machine no_cmdline (pos 1) processes ≡ ok largest
unfolding collect scan is_incomplete process_record safe_float utc_timestamp number get safe_int
    memory_rss_kb command_arguments redact_command_line as_string top_records sorted before lookup
    get_field fields
processes_collected = refl

collect-Ranked_example :
    (rs ranked : List ProcessRecord) × (hidden : Bool) × (pos 1 ≤ℤ pos 1)
    × Readable machine no_cmdline processes rs hidden
    × Perm ranked rs
    × IsRanked ranked
    × Tells (take 1 ranked) hidden largest
collect-Ranked_example =
    collect-Ranked machine no_cmdline (pos 1) processes largest processes_collected

abbrev pub text_ops : TextOps
text_ops = record {
  strip = λ s. s;
  splitlines = λ s. s ∷ [];
  split_tab = λ s. s ∷ "1.0" ∷ [];
  split_first = λ s. s ∷ [];
  casefold = λ s. s;
  text_le = λ a b. true;
  floats = numbers;
}

abbrev pub linux_machine : String → Machine
linux_machine output = record {
  platform = "linux";
  dpkg_output = ok output;
  rpm_output = ok "";
  registry = none;
  applications = ok [];
  brew_output = ok "";
}
