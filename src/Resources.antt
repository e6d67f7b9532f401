-- ===== src/Resources.antt =====
-- monitor_agent/collectors/resources.py: processors, memory and disks. What psutil answers and the
-- operations on floats are parameters.
use employee_tracker.Common.{
  ℕ, ◌/◌, String, Bool, true, false, not, ◌||◌, Option, none, some, List, [], ◌∷◌, map, Result, ok,
  err, value_error, raise_if, ◌>>=◌, length, if◌then◌else◌,
}
use employee_tracker.Common.Int.{ℤ, pos, pos_part, eqb_ℤ}
use employee_tracker.Floats.{FloatOps}
use employee_tracker.Identity.{is_os_error}
use employee_tracker.Models.{
  Float, Json, null, int, float, str, list, dict, items, fields, CollectorPayload, CollectorStatus,
  plain_payload,
}

pub record VirtualMemory : Type 0 where
  pub total : ℕ
  pub available : ℕ
  pub used : ℕ
  pub percent : Float

pub record SwapMemory : Type 0 where
  pub total : ℕ
  pub used : ℕ
  pub percent : Float

pub record DiskUsage : Type 0 where
  pub total : ℕ
  pub used : ℕ
  pub free : ℕ
  pub percent : Float

-- A partition, with what `psutil.disk_usage` of its mount point gives.
pub record DiskPartition : Type 0 where
  pub device : String
  pub mountpoint : String
  pub fstype : String
  pub usage : Result DiskUsage

-- What psutil answers; a frequency or a load average that the platform does not have is `none`.
pub record Gauges : Type 0 where
  pub physical_cores : Result (Option ℤ)
  pub logical_cores : Result (Option ℤ)
  pub cpu_percent : Result (List Float)
  pub cpu_freq : Result (Option Float)
  pub load_average : Result (Option (List Float))
  pub virtual_memory : Result VirtualMemory
  pub swap_memory : Result SwapMemory
  pub partitions : Result (List DiskPartition)

-- Python's arithmetic here: the float zero, `round(sum(values) / len(values), 2)`, and
-- `round(size / 1024**3, 2)`.
pub record Rounding : Type 0 where
  pub zero_float : Float
  pub mean : List Float → Float
  pub gigabytes : ℕ → Float

-- The guard of `ResourceCollector.__init__`.
unfoldable pub check_sample : FloatOps → Float → Result (Unit {0})
check_sample f cpu_sample_sec =
    raise_if (not (f.is_finite cpu_sample_sec) || f.lt cpu_sample_sec (f.tenths 0)) value_error
      "cpu_sample_sec must be finite and non-negative"

-- `max(0, count or default)`
unfoldable pub core_count : Option ℤ → ℕ → ℕ
core_count none default_count = default_count
core_count (some n) default_count = if eqb_ℤ n (pos 0) then default_count else pos_part n

abbrev mean_or_zero : Rounding → List Float → Float
mean_or_zero r [] = r.zero_float
mean_or_zero r (x ∷ xs) = r.mean (x ∷ xs)

abbrev nullable_float : Option Float → Json
nullable_float none = null
nullable_float (some x) = float x

abbrev float_list : List Float → Json
float_list xs = list (items (map (λ x. float x) xs))

abbrev nullable_floats : Option (List Float) → Json
nullable_floats none = null
nullable_floats (some xs) = float_list xs

-- `_collect_cpu`
unfoldable pub collect_cpu : Rounding → Gauges → Result Json
collect_cpu r g = g.physical_cores >>= λ physical. g.logical_cores >>= λ logical.
    g.cpu_percent >>= λ percentages. g.cpu_freq >>= λ frequency. g.load_average >>= λ load_average.
    ok (
      dict (
        fields (
          ("physical_cores", int (pos (core_count physical 0)))
          ∷ ("logical_cores", int (pos (core_count logical (length percentages))))
          ∷ ("percent_total", float (mean_or_zero r percentages))
          ∷ ("percent_per", float_list percentages)
          ∷ ("freq_mhz", nullable_float frequency)
          ∷ ("load_avg", nullable_floats load_average)
          ∷ [])))

abbrev kilobytes : ℕ → Json
kilobytes n = int (pos (n / 1024))

-- `_collect_memory`
unfoldable pub collect_memory : Gauges → Result Json
collect_memory g = g.virtual_memory >>= λ ram. g.swap_memory >>= λ swap. ok (
    dict (
      fields (
        (
          "ram",
          dict (
              fields (
                ("total_kb", kilobytes ram.total)
                ∷ ("available_kb", kilobytes ram.available)
                ∷ ("used_kb", kilobytes ram.used)
                ∷ ("percent", float ram.percent)
                ∷ [])),
        )
        ∷ (
          "swap",
          dict (
              fields (
                ("total_kb", kilobytes swap.total)
                ∷ ("used_kb", kilobytes swap.used)
                ∷ ("percent", float swap.percent)
                ∷ [])),
        )
        ∷ [])))

unfoldable pub disk_value : Rounding → DiskPartition → DiskUsage → Json
disk_value r p u = dict (
    fields (
      ("device", str p.device)
      ∷ ("mountpoint", str p.mountpoint)
      ∷ ("fstype", str p.fstype)
      ∷ ("total_gb", float (r.gigabytes u.total))
      ∷ ("used_gb", float (r.gigabytes u.used))
      ∷ ("free_gb", float (r.gigabytes u.free))
      ∷ ("percent", float u.percent)
      ∷ []))

-- The loop of `_collect_disks`: the disks, and `disk_access_partial`.
unfoldable pub scan_disks : Rounding → List DiskPartition → Result (List Json × Bool)
scan_disks r [] = ok ([], false)
scan_disks r (p ∷ partitions) = elim p.usage [
  | ok u ↦ scan_disks r partitions >>= λ rest. ok (disk_value r p u ∷ rest.0, rest.1)
  | err e ↦
      if is_os_error e.class then scan_disks r partitions >>= (λ rest. ok (rest.0, true)) else err e
]

-- `_collect_disks`
unfoldable pub collect_disks : Rounding → Gauges → Result (List Json × Bool)
collect_disks r g = g.partitions >>= scan_disks r

unfoldable pub resources_payload : Json → Json → List Json → Bool → CollectorPayload
resources_payload cpu memory disks disk_access_partial =
    let data_value =
      dict (fields (("cpu", cpu) ∷ ("memory", memory) ∷ ("disks", list (items disks)) ∷ [])) in
    if disk_access_partial
    then record {
      data_value = data_value;
      status = CollectorStatus.partial;
      error_code = some "disk_access_partial";
      error_message = some "some disks unavailable";
    }
    else plain_payload data_value

-- `ResourceCollector.collect`
unfoldable pub collect_resources : Rounding → Gauges → Result CollectorPayload
collect_resources r g = collect_cpu r g >>= λ cpu. collect_memory g >>= λ memory.
    collect_disks r g >>= λ disks. ok (resources_payload cpu memory disks.0 disks.1)
