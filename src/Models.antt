-- ===== src/Models.antt =====
-- monitor_agent/models.py: the values that the parts of the agent exchange.
mod Values
unfoldable pub use Values.*
use employee_tracker.Common.{ℕ, String, Bool, Option, none, List}
use Values.{Json}
use employee_tracker.Common.Int.{ℤ}

pub data DeliveryKind : Type 0 where
  success retriable authentication permanent : DeliveryKind

-- The `value` of the enumeration, as the log shows it.
unfoldable pub kind_value : DeliveryKind → String
kind_value success = "success"
kind_value retriable = "retriable"
kind_value authentication = "authentication"
kind_value permanent = "permanent"

pub record CycleResult : Type 0 where
  pub event_id : String
  pub delivered : Bool
  pub spooled : Bool
  pub delivery_kind : Option DeliveryKind

pub record DeliveryResult : Type 0 where
  pub kind : DeliveryKind
  pub status_code : Option ℤ
  pub attempts : ℕ
  pub message : String

pub record SpoolStats : Type 0 where
  pub pending_count : ℕ
  pub pending_bytes : ℕ
  pub dead_letter_count : ℕ

pub record RetentionResult : Type 0 where
  pub evicted_count : ℕ
  pub evicted_bytes : ℕ

pub data CollectorStatus : Type 0 where
  success partial disabled timed_out failed : CollectorStatus

unfoldable pub status_value : CollectorStatus → String
status_value CollectorStatus.success = "success"
status_value partial = "partial"
status_value disabled = "disabled"
status_value timed_out = "timed_out"
status_value failed = "failed"

pub record CollectorPayload : Type 0 where
  pub data_value : Json
  pub status : CollectorStatus
  pub error_code : Option String
  pub error_message : Option String

-- `CollectorPayload(data=d)`, with the defaults of the dataclass.
abbrev pub plain_payload : Json → CollectorPayload
plain_payload d = record {
  data_value = d;
  status = CollectorStatus.success;
  error_code = none;
  error_message = none;
}

pub record CollectorResult : Type 0 where
  pub name : String
  pub status : CollectorStatus
  pub duration_ms : ℕ
  pub data_value : Json
  pub error_code : Option String
  pub error_message : Option String

pub record CollectionBatch : Type 0 where
  pub results : List CollectorResult
  pub duration_ms : ℕ
