-- ===== src/Network/Collect.antt =====
-- The adapters, the counters and `NetworkCollector` of monitor_agent/collectors/network.py. What psutil
-- answers is a parameter.
use employee_tracker.Common.{
  String, Bool, true, false, not, Option, none, some, List, [], ◌∷◌, map, Result, ok, err,
  ErrorClass, permission_error, access_denied, ◌>>=◌, if◌then◌else◌,
}
use employee_tracker.Common.Dict.{Dict, lookup}
use employee_tracker.Common.Sort.{sorted}
use employee_tracker.Models.{
  Json, bool, str, list, dict, items, fields, nullable, as_string, CollectorPayload,
  CollectorStatus, plain_payload,
}
use employee_tracker.Network.Records.{
  Texts, optional_number, Connection, ConnectionRecord, connection_record, connection_value, key_le,
}

-- One address of an interface: whether `family == socket.AF_INET` and `family == link_family`, and
-- the address.
pub record InterfaceAddress : Type 0 where
  pub is_ipv4 : Bool
  pub is_link : Bool
  pub address : Json

pub record InterfaceStats : Type 0 where
  pub isup : Json
  pub speed : Json
  pub mtu : Json

pub record IoCounters : Type 0 where
  pub bytes_sent : Json
  pub bytes_recv : Json
  pub packets_sent : Json
  pub packets_recv : Json
  pub errin : Json
  pub errout : Json

-- What psutil answers.
pub record Psutil : Type 0 where
  pub net_if_addrs : Result (Dict (List InterfaceAddress))
  pub net_if_stats : Result (Dict InterfaceStats)
  pub net_io_counters : Result (Option IoCounters)
  pub net_connections : Result (List (Result Connection))

pub record Adapter : Type 0 where
  pub interface : String
  pub ipv4 : Option String
  pub mac : Option String
  pub speed_mb : Json
  pub mtu : Json

-- One assignment of the inner loop.
abbrev pub assign : Bool → Json → Option String → Option String
assign fits address (some s) = some s
assign fits address none = if fits then as_string address else none

-- The loop over the addresses of one interface: `ipv4` and `mac`.
unfoldable pub scan_addresses :
    List InterfaceAddress → Option String → Option String → Option String × Option String
scan_addresses [] ipv4 mac = (ipv4, mac)
scan_addresses (a ∷ addresses) ipv4 mac =
    scan_addresses addresses (assign a.is_ipv4 a.address ipv4) (assign a.is_link a.address mac)

abbrev pub is_up : InterfaceStats → Bool
is_up s = elim s.isup [ bool b ↦ b | _ ↦ false ]

-- One round of the loop over the interfaces, by `stats.get(interface)`.
unfoldable pub with_adapter :
    Texts → String → List InterfaceAddress → Option InterfaceStats → List Adapter → List Adapter
with_adapter t interface addresses none rest = rest
with_adapter t interface addresses (some s) rest =
    let found = scan_addresses addresses none none in
    if is_up s
    then (record {
      interface = interface;
      ipv4 = found.0;
      mac = found.1;
      speed_mb = optional_number t s.speed;
      mtu = optional_number t s.mtu;
    })
      ∷ rest
    else rest

-- The loop over the interfaces.
unfoldable pub scan_interfaces :
    Texts → Dict InterfaceStats → Dict (List InterfaceAddress) → List Adapter
scan_interfaces t stats [] = []
scan_interfaces t stats ((interface, addresses) ∷ interfaces) =
    with_adapter t interface addresses (lookup interface stats) (scan_interfaces t stats interfaces)

-- The order of `casefold` of the interfaces.
unfoldable pub adapter_le : Texts → Adapter → Adapter → Bool
adapter_le t a b = not (t.text_lt (t.casefold b.interface) (t.casefold a.interface))

-- `_collect_adapters`
unfoldable pub collect_adapters : Texts → Psutil → Result (List Adapter)
collect_adapters t p = p.net_if_addrs >>= λ addresses.
    p.net_if_stats >>= λ stats. ok (sorted (adapter_le t) (scan_interfaces t stats addresses))

unfoldable pub adapter_value : Adapter → Json
adapter_value a = dict (
    fields (
      ("interface", str a.interface)
      ∷ ("ipv4", nullable a.ipv4)
      ∷ ("mac", nullable a.mac)
      ∷ ("speed_mb", a.speed_mb)
      ∷ ("mtu", a.mtu)
      ∷ []))

abbrev io_fields : Texts → Option IoCounters → List (String × Json)
io_fields t none = []
io_fields t (some c) =
    ("bytes_sent", optional_number t c.bytes_sent)
    ∷ ("bytes_recv", optional_number t c.bytes_recv)
    ∷ ("packets_sent", optional_number t c.packets_sent)
    ∷ ("packets_recv", optional_number t c.packets_recv)
    ∷ ("errin", optional_number t c.errin)
    ∷ ("errout", optional_number t c.errout)
    ∷ []

-- `_collect_io`
unfoldable pub collect_io : Texts → Psutil → Result Json
collect_io t p = p.net_io_counters >>= λ counters. ok (dict (fields (io_fields t counters)))

unfoldable pub network_data : List Json → List Json → Json → Json
network_data adapters connections io = dict (
    fields (
      (
        "network",
        dict (
            fields (
              ("adapters", list (items adapters))
              ∷ ("connections", list (items connections))
              ∷ ("io", io)
              ∷ [])),
      )
      ∷ []))

-- The comprehension over the connections.
unfoldable pub connection_records : Texts → List (Result Connection) → List ConnectionRecord
connection_records t [] = []
connection_records t (c ∷ connections) =
    let rest = connection_records t connections in
    elim (connection_record t c) [ none ↦ rest | some r ↦ r ∷ rest ]

-- `except (PermissionError, psutil.AccessDenied)`
abbrev pub is_denied : ErrorClass → Bool
is_denied permission_error = true
is_denied access_denied = true
is_denied _ = false

-- `NetworkCollector.collect` behind the adapters and the counters
unfoldable pub collect_connections : Texts → Psutil → List Json → Json → Result CollectorPayload
collect_connections t p adapters io = elim p.net_connections [
  | ok raw ↦
      let connections = sorted (key_le t) (connection_records t raw) in
      ok (plain_payload (network_data adapters (map connection_value connections) io))
  | err e ↦
      if is_denied e.class
      then ok (record {
        data_value = network_data adapters [] io;
        status = CollectorStatus.partial;
        error_code = some "network_connections_denied";
        error_message = some "network connections unavailable";
      })
      else err e
]

-- `NetworkCollector.collect`
unfoldable pub collect_network : Texts → Bool → Psutil → Result CollectorPayload
collect_network t enabled p =
    if enabled
    then collect_adapters t p >>= (λ adapters.
      collect_io t p >>= (λ io. collect_connections t p (map adapter_value adapters) io))
    else ok (record {
      data_value = network_data [] [] (dict (fields []));
      status = CollectorStatus.disabled;
      error_code = none;
      error_message = none;
    })
