-- ===== src/Network/Records.antt =====
-- The records of one connection of monitor_agent/collectors/network.py, and their order. psutil's
-- answers are parameters.
use Prim.Native.Char.{code}
use Prim.Native.String.{String, ◌++◌}
use employee_tracker.Common.{
  Bool, true, false, ◌||◌, Option, none, some, List, [], ◌∷◌, Result, ok, err, raise, other_error,
  ◌>>=◌, ◌==◌, if◌then◌else◌,
}
use employee_tracker.Common.Int.{ℤ, negsuc, leb_ℤ, eqb_ℤ, ltb_ℤ}
use employee_tracker.Models.{
  Float, Json, null, bool, int, float, str, dict, fields, nullable, as_string,
}

-- What Python's texts and floats do here: `str(n)`, `casefold`, the order `<` of texts and
-- `math.isfinite`.
pub record Texts : Type 0 where
  pub digits : ℤ → String
  pub casefold : String → String
  pub text_lt : String → String → Bool
  pub is_finite : Float → Bool

-- `_optional_int`
unfoldable pub optional_int : Json → Option ℤ
optional_int (int n) = some n
optional_int _ = none

abbrev pub nullable_int : Option ℤ → Json
nullable_int none = null
nullable_int (some n) = int n

-- `_optional_number`, as JSON
unfoldable pub optional_number : Texts → Json → Json
optional_number t (int n) = int n
optional_number t (float x) = if t.is_finite x then float x else null
optional_number t _ = null

-- A member of an enumeration, or what stands in its place: what `getattr(value, "name", None)` gives,
-- and the value itself, which is `none` for an object of a class that no test accepts.
pub record Member : Type 0 where
  pub name : Result Json
  pub plain : Option Json

abbrev plain_name : Texts → Option Json → String
plain_name t (some null) = "None"
plain_name t (some (str s)) = s
plain_name t (some (int n)) = t.digits n
plain_name t (some (bool true)) = "True"
plain_name t (some (bool false)) = "False"
plain_name t _ = "UNKNOWN"

-- `_enum_name`
unfoldable pub enum_name : Texts → Member → String
enum_name t m = elim m.name [
  | err e ↦ "UNKNOWN"
  | ok name ↦ elim (as_string name) [ none ↦ plain_name t m.plain | some s ↦ s ]
]

-- `None`, a sequence that is no text, an object with the attributes `ip` and `port`, one without
-- them, or one whose attributes raise another exception.
pub data Address : Type 0 where
  no_address : Address
  sequence : List Json → Address
  named : Json → Json → Address
  unnamed : Address
  raising : Address

-- `":" in host`
abbrev has_colon : String → Bool
has_colon String.[] = false
has_colon (String.◌∷◌ c s) = code c == b':' || has_colon s

-- `f"[{host}]:{port}" if ":" in host else f"{host}:{port}"` of a text and an integer
unfoldable pub endpoint : Texts → Json → Json → Option String
endpoint t (str host) (int port) =
    some (
      if has_colon host then "[" ++ host ++ "]:" ++ t.digits port else host ++ ":" ++ t.digits port)
endpoint t _ _ = none

-- `_format_address`
unfoldable pub format_address : Texts → Address → Result (Option String)
format_address t no_address = ok none
format_address t (sequence (host ∷ port ∷ _)) = ok (endpoint t host port)
format_address t (sequence _) = ok none
format_address t (named host port) = ok (endpoint t host port)
format_address t unnamed = ok none
format_address t raising = raise other_error ""

-- The attributes of a connection of psutil.
pub record Connection : Type 0 where
  pub fd : Json
  pub family : Member
  pub type : Member
  pub laddr : Address
  pub raddr : Address
  pub status : Json
  pub pid : Json

pub record ConnectionRecord : Type 0 where
  pub fd : Option ℤ
  pub family : String
  pub type : String
  pub laddr : Option String
  pub raddr : Option String
  pub status : Option String
  pub pid : Option ℤ

-- The `try` of `_connection_record`; a connection that has no such attributes stands as an error.
unfoldable pub read_connection : Texts → Result Connection → Result ConnectionRecord
read_connection t connection = connection >>= λ c. format_address t c.laddr >>= λ laddr.
    format_address t c.raddr >>= λ raddr. ok (record {
      fd = optional_int c.fd;
      family = enum_name t c.family;
      type = enum_name t c.type;
      laddr = laddr;
      raddr = raddr;
      status = as_string c.status;
      pid = optional_int c.pid;
    })

-- `_connection_record`
unfoldable pub connection_record : Texts → Result Connection → Option ConnectionRecord
connection_record t connection = elim (read_connection t connection) [
  | ok r ↦ some r
  | err e ↦ none
]

abbrev or_empty : Option String → String
or_empty none = ""
or_empty (some s) = s

abbrev or_minus_one : Option ℤ → ℤ
or_minus_one none = negsuc 0
or_minus_one (some n) = n

-- One place of two tuples that are compared, with the answer of the places behind it.
abbrev text_then : Texts → String → String → Bool → Bool
text_then t a b behind = if t.text_lt a b then true else if t.text_lt b a then false else behind

-- The order `≤` of the keys `_connection_sort_key`.
unfoldable pub key_le : Texts → ConnectionRecord → ConnectionRecord → Bool
key_le t a b = text_then t (t.casefold a.family) (t.casefold b.family) (
    text_then t (t.casefold a.type) (t.casefold b.type) (
      text_then t (or_empty a.laddr) (or_empty b.laddr) (
        text_then t (or_empty a.raddr) (or_empty b.raddr) (
          text_then t (or_empty a.status) (or_empty b.status) (
            if ltb_ℤ (or_minus_one a.pid) (or_minus_one b.pid)
            then true
            else if eqb_ℤ (or_minus_one a.pid) (or_minus_one b.pid)
            then leb_ℤ (or_minus_one a.fd) (or_minus_one b.fd)
            else false)))))

-- The dict that stands for a record in the payload.
unfoldable pub connection_value : ConnectionRecord → Json
connection_value r = dict (
    fields (
      ("fd", nullable_int r.fd)
      ∷ ("family", str r.family)
      ∷ ("type", str r.type)
      ∷ ("laddr", nullable r.laddr)
      ∷ ("raddr", nullable r.raddr)
      ∷ ("status", nullable r.status)
      ∷ ("pid", nullable_int r.pid)
      ∷ []))
