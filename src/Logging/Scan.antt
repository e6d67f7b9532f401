-- ===== src/Logging/Scan.antt =====
-- The conversions of a message template that take an argument: `_active_conversions` of
-- monitor_agent/logging_setup.py. What a regular expression matches is a parameter.
use Prim.Native.String.{String}
use employee_tracker.Common.{
  ℕ, suc, ◌+◌, Bool, true, false, not, ◌||◌, Option, none, some, List, [], ◌∷◌, str_eq, leb, length,
  is_some, if◌then◌else◌,
}
use employee_tracker.Common.Int.{ℤ}
use employee_tracker.Common.Dict.{Dict, lookup}
use employee_tracker.Models.{Float}

-- An `re.Match`: where it stands, and its groups.
pub record Match (G : Type 0) : Type 0 where
  pub start : ℕ
  pub end : ℕ
  pub groups : G

-- The groups of `_PRINTF_PATTERN`; a group that took no part is `none`.
pub record Printf : Type 0 where
  pub key : Option String
  pub width : String
  pub precision : Option String
  pub conversion : String

-- The groups of `_BEARER_PATTERN`.
pub record Bearer : Type 0 where
  pub header : String
  pub token : String

-- Group 0 of `_ACTIVE_MARKER_PATTERN`, and the number in it.
pub record Marker : Type 0 where
  pub whole : String
  pub index : ℕ

-- Python's texts, and `finditer` of the three patterns.
pub record Texts : Type 0 where
  -- `value.replace(old, new)`, `value[a:b]` and `value[a:]`
  pub replace : String → String → String → String
  pub slice : String → ℕ → ℕ → String
  pub slice_from : String → ℕ → String
  -- the text `\x00{index}\x00`
  pub marker_text : ℕ → String
  pub printf_matches : String → List (Match Printf)
  pub bearer_matches : String → List (Match Bearer)
  pub marker_matches : String → List (Match Marker)

-- An argument of a log record; an object of any other class stands as a number.
pub data Argument : Type 0 where
  text : String → Argument
  integer : ℤ → Argument
  floating : Float → Argument
  -- `_SAFE_REPRESENTATION`
  safe_representation : Argument
  object : ℕ → Argument

-- `record.args`: a tuple, a mapping, or what is neither.
pub data Arguments : Type 0 where
  positional : List Argument → Arguments
  mapping : Dict Argument → Arguments
  neither : Arguments

-- `_ActiveConversion`
pub record ActiveConversion : Type 0 where
  pub start : ℕ
  pub end : ℕ
  pub conversion : String
  pub argument_index : Option ℕ
  pub key : Option String

unfoldable pub active_conversion : Match Printf → Option ℕ → Option String → ActiveConversion
active_conversion m argument_index key = record {
  start = m.start;
  end = m.end;
  conversion = m.groups.conversion;
  argument_index = argument_index;
  key = key;
}

abbrev pub is_star : Option String → Bool
is_star none = false
is_star (some s) = str_eq s "*"

-- `star_count`
unfoldable pub star_count : Printf → ℕ
star_count g = (if str_eq g.width "*" then 1 else 0) + (if is_star g.precision then 1 else 0)

-- `argument_index` and `arguments_exhausted`
pub record Position : Type 0 where
  pub index : ℕ
  pub exhausted : Bool

-- One round of the loop over the matches, for a tuple of `count` arguments.
unfoldable pub next_positional : ℕ → Match Printf → Position → Option ActiveConversion × Position
next_positional count m p =
    let needed = p.index + star_count m.groups in
    if str_eq m.groups.conversion "%"
    then (some (active_conversion m none none), p)
    else if p.exhausted
    then (none, p)
    else if is_some m.groups.key || leb count needed
    then (none, record { index = p.index; exhausted = true })
    else (
      some (active_conversion m (some needed) none),
      record { index = suc needed; exhausted = p.exhausted },
    )

abbrev pub with_found {ℓ} : {A : Type ℓ} → Option A → List A → List A
with_found none xs = xs
with_found (some x) xs = x ∷ xs

unfoldable pub scan_positional : ℕ → List (Match Printf) → Position → List ActiveConversion × ℕ
scan_positional count [] p = ([], p.index)
scan_positional count (m ∷ ms) p =
    let step = next_positional count m p in
    let rest = scan_positional count ms step.1 in (with_found step.0 rest.0, rest.1)

-- One round of the loop for a mapping.
unfoldable pub next_named : Dict Argument → Match Printf → Option ActiveConversion
next_named args m =
    if str_eq m.groups.conversion "%"
    then some (active_conversion m none none)
    else elim m.groups.key [
      | none ↦ none
      | some key ↦
          if str_eq m.groups.width "*"
            || is_star m.groups.precision
            || not (is_some (lookup key args))
          then none
          else some (active_conversion m none (some key))
    ]

unfoldable pub scan_named : Dict Argument → List (Match Printf) → List ActiveConversion
scan_named args [] = []
scan_named args (m ∷ ms) = with_found (next_named args m) (scan_named args ms)

-- `_active_conversions`, with the number of arguments that are consumed
unfoldable pub active_conversions : Texts → String → Arguments → List ActiveConversion × ℕ
active_conversions t template (positional []) = ([], 0)
active_conversions t template (positional (a ∷ args)) =
    scan_positional (length (a ∷ args)) (t.printf_matches template)
      (record { index = 0; exhausted = false })
active_conversions t template (mapping []) = ([], 0)
active_conversions t template (mapping (e ∷ args)) =
    (scan_named (e ∷ args) (t.printf_matches template), 0)
active_conversions t template neither = ([], 0)
