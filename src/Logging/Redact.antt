-- ===== src/Logging/Redact.antt =====
-- `SecretFilter` of monitor_agent/logging_setup.py.
use Prim.Native.String.{String, ◌++◌}
use mathlib.Core.List.{◌++◌ as append}
use employee_tracker.Common.{
  ℕ, suc, Bool, true, false, ◌||◌, Option, none, some, List, [], ◌∷◌, map, Result, ok, raise,
  other_error, ◌>>=◌, str_eq, ◌==◌, any, member, take, filter, is_some, get_elem?, if◌then◌else◌,
}
use employee_tracker.Common.Int.{pos}
use employee_tracker.Common.Dict.{Dict}
use employee_tracker.Models.{Float, Json}
use employee_tracker.Logging.Scan.{
  Match, Bearer, Marker, Texts, Argument, text, integer, floating, safe_representation, Arguments,
  positional, mapping, neither, ActiveConversion, active_conversions,
}

-- The parts of a `LogRecord` that the filter and the formatters read; a message that is no text
-- stands as `none`, and `event_id` is the attribute, if the record has it.
pub record LogRecord : Type 0 where
  pub msg : Option String
  pub args : Arguments
  pub created : Float
  pub levelname : String
  pub name : String
  pub event_id : Option Json

-- `_REDACTED`
abbrev pub redacted_text : String
redacted_text = "[REDACTED]"

-- The secrets that `SecretFilter.__init__` keeps.
unfoldable pub nonempty_secrets : List String → List String
nonempty_secrets secrets = filter (λ s. if str_eq s "" then false else true) secrets

-- A callback for each match in turn.
unfoldable pub each_match {ℓ} : {A B : Type ℓ} → (A → Result B) → List A → Result (List B)
each_match f [] = ok []
each_match f (m ∷ ms) = f m >>= λ r. each_match f ms >>= λ rs. ok (r ∷ rs)

abbrev pub concat {ℓ} : {A : Type ℓ} → List (List A) → List A
concat [] = []
concat (xs ∷ xss) = append xs (concat xss)

abbrev pub join : List String → String
join [] = ""
join (s ∷ ss) = s ++ join ss

module _ (t : Texts) where
  -- `sub`, from a position on, with a replacement for each match
  unfoldable pub spliced : {G : Type 0} → String → ℕ → List (Match G) → List String → String
  spliced value previous_end (m ∷ ms) (r ∷ rs) =
      t.slice value previous_end m.start ++ r ++ spliced value m.end ms rs
  spliced value previous_end _ _ = t.slice_from value previous_end

  -- The loop over the secrets.
  unfoldable pub replace_secrets : List String → String → String
  replace_secrets [] value = value
  replace_secrets (s ∷ secrets) value = replace_secrets secrets (t.replace value s redacted_text)

  -- `_redact`
  unfoldable pub redact : List String → String → String
  redact secrets value =
      let redacted = replace_secrets secrets value in
      let found = t.bearer_matches redacted in
      spliced redacted 0 found (map (λ m. m.groups.header ++ redacted_text) found)

  -- `_redact_secrets_preserving_markers`, from a position on
  unfoldable pub redact_preserving_markers : List String → String → ℕ → List (Match Marker) → String
  redact_preserving_markers secrets value previous_end [] =
      replace_secrets secrets (t.slice_from value previous_end)
  redact_preserving_markers secrets value previous_end (m ∷ ms) =
      replace_secrets secrets (t.slice value previous_end m.start)
      ++ m.groups.whole
      ++ redact_preserving_markers secrets value m.end ms

  -- The first loop of `_redact_template`, from a conversion on.
  unfoldable pub mark : String → ℕ → ℕ → List ActiveConversion → String
  mark template index previous_end [] = t.slice_from template previous_end
  mark template index previous_end (c ∷ active) =
      t.slice template previous_end c.start
      ++ t.marker_text index
      ++ mark template (suc index) c.end active

  -- `active[index]`, where an IndexError is of a class that no handler names
  unfoldable pub conversion_at : List ActiveConversion → ℕ → Result ActiveConversion
  conversion_at active index = elim (get_elem? active index) [
    | none ↦ raise other_error "list index out of range"
    | some c ↦ ok c
  ]

  unfoldable pub takes_argument : ActiveConversion → Bool
  takes_argument c = is_some c.argument_index || is_some c.key

  -- `argument_markers`
  unfoldable pub argument_markers :
      List ActiveConversion → List (Match Marker) → Result (List (Match Marker))
  argument_markers active [] = ok []
  argument_markers active (m ∷ ms) = conversion_at active m.groups.index >>= λ c.
      argument_markers active ms >>= λ rest. ok (if takes_argument c then m ∷ rest else rest)

  -- The text for a bearer token, and what is added to `bearer_conversions`.
  unfoldable pub bearer_text : String → List (Match Marker) → String × List ℕ
  bearer_text header [] = (header ++ redacted_text, [])
  bearer_text header (m ∷ ms) =
      (header ++ join (map (λ n. n.groups.whole) (m ∷ ms)), map (λ n. n.groups.index) (m ∷ ms))

  -- `redact_bearer`
  unfoldable pub redact_bearer : List ActiveConversion → Match Bearer → Result (String × List ℕ)
  redact_bearer active b = argument_markers active (t.marker_matches b.groups.token) >>= λ ms.
      ok (bearer_text b.groups.header ms)

  -- `restore_conversion`
  unfoldable pub restore_conversion : String → List ActiveConversion → Match Marker → Result String
  restore_conversion template active m =
      conversion_at active m.groups.index >>= λ c. ok (t.slice template c.start c.end)

  -- `_redact_template`, with `bearer_conversions`
  unfoldable pub redact_template :
      List String → String → List ActiveConversion → Result (String × List ℕ)
  redact_template secrets template active =
      let marked = mark template 0 0 active in
      each_match (redact_bearer active) (t.bearer_matches marked) >>= λ bearers.
      let hidden = spliced marked 0 (t.bearer_matches marked) (map (λ b. b.0) bearers) in
      let safe = redact_preserving_markers secrets hidden 0 (t.marker_matches hidden) in
      each_match (restore_conversion template active) (t.marker_matches safe) >>= λ restored.
      ok (spliced safe 0 (t.marker_matches safe) restored, concat (map (λ b. b.1) bearers))

-- `_INTEGER_CONVERSIONS` and `_FLOAT_CONVERSIONS`
abbrev pub integer_conversions : List String
integer_conversions = "d" ∷ "i" ∷ "o" ∷ "u" ∷ "x" ∷ "X" ∷ []

abbrev pub float_conversions : List String
float_conversions = "e" ∷ "E" ∷ "f" ∷ "F" ∷ "g" ∷ "G" ∷ []

-- `_safe_sentinel`, with the float zero
unfoldable pub safe_sentinel : Float → List String → Argument
safe_sentinel zero_float conversions =
    if any (λ c. member c integer_conversions) conversions
    then integer (pos 0)
    else if any (λ c. member c float_conversions) conversions
    then floating zero_float
    else if member "c" conversions
    then text "*"
    else if member "r" conversions || member "a" conversions
    then safe_representation
    else text redacted_text

-- `d.setdefault(k, set()).add(v)`, where a set is a list
unfoldable pub add_at {ℓ} :
    {K : Type ℓ} → (K → K → Bool) → K → String → List (K × List String) → List (K × List String)
add_at eq k v [] = (k, v ∷ []) ∷ []
add_at eq k v ((j, vs) ∷ d) =
    let rest = add_at eq k v d in if eq j k then (j, v ∷ vs) ∷ d else (j, vs) ∷ rest

-- `d.get(k, set())`
unfoldable pub get_at {ℓ} : {K : Type ℓ} → (K → K → Bool) → K → List (K × List String) → List String
get_at eq k [] = []
get_at eq k ((j, vs) ∷ d) = if eq j k then vs else get_at eq k d

abbrev pub same_index : ℕ → ℕ → Bool
same_index i j = i == j

-- What `_argument_conversions` returns.
pub record Conversions : Type 0 where
  pub positional_conversions : List (ℕ × List String)
  pub mapping_conversions : Dict (List String)
  pub positional_bearers : List ℕ
  pub mapping_bearers : List String

-- One round of its loop, for the conversion with a number.
unfoldable pub note_conversion : List ℕ → ℕ → ActiveConversion → Conversions → Conversions
note_conversion bearers n c s = elim c.argument_index [
  | some i ↦ record s {
    positional_conversions = add_at same_index i c.conversion s.positional_conversions;
    positional_bearers =
        if any (same_index n) bearers then i ∷ s.positional_bearers else s.positional_bearers;
  }
  | none ↦ elim c.key [
    | none ↦ s
    | some k ↦ record s {
      mapping_conversions = add_at (λ a b. str_eq a b) k c.conversion s.mapping_conversions;
      mapping_bearers =
          if any (same_index n) bearers then k ∷ s.mapping_bearers else s.mapping_bearers;
    }
  ]
]

unfoldable pub note_conversions : List ℕ → ℕ → List ActiveConversion → Conversions → Conversions
note_conversions bearers n [] s = s
note_conversions bearers n (c ∷ active) s =
    note_conversions bearers (suc n) active (note_conversion bearers n c s)

-- `_argument_conversions`
unfoldable pub argument_conversions : List ActiveConversion → List ℕ → Conversions
argument_conversions active bearers = note_conversions bearers 0 active (record {
  positional_conversions = [];
  mapping_conversions = [];
  positional_bearers = [];
  mapping_bearers = [];
})

-- `isinstance(args, (tuple, Mapping))`
abbrev pub has_arguments : Arguments → Bool
has_arguments neither = false
has_arguments _ = true

module _ (t : Texts) (zero_float : Float) (secrets : List String) where
  -- `_redact_argument`
  unfoldable pub redact_argument : Argument → List String → Argument
  redact_argument (text value) conversions =
      let redacted = redact t secrets value in
      if str_eq redacted value
      then text value
      else if member "c" conversions
      then safe_sentinel zero_float conversions
      else text redacted
  redact_argument a conversions = a

  unfoldable pub redact_one : Bool → Argument → List String → Argument
  redact_one is_bearer a conversions =
      if is_bearer then safe_sentinel zero_float conversions else redact_argument a conversions

  -- The loop over a tuple, from a position on, and the comprehension over a mapping.
  unfoldable pub redact_positional : Conversions → ℕ → List Argument → List Argument
  redact_positional s index [] = []
  redact_positional s index (a ∷ args) =
      redact_one (any (same_index index) s.positional_bearers) a
        (get_at same_index index s.positional_conversions)
      ∷ redact_positional s (suc index) args

  unfoldable pub redact_mapping : Conversions → Dict Argument → Dict Argument
  redact_mapping s [] = []
  redact_mapping s ((k, a) ∷ args) =
      (
        k,
        redact_one (member k s.mapping_bearers) a
            (get_at (λ x y. str_eq x y) k s.mapping_conversions),
      )
      ∷ redact_mapping s args

  unfoldable pub redact_arguments : Conversions → ℕ → Arguments → Arguments
  redact_arguments s consumed (positional args) =
      positional (redact_positional s 0 (take consumed args))
  redact_arguments s consumed (mapping args) = mapping (redact_mapping s args)
  redact_arguments s consumed neither = neither

  -- `filter` of a text with a tuple or a mapping
  unfoldable pub filter_text : String → LogRecord → Result LogRecord
  filter_text template r =
      let (active, consumed) = active_conversions t template r.args in
      redact_template t secrets template active >>= λ (msg, bearers). ok (record r {
        msg = some msg;
        args = redact_arguments (argument_conversions active bearers) consumed r.args;
      })

  -- `filter`, which lets every record pass
  unfoldable pub filter_record : LogRecord → Result LogRecord
  filter_record r = elim r.msg [
    | none ↦ ok r
    | some template ↦
        if has_arguments r.args
        then filter_text template r
        else ok (record r { msg = some (redact t secrets template) })
  ]
