-- ===== src/Logging/Hidden.antt =====
-- What a filtered record of monitor_agent/logging_setup.py may depend on.
use mathlib.Core.List.{Memᴰ}
use employee_tracker.Common.{
  ℕ, zero, suc, ◌+◌, ◌≤◌, ◌≡◌, refl, ap, ◌∙◌, inl, inr, String, true, none, some, List, [], ◌∷◌,
  length, ok, Result-cases, any, any_mem, member, get_elem?, take, arith, is_some, Option-cases,
  false,
}
use employee_tracker.Common.Dict.{Dict, lookup}
use employee_tracker.Models.{Float}
use employee_tracker.Logging.Scan.{
  Match, Printf, Bearer, Marker, with_found, scan_positional, Texts, Argument, Arguments,
  positional, mapping, ActiveConversion, next_named, scan_named, active_conversions,
}
use employee_tracker.Logging.Redact.{
  LogRecord, mark, takes_argument, redact_template, same_index, argument_conversions, Conversions,
  redact_one, redact_positional, redact_mapping, redact_arguments, has_arguments, filter_text,
  filter_record,
}
use employee_tracker.Logging.Marked.{add_suc, redact_template-mem, positional-noted, mapping-noted}

-- A conversion of the argument at a position, or of the argument with a key.
abbrev pub AtPosition : ℕ → ActiveConversion → Type 0
AtPosition i c = c.argument_index ≡ some i

abbrev pub AtKey : String → ActiveConversion → Type 0
AtKey k c = (c.argument_index ≡ none) × (c.key ≡ some k)

module _ (t : Texts) (template : String) (args : Arguments) where
  abbrev active : List ActiveConversion
  active = (active_conversions t template args).0

  -- Some conversion of this kind stands within the token of a bearer header of the template.
  pub record IsToken (Kind : ActiveConversion → Type 0) : Type 0 where
    pub bearer : Match Bearer
    pub is_header : Memᴰ bearer (t.bearer_matches (mark t template 0 0 active))
    pub marker : Match Marker
    pub is_within : Memᴰ marker (t.marker_matches bearer.groups.token)
    pub conversion : ActiveConversion
    pub is_numbered : get_elem? active marker.groups.index ≡ some conversion
    pub is_kind : Kind conversion

  -- From a position on, two tuples of arguments differ only in tokens of bearer headers and in
  -- arguments that no conversion consumes.
  pub data SamePositional : ℕ → List Argument → List Argument → Type 0 where
    finished : {i : ℕ} → SamePositional i [] []
    plain :
        {i : ℕ} (a : Argument) {xs ys : List Argument}
        → SamePositional (suc i) xs ys
        → SamePositional i (a ∷ xs) (a ∷ ys)
    token :
        {i : ℕ} (a b : Argument) {xs ys : List Argument}
        → IsToken (AtPosition i)
        → SamePositional (suc i) xs ys
        → SamePositional i (a ∷ xs) (b ∷ ys)
    surplus :
        {i : ℕ} (a b : Argument) {xs ys : List Argument}
        → (active_conversions t template args).1 ≤ i
        → SamePositional (suc i) xs ys
        → SamePositional i (a ∷ xs) (b ∷ ys)

  -- Two mappings differ only in tokens of bearer headers.
  pub data SameNamed : Dict Argument → Dict Argument → Type 0 where
    finished : SameNamed [] []
    plain :
        (k : String) (a : Argument) {xs ys : Dict Argument}
        → SameNamed xs ys
        → SameNamed ((k, a) ∷ xs) ((k, a) ∷ ys)
    token :
        (k : String) (a b : Argument) {xs ys : Dict Argument}
        → IsToken (AtKey k)
        → SameNamed xs ys
        → SameNamed ((k, a) ∷ xs) ((k, b) ∷ ys)

-- Two tuples or two mappings of arguments for a template that differ only in tokens of bearer
-- headers and, in a tuple, in arguments that no conversion consumes.
pub data SameButTokens (t : Texts) (template : String) : Arguments → Arguments → Type 0 where
  tuples :
      (xs ys : List Argument)
      → SamePositional t template (positional xs) 0 xs ys
      → SameButTokens t template (positional xs) (positional ys)
  mappings :
      (xs ys : Dict Argument)
      → SameNamed t template (mapping xs) xs ys
      → SameButTokens t template (mapping xs) (mapping ys)

module _ (t : Texts) (template : String) (args : Arguments) where
  length-same :
      {i : ℕ} {xs ys : List Argument}
      → SamePositional t template args i xs ys
      → length xs ≡ length ys
  length-same finished = refl
  length-same (plain _ s) = ap (λ n. suc n) (length-same s)
  length-same (token _ _ _ s) = ap (λ n. suc n) (length-same s)
  length-same (surplus _ _ _ s) = ap (λ n. suc n) (length-same s)

  lookup-same :
      (k : String) {xs ys : Dict Argument}
      → SameNamed t template args xs ys
      → is_some (lookup k xs) ≡ is_some (lookup k ys)
  unfolding lookup
  lookup-same k finished = refl
  lookup-same k (plain j a s) = ground (arith, lookup-same k s)
  lookup-same k (token j a b _ s) = ground (arith, lookup-same k s)

  module _ (zero_float : Float) (secrets : List String) (s : Conversions) where
    redact_positional-same :
        ((i : ℕ)
          → IsToken t template args (AtPosition i)
          → any (same_index i) s.positional_bearers ≡ true)
        → (i k : ℕ) {xs ys : List Argument} → (active_conversions t template args).1 ≡ i + k
        → SamePositional t template args i xs ys
        → redact_positional t zero_float secrets s i (take k xs)
          ≡ redact_positional t zero_float secrets s i (take k ys)
    unfolding redact_positional redact_one
    redact_positional-same noted i zero e finished = refl
    redact_positional-same noted i (suc k) e finished = refl
    redact_positional-same noted i zero e (plain _ r) = refl
    redact_positional-same noted i zero e (token _ _ _ r) = refl
    redact_positional-same noted i zero e (surplus _ _ _ r) = refl
    redact_positional-same noted i (suc k) e (plain a r) =
        simp (redact_positional-same noted (suc i) k (e ∙ add_suc i k) r)
    redact_positional-same noted i (suc k) e (token a b h r) =
        simp (noted i h, redact_positional-same noted (suc i) k (e ∙ add_suc i k) r)
    redact_positional-same noted i (suc k) e (surplus a b h r) = absurd (omega (arith, h, e))

    redact_mapping-same :
        ((k : String) → IsToken t template args (AtKey k) → member k s.mapping_bearers ≡ true)
        → {xs ys : Dict Argument} → SameNamed t template args xs ys
        → redact_mapping t zero_float secrets s xs ≡ redact_mapping t zero_float secrets s ys
    unfolding redact_mapping redact_one
    redact_mapping-same noted finished = refl
    redact_mapping-same noted (plain k a r) = simp (redact_mapping-same noted r)
    redact_mapping-same noted (token k a b h r) = simp (noted k h, redact_mapping-same noted r)

scan_named-same :
    (xs ys : Dict Argument) (ms : List (Match Printf))
    → ((k : String) → is_some (lookup k xs) ≡ is_some (lookup k ys))
    → scan_named xs ms ≡ scan_named ys ms
unfolding scan_named next_named
scan_named-same xs ys [] h = refl
scan_named-same xs ys (m ∷ ms) h = elim (Option-cases m.groups.key) [
  | inl e ↦ rw e (ap (with_found _) (scan_named-same xs ys ms h))
  | inr (k, e) ↦ rw (e, h k) (ap (with_found _) (scan_named-same xs ys ms h))
]

active_conversions-same :
    (t : Texts) (template : String) {a b : Arguments}
    → SameButTokens t template a b
    → active_conversions t template a ≡ active_conversions t template b
unfolding active_conversions
active_conversions-same t template (tuples [] [] s) = refl
active_conversions-same t template (tuples (x ∷ xs) (y ∷ ys) s) =
    ap
      (λ n. scan_positional n (t.printf_matches template) (record { index = 0; exhausted = false }))
      (length-same t template _ s)
active_conversions-same t template (tuples [] (y ∷ ys) s) = elim s [ ]
active_conversions-same t template (tuples (x ∷ xs) [] s) = elim s [ ]
active_conversions-same t template (mappings [] [] s) = refl
active_conversions-same t template (mappings (x ∷ xs) (y ∷ ys) s) =
    ap (λ found. (found, 0)) (scan_named-same _ _ _ (λ k. lookup-same t template _ k s))
active_conversions-same t template (mappings [] (y ∷ ys) s) = elim s [ ]
active_conversions-same t template (mappings (x ∷ xs) [] s) = elim s [ ]

takes_position :
    (t : Texts) (i : ℕ) (c : ActiveConversion) → AtPosition i c → takes_argument t c ≡ true
unfolding takes_argument
takes_position t i c h = rw h refl

takes_key : (t : Texts) (k : String) (c : ActiveConversion) → AtKey k c → takes_argument t c ≡ true
unfolding takes_argument
takes_key t k c h = rw (h.0, h.1) refl

module _ (t : Texts) (zero_float : Float) (secrets : List String) (template : String) where
  -- What the filter makes of the arguments.
  redact_arguments-same :
      {a b : Arguments} (msg : String) (bearers : List ℕ)
      → redact_template t secrets template (active_conversions t template a).0 ≡ ok (msg, bearers)
      → SameButTokens t template a b
      → redact_arguments t zero_float secrets
          (argument_conversions (active_conversions t template a).0 bearers)
          (active_conversions t template a).1
          a
        ≡ redact_arguments t zero_float secrets
            (argument_conversions (active_conversions t template a).0 bearers)
            (active_conversions t template a).1
            b
  unfolding redact_arguments argument_conversions
  redact_arguments-same msg bearers h (tuples xs ys s) =
      let args = positional xs in
      let noted = λ (i : ℕ) (k : IsToken t template args (AtPosition i)).
        positional-noted bearers 0 k.marker.groups.index i (active_conversions t template args).0 _
          k.is_numbered
          (any_mem (same_index _) bearers
            (redact_template-mem t _ secrets template msg bearers h k.is_header k.is_within
              k.is_numbered (takes_position t i k.conversion k.is_kind))
            (ground arith))
          k.is_kind in
      ap positional
        (redact_positional-same t template args zero_float secrets _ noted 0 _ (omega arith) s)
  redact_arguments-same msg bearers h (mappings xs ys s) =
      let args = mapping xs in
      let noted = λ (i : String) (k : IsToken t template args (AtKey i)).
        mapping-noted bearers 0 k.marker.groups.index i (active_conversions t template args).0 _
          k.is_numbered
          (any_mem (same_index _) bearers
            (redact_template-mem t _ secrets template msg bearers h k.is_header k.is_within
              k.is_numbered (takes_key t i k.conversion k.is_kind))
            (ground arith))
          k.is_kind.0 k.is_kind.1 in
      ap mapping (redact_mapping-same t template args zero_float secrets _ noted s)

  filter_text-same :
      (r : LogRecord) (b : Arguments)
      → SameButTokens t template r.args b
      → filter_text t zero_float secrets template r
        ≡ filter_text t zero_float secrets template (record r { args = b })
  unfolding filter_text
  filter_text-same r b s =
      let same = active_conversions-same t template s in
      elim (Result-cases
        (redact_template t secrets template (active_conversions t template r.args).0)) [
          | inl ((msg, bearers), h) ↦ rw (← same, h, redact_arguments-same msg bearers h s) refl
          | inr (raised, h) ↦ rw (← same, h) refl
        ]

  both_arguments :
      {a b : Arguments}
      → SameButTokens t template a b
      → (has_arguments a ≡ true) × (has_arguments b ≡ true)
  both_arguments (tuples xs ys s) = (refl, refl)
  both_arguments (mappings xs ys s) = (refl, refl)

  -- Two records with the same template whose arguments differ only in what stands behind `Bearer` in
  -- an authorization header of the template, and in arguments of a tuple that no conversion
  -- consumes, are filtered alike, so what is logged tells nothing about these tokens.
  pub filter_record-SameButTokens :
      (r : LogRecord) (b : Arguments)
      → r.msg ≡ some template
      → SameButTokens t template r.args b
      → filter_record t zero_float secrets r
        ≡ filter_record t zero_float secrets (record r { args = b })
  unfolding filter_record filter_text
  filter_record-SameButTokens r b e s =
      let (first, second) = both_arguments s in rw (e, first, second) (filter_text-same r b s)
