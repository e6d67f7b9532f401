-- ===== src/Processes/Redact.antt =====
-- The command lines of monitor_agent/collectors/processes.py: `_redacted_arguments`,
-- `_join_arguments` and `redact_command_line`.
use Prim.Native.Char.{code}
use Prim.Native.String.{◌++◌}
use employee_tracker.Common.{
  String, Bool, true, false, not, ◌&&◌, ◌||◌, List, [], ◌∷◌, any, member, str_eq, ◌==◌,
  if◌then◌else◌,
}
use employee_tracker.Config.{ProcessCmdlineMode, no_cmdline, redacted, full}

-- The text operations of Python that the model does not define: `str.casefold`, `str.upper`,
-- `subprocess.list2cmdline`, and `shlex.join` with every `'***'` of its text made `***`.
pub record Words : Type 0 where
  pub casefold : String → String
  pub upper : String → String
  pub list2cmdline : List String → String
  pub shlex_join : List String → String

abbrev pub secret_flags : List String
secret_flags =
    "--api-key" ∷ "--apikey" ∷ "--access-token" ∷ "--authorization" ∷ "--password" ∷ "--secret"
    ∷ "--token" ∷ []

abbrev pub secret_assignment_parts : List String
secret_assignment_parts = "API_KEY" ∷ "AUTH" ∷ "PASSWORD" ∷ "SECRET" ∷ "TOKEN" ∷ []

-- `argument.partition("=")`: the part before the first `=`, and whether there is one.
abbrev before_equals : String → String
before_equals String.[] = String.[]
before_equals (String.◌∷◌ c s) =
    let rest = before_equals s in if code c == b'=' then String.[] else String.◌∷◌ c rest

abbrev has_equals : String → Bool
has_equals String.[] = false
has_equals (String.◌∷◌ c s) = code c == b'=' || has_equals s

-- `text.startswith(part)` and `part in text`
abbrev starts_with : String → String → Bool
starts_with String.[] s = true
starts_with (String.◌∷◌ c p) String.[] = false
starts_with (String.◌∷◌ c p) (String.◌∷◌ d s) = code c == code d && starts_with p s

abbrev contains : String → String → Bool
contains part String.[] = starts_with part String.[]
contains part (String.◌∷◌ c s) = starts_with part (String.◌∷◌ c s) || contains part s

-- The tests of the loop's body: is the name a secret flag's, and is the argument an assignment to a
-- secret variable?
unfoldable pub name_of : String → String
name_of = before_equals

unfoldable pub separated : String → Bool
separated = has_equals

unfoldable pub is_secret_flag : Words → String → Bool
is_secret_flag w name = member (w.casefold name) secret_flags

unfoldable pub is_secret_name : Words → String → Bool
is_secret_name w name = any (λ part. contains part (w.upper name)) secret_assignment_parts

-- The loop of `_redacted_arguments`, by `mask_next`.
unfoldable pub redacted_from : Words → Bool → List String → List String
redacted_from w mask_next [] = []
redacted_from w mask_next (argument ∷ arguments) =
    let name = name_of argument in
    let separator = separated argument in
    let unmasked = redacted_from w false arguments in
    let masked = redacted_from w true arguments in
    let rest =
      if is_secret_flag w name
      then (if separator then (name ++ "=***") ∷ unmasked else argument ∷ masked)
      else if separator && is_secret_name w name
      then (name ++ "=***") ∷ unmasked
      else argument ∷ unmasked in
    if mask_next
    then (if not (is_secret_flag w name) then "***" ∷ unmasked else "***" ∷ rest)
    else rest

unfoldable pub redacted_arguments : Words → List String → List String
redacted_arguments w = redacted_from w false

unfoldable pub join_arguments : Words → List String → String → String
join_arguments w arguments platform_name =
    if str_eq platform_name "win32" then w.list2cmdline arguments else w.shlex_join arguments

unfoldable pub redact_command_line : Words → List String → ProcessCmdlineMode → String → String
redact_command_line w arguments no_cmdline platform = ""
redact_command_line w arguments redacted platform =
    join_arguments w (redacted_arguments w arguments) platform
redact_command_line w arguments full platform = join_arguments w arguments platform
