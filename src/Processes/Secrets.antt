-- ===== src/Processes/Secrets.antt =====
-- What the redacted command line of monitor_agent/collectors/processes.py may depend on.
use employee_tracker.Common.{◌≡◌, refl, String, Bool, true, false, List, [], ◌∷◌}
use employee_tracker.Config.{redacted}
use employee_tracker.Processes.Redact.{
  Words, name_of, separated, is_secret_flag, is_secret_name, redacted_from, redacted_arguments,
  redact_command_line,
}

-- Two command lines that differ in their secrets only: in the argument after a secret flag, and in
-- what follows the `=` of a secret flag or of an assignment to a secret variable. The flag says
-- whether an argument is expected to be a secret value.
pub data SameButSecrets (w : Words) : Bool → List String → List String → Type 0 where
  finished : (mask : Bool) → SameButSecrets w mask [] []
  -- the value of a secret flag
  secret_value :
      (x y : String) {xs ys : List String}
      → is_secret_flag w (name_of x) ≡ false
      → is_secret_flag w (name_of y) ≡ false
      → SameButSecrets w false xs ys
      → SameButSecrets w true (x ∷ xs) (y ∷ ys)
  -- an argument that is no secret
  plain :
      (x : String) {xs ys : List String}
      → is_secret_flag w (name_of x) ≡ false
      → SameButSecrets w false xs ys
      → SameButSecrets w false (x ∷ xs) (x ∷ ys)
  -- `--password`
  flag :
      (mask : Bool) (x : String) {xs ys : List String}
      → is_secret_flag w (name_of x) ≡ true
      → separated x ≡ false
      → SameButSecrets w true xs ys
      → SameButSecrets w mask (x ∷ xs) (x ∷ ys)
  -- `--password=...`
  flag_assignment :
      (mask : Bool) (x y : String) {xs ys : List String}
      → is_secret_flag w (name_of x) ≡ true
      → name_of x ≡ name_of y
      → separated x ≡ true
      → separated y ≡ true
      → SameButSecrets w false xs ys
      → SameButSecrets w mask (x ∷ xs) (y ∷ ys)
  -- `API_TOKEN=...`
  assignment :
      (x y : String) {xs ys : List String}
      → is_secret_flag w (name_of x) ≡ false
      → is_secret_name w (name_of x) ≡ true
      → name_of x ≡ name_of y
      → separated x ≡ true
      → separated y ≡ true
      → SameButSecrets w false xs ys
      → SameButSecrets w false (x ∷ xs) (y ∷ ys)

redacted_from-SameButSecrets :
    (w : Words) (mask : Bool) (xs ys : List String)
    → SameButSecrets w mask xs ys
    → redacted_from w mask xs ≡ redacted_from w mask ys
unfolding redacted_from
redacted_from-SameButSecrets w mask [] [] (finished _) = refl
redacted_from-SameButSecrets w true (x ∷ xs) (y ∷ ys) (secret_value _ _ h k s) =
    simp (h, k, redacted_from-SameButSecrets w false xs ys s)
redacted_from-SameButSecrets w false (x ∷ xs) (_ ∷ ys) (plain _ h s) =
    simp (h, redacted_from-SameButSecrets w false xs ys s)
redacted_from-SameButSecrets w mask (x ∷ xs) (_ ∷ ys) (flag _ _ h k s) =
    simp (h, k, redacted_from-SameButSecrets w true xs ys s)
redacted_from-SameButSecrets w mask (x ∷ xs) (y ∷ ys) (flag_assignment _ _ _ h same k l s) =
    simp (← same, h, k, l, redacted_from-SameButSecrets w false xs ys s)
redacted_from-SameButSecrets w false (x ∷ xs) (y ∷ ys) (assignment _ _ h m same k l s) =
    simp (← same, h, m, k, l, redacted_from-SameButSecrets w false xs ys s)
redacted_from-SameButSecrets w mask [] (y ∷ ys) s = elim s [ ]
redacted_from-SameButSecrets w mask (x ∷ xs) [] s = elim s [ ]

-- In the mode `redacted`, on every platform, the reported command line is the same for any two
-- command lines that differ only in the value after a secret flag, or behind the `=` of a secret
-- flag or of an assignment to a secret variable: it tells nothing about these secrets. (An argument
-- after a secret flag that is a secret flag itself counts as a flag, not as a value.)
pub redact_command_line-SameButSecrets :
    (w : Words) (xs ys : List String) (platform : String)
    → SameButSecrets w false xs ys
    → redact_command_line w xs redacted platform ≡ redact_command_line w ys redacted platform
unfolding redact_command_line redacted_arguments
redact_command_line-SameButSecrets w xs ys platform s =
    rw (redacted_from-SameButSecrets w false xs ys s) refl
