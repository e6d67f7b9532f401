-- ===== src/Identity/Resolve.antt =====
-- `resolve_machine_identity` of monitor_agent/identity.py, with the readers of the three platforms,
-- the fallback file and the hash.
use employee_tracker.Common.{
  ℕ, zero, suc, ◌+◌, ◌%◌, String, Bool, true, false, ◌||◌, Option, none, some, List, [], ◌∷◌,
  Result, ok, err, raise, ErrorClass, value_error, config_error, runtime_error, os_error,
  file_not_found, file_exists, permission_error, timeout_error, ◌>>=◌, ◌>>◌, str_eq, ◌==◌,
  if◌then◌else◌, interrupted_error,
}

pub record MachineIdentity : Type 0 where
  pub value : String
  pub source : String

-- What Python and the system do here, which the program only calls.
pub record System : Type 0 where
  -- `str.strip`
  pub strip : String → String
  -- `UUID(text)`, as its version and its canonical text; `none` is a ValueError
  pub parse_uuid : String → Option (Option ℕ × String)
  -- `str(UUID(bytes=...))`
  pub uuid_of_bytes : List ℕ → String
  -- the first 16 bytes of the SHA-256 of the salted identifier
  pub digest : String → List ℕ
  -- the contents of `/etc/machine-id`
  pub machine_id_file : Result String
  -- the registry's `MachineGuid`: `none` is a missing module, and the inner `none` no text
  pub machine_guid : Option (Result (Option String))
  -- `ioreg`: the return code, and the first group of `_MACOS_UUID_PATTERN` in its output
  pub platform_expert : Result (ℕ × Option String)
  -- the state directory is made and closed to others
  pub make_directory : Result (Unit {0})
  -- the contents of the fallback file at the first look, and at each later attempt
  pub first_read : Result String
  pub later_read : ℕ → Result String
  -- `str(uuid4())`
  pub candidate : String
  -- `os.open` with `O_EXCL`, the write with its `fsync`, and `chmod`
  pub create_file : Result (Unit {0})
  pub write_file : Result (Unit {0})
  pub chmod : Result (Unit {0})

-- `isinstance(error, OSError)` and `isinstance(error, ValueError)`
abbrev pub is_os_error : ErrorClass → Bool
is_os_error os_error = true
is_os_error file_not_found = true
is_os_error file_exists = true
is_os_error permission_error = true
is_os_error timeout_error = true
is_os_error interrupted_error = true
is_os_error _ = false

abbrev pub is_value_error : ErrorClass → Bool
is_value_error value_error = true
is_value_error config_error = true
is_value_error _ = false

abbrev pub is_missing : ErrorClass → Bool
is_missing file_not_found = true
is_missing _ = false

abbrev pub is_taken : ErrorClass → Bool
is_taken file_exists = true
is_taken _ = false

-- `value or None`
unfoldable pub text_or_none : String → Option String
text_or_none value = if str_eq value "" then none else some value

-- `except OSError: return None`
unfoldable pub unless_os_error : Result (Option String) → Result (Option String)
unless_os_error (ok v) = ok v
unless_os_error (err e) = if is_os_error e.class then ok none else err e

unfoldable pub read_linux_machine_id : System → Result (Option String)
read_linux_machine_id s =
    unless_os_error (s.machine_id_file >>= (λ text. ok (text_or_none (s.strip text))))

unfoldable pub read_windows_machine_id : System → Result (Option String)
read_windows_machine_id s = elim s.machine_guid [
  | none ↦ ok none
  | some read ↦ unless_os_error (
      read >>= (λ value. ok (elim value [ none ↦ none | some text ↦ text_or_none (s.strip text) ])))
]

-- `TimeoutExpired` is of the class `timeout_error`.
unfoldable pub read_macos_machine_id : System → Result (Option String)
read_macos_machine_id s = unless_os_error (
    s.platform_expert >>= (λ done. ok (
      if done.0 == 0
      then elim done.1 [ none ↦ none | some text ↦ text_or_none (s.strip text) ]
      else none)))

unfoldable pub read_fallback_file : System → Result String → Result String
read_fallback_file s content = content >>= (λ text. elim (s.parse_uuid (s.strip text)) [
  | none ↦ raise value_error "badly formed hexadecimal UUID string"
  | some (none, value) ↦ raise value_error "persisted machine identity is not a UUID4"
  | some (some version, value) ↦
      if version == 4
      then ok value
      else raise value_error "persisted machine identity is not a UUID4"
])

-- The loop of `_read_concurrent_winner`, by the attempts left and the attempts made.
unfoldable pub winner_from : System → ℕ → ℕ → Result String
winner_from s zero made =
    raise runtime_error "concurrent machine identity creation did not complete"
winner_from s (suc left) made =
    let next = winner_from s left (suc made) in
    elim (read_fallback_file s (s.later_read made)) [
      | ok value ↦ s.chmod >> ok value
      | err e ↦ if is_missing e.class || is_value_error e.class then next else err e
    ]

abbrev pub fallback_read_attempts : ℕ
fallback_read_attempts = 100

unfoldable pub read_concurrent_winner : System → Result String
read_concurrent_winner s = winner_from s fallback_read_attempts 0

-- `os.open(..., O_EXCL)` and what follows it.
unfoldable pub create_fallback : System → Result String
create_fallback s = elim s.create_file [
  | ok _ ↦ s.write_file >> s.chmod >> ok s.candidate
  | err e ↦ if is_taken e.class then read_concurrent_winner s else err e
]

unfoldable pub load_or_create_fallback : System → Result String
load_or_create_fallback s = s.make_directory >> elim (read_fallback_file s s.first_read) [
  | ok value ↦ s.chmod >> ok value
  | err e ↦
      if is_missing e.class
      then create_fallback s
      else if is_value_error e.class
      then read_concurrent_winner s
      else err e
]

-- `digest[i] = g(digest[i])`
unfoldable pub change_at : ℕ → (ℕ → ℕ) → List ℕ → List ℕ
change_at i g [] = []
change_at zero g (b ∷ bs) = g b ∷ bs
change_at (suc i) g (b ∷ bs) = b ∷ change_at i g bs

-- `(b & 0x0F) | 0x50` and `(b & 0x3F) | 0x80`, on bytes
unfoldable pub stamped : List ℕ → List ℕ
stamped bytes = change_at 8 (λ b. b % 64 + 128) (change_at 6 (λ b. b % 16 + 80) bytes)

unfoldable pub hashed_uuid : System → String → String
hashed_uuid s raw_identifier = s.uuid_of_bytes (stamped (s.digest raw_identifier))

-- `if raw_identifier: return ...`, and the fallback otherwise
unfoldable pub or_fallback : System → String → Result (Option String) → Result MachineIdentity
or_fallback s source raw = raw >>= (λ found. elim found [
  | some r ↦ ok (record { value = hashed_uuid s r; source = source })
  | none ↦
      load_or_create_fallback s >>= (λ v. ok (record { value = v; source = "persisted-random" }))
])

unfoldable pub resolve_machine_identity : System → String → Result MachineIdentity
resolve_machine_identity s platform =
    if str_eq platform "linux"
    then or_fallback s "linux-machine-id" (read_linux_machine_id s)
    else if str_eq platform "win32"
    then or_fallback s "windows-machine-guid" (read_windows_machine_id s)
    else if str_eq platform "darwin"
    then or_fallback s "macos-platform-uuid" (read_macos_machine_id s)
    else or_fallback s "persisted-random" (ok none)
