-- ===== src/Window.antt =====
-- monitor_agent/collectors/window.py: the active window. The commands, the Windows libraries and
-- psutil are parameters.
use employee_tracker.Common.{
  ℕ, suc, zero, String, Bool, true, not, ◌||◌, Option, none, some, [], ◌∷◌, Result, ok, err,
  ErrorClass, access_denied, no_such_process, os_error, raise, ◌>>=◌, str_eq, if◌then◌else◌, member,
}
use employee_tracker.Common.Int.{ℤ, pos}
use employee_tracker.Identity.{is_os_error}
use employee_tracker.Models.{
  Json, null, int, dict, fields, nullable, CollectorPayload, CollectorStatus, plain_payload,
}

-- What the desktop answers: the output of `xdotool` and of `osascript`, stripped; `ctypes.windll` if
-- it is there, with the number of the foreground window, its title, the process number behind it
-- and the name of that process; and `output.rpartition(", ")` and `int(text)`, which is `none` for a
-- ValueError.
pub record Desktop : Type 0 where
  pub xdotool : Result String
  pub has_windll : Bool
  pub foreground_window : Result ℕ
  pub window_text : Result String
  pub window_process : Result ℕ
  pub process_name : ℕ → Result String
  pub osascript : Result String
  pub rpartition : String → String × Bool × String
  pub parse_int : String → Option ℤ
  -- `(AttributeError, OSError, RuntimeError, subprocess.SubprocessError)`
  pub is_unavailable : ErrorClass → Bool

unfoldable pub window_value : Option String → Option String → Option ℤ → Json
window_value title app pid = dict (
    fields (
      ("title", nullable title)
      ∷ ("app", nullable app)
      ∷ ("pid", elim pid [ none ↦ null | some n ↦ int n ])
      ∷ []))

-- `_empty_window`
unfoldable pub empty_window : Json
empty_window = window_value none none none

-- `text or None`
abbrev nonempty : String → Option String
nonempty s = if str_eq s "" then none else some s

-- `_collect_linux`
unfoldable pub collect_linux : Desktop → Result Json
collect_linux d = d.xdotool >>= λ title. ok (window_value (nonempty title) none none)

-- `except (psutil.AccessDenied, psutil.NoSuchProcess, OSError)`
abbrev is_process_error : ErrorClass → Bool
is_process_error access_denied = true
is_process_error no_such_process = true
is_process_error c = is_os_error c

-- The name of a process that has a number other than zero.
unfoldable pub app_of : Desktop → ℕ → Result (Option String)
app_of d zero = ok none
app_of d (suc n) = elim (d.process_name (suc n)) [
  | ok name ↦ ok (some name)
  | err e ↦ if is_process_error e.class then ok none else err e
]

abbrev nonzero : ℕ → Option ℤ
nonzero zero = none
nonzero (suc n) = some (pos (suc n))

abbrev foreground : ℕ → Result ℕ
foreground zero = raise os_error "foreground window unavailable"
foreground (suc n) = ok (suc n)

-- `_collect_windows`
unfoldable pub collect_windows : Desktop → Result Json
collect_windows d =
    if d.has_windll
    then d.foreground_window >>= foreground >>= (λ window. d.window_text >>= (λ title.
      d.window_process >>= (λ process.
        app_of d process >>= (λ app. ok (window_value (nonempty title) app (nonzero process))))))
    else raise os_error "Windows desktop APIs unavailable"

-- `_collect_macos`
unfoldable pub collect_macos : Desktop → Result Json
collect_macos d = d.osascript >>= λ output.
    let parts = d.rpartition output in
    let app = if parts.1 then parts.0 else output in
    let raw_pid = if parts.1 then parts.2 else "" in
    ok (window_value none (nonempty app) (d.parse_int raw_pid))

-- The branch on the platform.
unfoldable pub collect_window : Desktop → String → Result Json
collect_window d platform_name =
    if str_eq platform_name "linux"
    then collect_linux d
    else if str_eq platform_name "win32"
    then collect_windows d
    else collect_macos d

unfoldable pub window_data : Json → Json
window_data window = dict (fields (("active_window", window) ∷ []))

-- `ActiveWindowCollector.collect`
unfoldable pub collect_active_window : Bool → String → Desktop → Result CollectorPayload
collect_active_window enabled platform_name d =
    if not enabled || not (member platform_name ("linux" ∷ "win32" ∷ "darwin" ∷ []))
    then ok (record {
      data_value = window_data empty_window;
      status = CollectorStatus.disabled;
      error_code = none;
      error_message = none;
    })
    else elim (collect_window d platform_name) [
      | ok window ↦ ok (plain_payload (window_data window))
      | err e ↦
          if d.is_unavailable e.class
          then ok (record {
            data_value = window_data empty_window;
            status = CollectorStatus.partial;
            error_code = some "active_window_unavailable";
            error_message = some "interactive active-window data unavailable";
          })
          else err e
    ]
