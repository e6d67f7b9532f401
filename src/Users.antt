-- ===== src/Users.antt =====
-- monitor_agent/collectors/users.py: the sessions of the machine's users. Its helpers read values the
-- way those of processes.py do, and psutil's answer is a parameter.
use employee_tracker.Common.{some, List, [], ◌∷◌, Result, ok, err, ◌>>=◌, if◌then◌else◌}
use employee_tracker.Identity.{is_os_error}
use employee_tracker.Models.{
  Json, null, int, dict, list, items, fields, nullable, as_string, CollectorPayload,
  CollectorStatus, plain_payload,
}
use employee_tracker.Processes.{Host, utc_timestamp}

-- The attributes of a session, where `null` stands for every value that no test accepts.
pub record UserSession : Type 0 where
  pub name : Json
  pub terminal : Json
  pub host : Json
  pub started : Json
  pub pid : Json

-- `_optional_int`, as JSON
unfoldable pub optional_int : Json → Json
optional_int (int n) = int n
optional_int _ = null

unfoldable pub user_record : Host → UserSession → Result Json
user_record machine s = utc_timestamp machine s.started >>= (λ started. ok (
    dict (
      fields (
        ("name", nullable (as_string s.name))
        ∷ ("terminal", nullable (as_string s.terminal))
        ∷ ("host", nullable (as_string s.host))
        ∷ ("started", nullable started)
        ∷ ("pid", optional_int s.pid)
        ∷ []))))

-- The comprehension over the sessions.
unfoldable pub user_records : Host → List UserSession → Result (List Json)
user_records machine [] = ok []
user_records machine (s ∷ ss) =
    user_record machine s >>= (λ r. user_records machine ss >>= (λ rs. ok (r ∷ rs)))

abbrev users_payload : List Json → CollectorPayload
users_payload users = plain_payload (dict (fields (("users", list (items users)) ∷ [])))

abbrev unavailable_payload : CollectorPayload
unavailable_payload = record {
  data_value = dict (fields (("users", list (items [])) ∷ []));
  status = CollectorStatus.partial;
  error_code = some "user_access_partial";
  error_message = some "user sessions unavailable";
}

-- `UsersCollector.collect`
unfoldable pub collect_users : Host → Result (List UserSession) → Result CollectorPayload
collect_users machine sessions = elim (sessions >>= user_records machine) [
  | ok users ↦ ok (users_payload users)
  | err e ↦ if is_os_error e.class then ok unavailable_payload else err e
]
