-- ===== src/Tests/Logs.antt =====
-- The redaction of log records at a concrete template.
use Prim.Native.String.{String}
use mathlib.Core.List.Memᴰ
use employee_tracker.Common.{◌≡◌, refl, none, some, [], ◌∷◌, str_eq, if◌then◌else◌, leb, ◌==◌}
use employee_tracker.Logging.Scan.{
  Texts, Argument, positional, active_conversions, scan_positional, next_positional, star_count,
  active_conversion,
}
use employee_tracker.Logging.Redact.{LogRecord, filter_record, mark}
use employee_tracker.Logging.Hidden.{
  IsToken, AtPosition, SamePositional, SameButTokens, filter_record-SameButTokens,
}

-- The matches in the texts that come up for this template.
abbrev template : String
template = "authorization: bearer %s for %s"

abbrev texts : Texts
texts = record {
  replace = λ value old new. value;
  slice = λ value a b.
      if str_eq value template
      then (if leb 23 a then " for " else if leb b 22 then "authorization: bearer " else "%s")
      else "";
  slice_from = λ value a. "";
  marker_text = λ n. if n == 0 then "<0>" else "<1>";
  printf_matches = λ value.
      (record {
        start = 22;
        end = 24;
        groups = record { key = none; width = ""; precision = none; conversion = "s" };
      })
      ∷ (record {
        start = 29;
        end = 31;
        groups = record { key = none; width = ""; precision = none; conversion = "s" };
      })
      ∷ [];
  bearer_matches = λ value.
      if str_eq value "authorization: bearer <0> for <1>"
      then (record {
        start = 0;
        end = 25;
        groups = record { header = "authorization: bearer "; token = "<0>" };
      })
        ∷ []
      else [];
  marker_matches = λ value.
      if str_eq value "<0>"
      then (record { start = 0; end = 3; groups = record { whole = "<0>"; index = 0 } }) ∷ []
      else [];
}

abbrev logged : Argument → LogRecord
logged token = record {
  msg = some template;
  args = positional (token ∷ Argument.text "ada" ∷ []);
  created = 0;
  levelname = "INFO";
  name = "monitor_agent";
  event_id = none;
}

is_token : IsToken texts template (logged (Argument.text "hunter2")).args (AtPosition 0)
unfolding active_conversions scan_positional next_positional star_count active_conversion mark
is_token = record {
  bearer = record {
    start = 0;
    end = 25;
    groups = record { header = "authorization: bearer "; token = "<0>" };
  };
  is_header = Memᴰ.head refl;
  marker = record { start = 0; end = 3; groups = record { whole = "<0>"; index = 0 } };
  is_within = Memᴰ.head refl;
  conversion =
      active_conversion
        (record {
          start = 22;
          end = 24;
          groups = record { key = none; width = ""; precision = none; conversion = "s" };
        })
        (some 0) none;
  is_numbered = refl;
  is_kind = refl;
}

filter_record-SameButTokens_example :
    filter_record texts 0 [] (logged (Argument.text "hunter2"))
    ≡ filter_record texts 0 [] (logged (Argument.text "swordfish"))
filter_record-SameButTokens_example =
    filter_record-SameButTokens texts 0 [] template (logged (Argument.text "hunter2"))
      (logged (Argument.text "swordfish")).args refl
      (SameButTokens.tuples _ _
        (SamePositional.token _ _ is_token (SamePositional.plain _ SamePositional.finished)))
