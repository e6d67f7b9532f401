-- ===== src/Screenshot.antt =====
-- monitor_agent/collectors/screenshot.py. The screen grabber, the encoder and the clock are
-- parameters.
use employee_tracker.Common.{
  ℕ, String, Bool, Option, none, some, List, [], ◌∷◌, Result, ok, err, ErrorClass, value_error,
  raise_if, length, ltb, if◌then◌else◌,
}
use employee_tracker.Common.Int.{ℤ, pos, pos_part, ltb_ℤ}
use employee_tracker.Models.{
  Json, null, int, str, dict, fields, CollectorPayload, CollectorStatus, plain_payload,
}

-- `_capture_png`; `(ImportError, OSError, RuntimeError)`; `_utc_now().isoformat()`; and
-- `base64.b64encode` as a text.
pub record Grabber : Type 0 where
  pub capture_png : Result (List ℕ)
  pub is_unavailable : ErrorClass → Bool
  pub now : String
  pub base64 : List ℕ → String

unfoldable pub screenshot_data : Json → Json
screenshot_data shot = dict (fields (("screenshot", shot) ∷ []))

abbrev no_screenshot : CollectorStatus → Option String → Option String → CollectorPayload
no_screenshot s code message = record {
  data_value = screenshot_data null;
  status = s;
  error_code = code;
  error_message = message;
}

unfoldable pub shot_value : Grabber → List ℕ → Json
shot_value g png_bytes = dict (
    fields (
      ("captured_at", str g.now)
      ∷ ("format", str "image/png")
      ∷ ("size_bytes", int (pos (length png_bytes)))
      ∷ ("data_b64", str (g.base64 png_bytes))
      ∷ []))

-- `collect` behind the capture.
unfoldable pub screenshot_payload : Grabber → ℕ → Result (List ℕ) → Result CollectorPayload
screenshot_payload g max_bytes (err e) =
    if g.is_unavailable e.class
    then ok (
        no_screenshot CollectorStatus.partial (some "screenshot_unavailable")
          (some "interactive screenshot capture unavailable"))
    else err e
screenshot_payload g max_bytes (ok png_bytes) =
    if ltb max_bytes (length png_bytes)
    then ok (
        no_screenshot CollectorStatus.partial (some "screenshot_too_large")
          (some "captured screenshot exceeded configured size limit"))
    else ok (plain_payload (screenshot_data (shot_value g png_bytes)))

-- The guard of `ScreenshotCollector.__init__`.
unfoldable pub check_max_bytes : ℤ → Result (Unit {0})
check_max_bytes max_bytes =
    raise_if (ltb_ℤ max_bytes (pos 1)) value_error "max_bytes must be at least 1"

-- `ScreenshotCollector.collect`
unfoldable pub collect_screenshot : Grabber → Bool → ℤ → Result CollectorPayload
collect_screenshot g enabled max_bytes =
    if enabled
    then screenshot_payload g (pos_part max_bytes) g.capture_png
    else ok (no_screenshot CollectorStatus.disabled none none)
