-- ===== src/Tests/Keeping.antt =====
-- The spool's retention at a concrete backlog.
use employee_tracker.Common.{ℕ, String, true, none, List, [], ◌∷◌}
use employee_tracker.Common.Int.{pos}
use employee_tracker.Spool.Store.{Entry, Eviction, total_size, evict_oldest}
use employee_tracker.Spool.Retention.{Fitted, evict_oldest-Fitted}

abbrev stored : String → ℕ → Entry
stored name size = record {
  name = name;
  regular = true;
  size = size;
  mtime = pos 0;
  content = none;
}

abbrev stored_records : List Entry
stored_records = stored "a.json" 4 ∷ stored "b.json" 3 ∷ stored "c.json" 2 ∷ []

abbrev before_eviction : Eviction
before_eviction = record { left = stored_records; evicted_count = 0; evicted_bytes = 0 }

evict_oldest-Fitted_example :
    Fitted 5 stored_records before_eviction
      (evict_oldest 5 (total_size stored_records) stored_records before_eviction)
evict_oldest-Fitted_example = evict_oldest-Fitted 5 stored_records before_eviction
