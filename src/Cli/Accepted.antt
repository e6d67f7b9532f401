-- ===== src/Cli/Accepted.antt =====
-- A configuration that loads passes the constructors of the parts that it configures.
use employee_tracker.Transport.{Transport}
