-- ===== src/Config/Samples.antt =====
-- A configuration and values that the tests share.
use intempt_python.Prelude.{String, true, false, some, [], ◌∷◌}
use intempt_python.Config.Record.{ResolvedConfig}
use intempt_python.Python.Float.{pos, finite}
use intempt_python.Python.Value.{Value, bool, int, str, object}

abbrev pub show : Value → String
show v = "object"

abbrev pub root_logger : Value
root_logger = object "Logger" ("debug" ∷ "info" ∷ "warning" ∷ "error" ∷ [])

abbrev pub config : ResolvedConfig
config = record {
  org = "acme";
  project = "shop";
  credentials = record { header = "Basic cGs6c2VjcmV0"; prefix = "pk" };
  host = "api.test";
  port = some 8443;
  scheme = "https";
  path = str "";
  timeout = finite false 10 0;
  keep_alive = true;
  debug = bool false;
  source_id = some "1234567890123456789";
  batch = some (record { size = 5; flush_ms = 5000; max_queue = 10000; flush_on_exit = true });
  max_request_events = int (pos 50);
  max_concurrent_requests = int (pos 1);
  logger = root_logger;
}
