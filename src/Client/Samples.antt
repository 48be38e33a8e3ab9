-- ===== src/Client/Samples.antt =====
-- A client at concrete values, on a network that answers by a script.
use intempt_python.Prelude.{true, false, none, some, List, [], ◌∷◌}
use intempt_python.Buffer.State.{Buffer}
use intempt_python.Config.Samples.{show, config}
use intempt_python.Client.Session.{Outside, Session}
use intempt_python.Python.Float.{finite}
use intempt_python.Python.Result.{ok}
use intempt_python.Python.Value.{Value, bool, str, list, dict, nil, cons, end, field}
use intempt_python.Transport.State.{Outcome, response, Net}

abbrev pub choices : Value
choices = dict (
    field "choices"
      (list (cons (dict (field "name" (str "new-checkout") (field "body" (bool true) end))) nil))
      end)

-- A network that answers by a script, and then with an empty 200. Every body decodes to `choices`.
abbrev pub next : List Outcome → Outcome × List Outcome
next [] = (response 200 "" none, [])
next (o ∷ rest) = (o, rest)

abbrev pub net : Net (List Outcome)
net = record {
  exchange = λ c request w. next w;
  dumps = λ v. ok "{}";
  loads = λ s. some choices;
  parse_float = λ s. none;
  parse_date = λ s. none;
  time = λ w. (finite false 0 0, w);
  show_float = λ x. "10.0";
}

abbrev pub outside : Outside (List Outcome)
outside = record {
  net = net;
  monotonic = λ w. (0, w);
  sleep = λ d w. w;
  uuid = λ w. ("id", w);
  now = λ w. (finite false 5 0, w);
  show = show;
}

abbrev pub session : Session
session = record {
  config = config;
  transport = record {
    config = config;
    credentials = config.credentials;
    conn = none;
    closed = false;
    trace = [];
  };
  opted_in = true;
  closed = false;
  warnings = [];
}

abbrev pub muted : Session
muted = record session { opted_in = false }

abbrev pub buffer : Buffer Value
buffer = record {
  options = record { size = 2; flush_ms = 5000; max_queue = 10; flush_on_exit = false };
  max_request_events = 50;
  close_budget = 30000000;
  queue = dict end ∷ dict end ∷ dict end ∷ [];
  batch_size = 2;
  consecutive_failures = 0;
  consecutive_successes = 0;
  consecutive_drops = 0;
  stopped = false;
  close_deadline = none;
  timer = true;
  exit_hook = false;
  effects = [];
}
