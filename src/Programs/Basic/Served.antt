-- ===== src/Programs/Basic/Served.antt =====
-- How the server of examples/basic/app.py leaves its client.
use intempt_python.Prelude.{String, Option, some, List, [], ◌≡◌, Returns}
use intempt_python.Python.Result.{Result}
use intempt_python.Python.Value.{Value}
use intempt_python.Client.Session.{Outside, Client}
use intempt_python.Client.Shutdown.{IsShut}
use intempt_python.Client.Usable.{IsUsable}
use intempt_python.Programs.Process.{Process}
use intempt_python.Programs.Basic.{Line, Library, Incoming, Reply}
use intempt_python.Programs.Basic.Handlers.{serve, run_server}
use intempt_python.Programs.Basic.Replies.{AllAnswered}

module _ (lib : Library) {W : Type 0} (out : Outside W) where
  abbrev Serves :
      Option String → List Incoming → Option (List (Result Reply) × Process Line W) → Type 0
  Serves feed_id requests =
      Returns (λ (rs, p). AllAnswered lib feed_id requests rs × IsUsable p.client)

  -- The server has stopped after these requests, each of which has had its reply, and its client is
  -- shut, with what its buffer was given accounted for.
  abbrev pub IsLeft :
      Option String
      → List Incoming
      → Option (List (Result Reply) × Process Line W)
      → List (Result Reply) × (Client × W)
      → Type 0
  IsLeft feed_id requests o (rs, (c, w)) =
      (p : Process Line W) × (o ≡ some (rs, p))
      × AllAnswered lib feed_id requests rs
      × IsShut p.client.buffer c

  abbrev fresh : Client → W → Process Line W
  fresh c w = record { client = c; world = w; printed = [] }

  abbrev pub EndsLeft : Option String → List Incoming → W → Client → Type 0
  EndsLeft feed_id requests w c =
      Returns (IsLeft feed_id requests (serve lib out feed_id requests (fresh c w)))
        (run_server lib out feed_id requests (fresh c w))
