-- ===== src/Client/Wire/Tests.antt =====
-- The theorems of this folder's parent at a concrete client.
use intempt_python.Prelude.{none, some, [], ◌∷◌, ◌≡◌, refl, arith, Returns}
use intempt_python.Python.Result.{ok}
use intempt_python.Python.Value.{dict, end}
use intempt_python.Transport.State.{response}
use intempt_python.Client.Session.{is_opted_in, submit, flush_client}
use intempt_python.Client.Samples.{outside, session, buffer}
use intempt_python.Buffer.State.{Buffer}
use intempt_python.Python.Value.{Value}
use intempt_python.Client.Session.{close_client}
use intempt_python.Client.Wire.Closed.{HasSentAll, close_client-HasSentAll}
use intempt_python.Client.Wire.Calls.{Matches, submit-Matches}

-- The first request is refused, the others are accepted.
submit-Matches_example :
    Returns
      (λ (r, (c', w')). (r ≡ ok tt) × Matches outside [] c'.session c'.buffer)
      (submit outside
        (dict end ∷ [])
        (record { session = session; buffer = some buffer })
        (response 503 "" none ∷ []))
    × Returns
        (λ (c', w'). Matches outside [] c'.session c'.buffer)
        (flush_client outside
          (record { session = session; buffer = some buffer })
          (response 503 "" none ∷ []))
submit-Matches_example =
    submit-Matches outside [] (dict end ∷ []) (record { session = session; buffer = some buffer })
      (response 503 "" none ∷ [])
      (unfold is_opted_in in
        (omega arith, record { opted_in = refl; wire = record { closed = refl; sent = refl } }))

-- Two events are queued when the client is closed.
abbrev queued : Buffer Value
queued = record buffer { queue = dict end ∷ dict end ∷ [] }

close_client-HasSentAll_example :
    Returns
      (λ (c, w'). (b' : Buffer Value) × HasSentAll outside [] queued c b')
      (close_client outside
        (record { session = session; buffer = some queued })
        (response 503 "" none ∷ []))
close_client-HasSentAll_example =
    close_client-HasSentAll outside [] session queued (response 503 "" none ∷ []) (omega arith) (
      unfold is_opted_in in
      record { opted_in = refl; wire = record { closed = refl; sent = refl } })
