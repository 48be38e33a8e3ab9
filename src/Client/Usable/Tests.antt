-- ===== src/Client/Usable/Tests.antt =====
-- The theorem of `Writes` at a client whose batch is refused.
use intempt_python.Prelude.{none, some, [], ◌∷◌, refl, arith}
use intempt_python.Python.Value.{str}
use intempt_python.Transport.State.{response}
use intempt_python.Client.Samples.{outside, session, buffer}
use intempt_python.Client.Usable.{Usable}
use intempt_python.Client.Usable.Writes.{write-Usable}
use intempt_python.Client.Writes.{track_call, write}

write-Usable_example : Usable outside (
    write outside
      (track_call (str "Signed up") (("user_id", str "u1") ∷ []))
      (record { session = session; buffer = some buffer })
      (response 503 "" none ∷ []))
write-Usable_example =
    write-Usable outside (record { session = session; buffer = some buffer })
      (record { live = refl; valid = omega arith })
      (track_call (str "Signed up") (("user_id", str "u1") ∷ [])) (response 503 "" none ∷ [])
