-- ===== src/Client/AllFlags/Tests.antt =====
-- The agreement of the two flag reads on three choices.
use intempt_python.Prelude.{true, List, [], ◌∷◌, refl, arith}
use intempt_python.Python.Result.{Ensures}
use intempt_python.Python.Value.{Value, bool, null, int, str, dict, field, end, get}
use intempt_python.Python.Float.{pos}
use intempt_python.Client.AllFlags.{collect}
use intempt_python.Client.AllFlags.Agree.{Agrees, collect-Agrees}

abbrev named : Value → Value → Value
named name body = dict (field "name" name (field "body" body end))

-- The choice of the key stands between one of another name and one without a body.
abbrev three : List Value
three =
    named (str "banner") (bool true)
    ∷ named (str "checkout") (int (pos 2))
    ∷ named (str "cta") null
    ∷ []

collect-Agrees_example : Ensures (Agrees "checkout" (int (pos 1)) three) (collect three [])
unfolding get
collect-Agrees_example =
    collect-Agrees "checkout" (int (pos 1)) three refl (tt, (tt, (tt, tt))) (omega arith)
