-- ===== src/Programs/Bare/Tests.antt =====
-- examples/bare/send.py in two environments.
use intempt_python.Prelude.{none, some, List, [], ◌∷◌, ◌≡◌, refl, Returns}
use intempt_python.Config.Samples.{root_logger}
use intempt_python.Transport.State.{Outcome, response}
use intempt_python.Client.Samples.{outside}
use intempt_python.Programs.Process.{code, Environ, missing_of, open_client}
use intempt_python.Programs.Bare.{missing_environment, required_names, client_options, main}
use intempt_python.Programs.Bare.Ended.{Ended, main-Ended}

abbrev environ : Environ
environ =
    ("INTEMPT_ORG", "acme")
    ∷ ("INTEMPT_PROJECT", "shop")
    ∷ ("INTEMPT_API_KEY", "pk.secret")
    ∷ ("INTEMPT_FEED_ID", "7")
    ∷ []

abbrev answers : List Outcome
answers = response 200 "{}" none ∷ response 503 "" none ∷ []

-- A variable that is empty is missing.
empty_is_missing :
    main outside root_logger (("INTEMPT_ORG", "") ∷ environ) answers
    ≡ some (record {
      exit = code 2;
      client = none;
      world = answers;
      printed = missing_environment ("INTEMPT_ORG" ∷ []) ∷ [];
    })
unfolding main
empty_is_missing = refl

main-Ended_example :
    Returns
      (Ended outside
        (missing_of required_names environ)
        (open_client outside.show root_logger (client_options environ))
        environ
        answers)
      (main outside root_logger environ answers)
main-Ended_example = main-Ended outside root_logger environ answers
