-- ===== src/Programs/Basic/Tests.antt =====
-- examples/basic/app.py on four requests.
use intempt_python.Prelude.{String, false, none, some, List, [], ◌∷◌, ◌≡◌, refl}
use intempt_python.Errors.{config_error}
use intempt_python.Transport.State.{Outcome, response}
use intempt_python.Python.Result.{ok, raised}
use intempt_python.Python.Value.{present}
use intempt_python.Python.Text.{is_blank, strip, strip_left, strip_right, is_space}
use intempt_python.Config.Host.{parse_int, parse_signed, parse_digits}
use intempt_python.Util.{non_blank}
use intempt_python.Client.Samples.{outside, session, buffer}
use intempt_python.Client.Session.{assert_open}
use intempt_python.Client.Recommend.{recommend, check_recommend, entity}
use intempt_python.Programs.Process.{Environ, Process}
use intempt_python.Programs.Basic.{
  Request, Library, Incoming, post_request, get_request, Line, refusal, plan_of,
}
use intempt_python.Programs.Basic.Handlers.{do_post, do_get, body, carry_out, caught}

-- Of every form the user is `u1`; every request has a body of no bytes.
abbrev library : Library
library = record {
  route = λ s. s;
  query = λ s. s;
  parse_qs = λ s. ("user", ("u1", [])) ∷ ("sku", ("21", [])) ∷ [];
  is_value_error = λ s. false;
  text_of = λ s. s;
}

abbrev request_to : String → Request
request_to path = record { path = path; content_length = none; decoded = λ n. some "" }

abbrev environ : Environ
environ =
    ("INTEMPT_ORG", "acme") ∷ ("INTEMPT_PROJECT", "shop") ∷ ("INTEMPT_API_KEY", "pk.secret") ∷ []

abbrev answers : List Outcome
answers = response 503 "" none ∷ response 200 "" none ∷ []

abbrev requests : List Incoming
requests =
    post_request (request_to "/signup")
    ∷ post_request (request_to "/purchase")
    ∷ post_request (request_to "/forget")
    ∷ get_request (request_to "/recommend")
    ∷ []

abbrev process : Process Line (List Outcome)
process = record {
  client = record { session = session; buffer = some buffer };
  world = answers;
  printed = [];
}

abbrev blank_user : Library
blank_user = record library { parse_qs = λ s. ("user", (" ", [])) ∷ [] }

-- A query with a blank user makes `recommend` raise what `do_GET` does not catch.
blank_user_escapes :
    do_get blank_user outside (some "5292") (request_to "/recommend") process
    ≡ some (raised (config_error "recommend: one of user_id or account_id is required"), process)
unfolding do_get recommend check_recommend assert_open non_blank entity present is_blank strip
    strip_left strip_right is_space
blank_user_escapes = refl

-- A quantity that is no number is the visitor's mistake.
bad_quantity :
    do_post
      (record library {
        parse_qs = λ s. ("user", ("u1", [])) ∷ ("sku", ("21", [])) ∷ ("qty", ("two", [])) ∷ [];
      })
      outside
      (request_to "/purchase")
      process
    ≡ some (ok (refusal 400 "ValueError"), process)
unfolding do_post body plan_of carry_out caught parse_int parse_signed parse_digits strip strip_left
    strip_right is_space
bad_quantity = refl
