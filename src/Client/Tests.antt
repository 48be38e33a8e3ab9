-- ===== src/Client/Tests.antt =====
-- Runs of a client against a scripted network, and the theorems at concrete inputs.
use intempt_python.Prelude.{false, none, some, List, [], ◌∷◌, ◌≡◌, refl, arith, Returns}
use intempt_python.Buffer.Drain.{flush}
use intempt_python.Buffer.Valid.{IsValid}
use intempt_python.Client.Session.{Client, is_opted_in, buffer_env, items, assert_open}
use intempt_python.Client.OptOut.{SameButWarnings, flush-IsDiscarded}
use intempt_python.Client.Events.{track_batch, build_all}
use intempt_python.Client.Events.Atomic.{Refuses, Mirrors, track_batch-Refuses, build_all-Mirrors}
use intempt_python.Client.Commerce.{order_lines}
use intempt_python.Client.Commerce.Lines.{AreLinesOf, order_lines-AreLinesOf}
use intempt_python.Client.Recommend.{Recommendation, check_recommend}
use intempt_python.Client.Recommend.Entity.{NamesOne, check_recommend-NamesOne}
use intempt_python.Client.Consent.{accept}
use intempt_python.Client.Writes.{consent_call, write, Silent, write-Silent}
use intempt_python.Client.Flags.{
  FlagContext, check_flag_call, assert_flag_key, assert_flag_context, has_identity, choose,
  variation,
}
use intempt_python.Client.Flags.Variation.{ReadsOrDefaults, WellFormed, variation-ReadsOrDefaults}
use intempt_python.Python.Float.{pos}
use intempt_python.Python.Result.{Ensures, ok}
use intempt_python.Python.Text.{
  is_name, matches_name, is_blank, strip, strip_left, strip_right, is_space, lowers_to,
}
use intempt_python.Python.Value.{
  Options, Value, null, bool, int, str, list, dict, Items, nil, cons, end, field, present, truthy,
  get,
}
use intempt_python.Transport.State.{Outcome, response}
use intempt_python.Transport.Post.{post, send_request, settle, answer, decode}
use intempt_python.Transport.RetryAfter.{parse_retry_after}
use intempt_python.Util.{non_blank}
use intempt_python.Client.Samples.{outside, session, muted, buffer}

flush-IsDiscarded_example :
    Returns
      (λ (b', sw'). IsValid b' × (SameButWarnings muted sw'.0 × (b'.queue ≡ [])))
      (flush (buffer_env outside) buffer (muted, []))
unfolding is_opted_in
flush-IsDiscarded_example = flush-IsDiscarded outside muted refl buffer [] (omega arith) refl refl

abbrev context : FlagContext
context = record { user_id = str "u1"; profile_id = null; session_id = null }

key_is_accepted :
    check_flag_call (str "new-checkout") (some context) session ≡ ok ("new-checkout", context)
unfolding check_flag_call assert_open assert_flag_key assert_flag_context has_identity non_blank
    present is_name matches_name is_blank strip strip_left strip_right is_space
key_is_accepted = refl

-- `$` accepts a newline at the end of a key.
newline_is_accepted : check_flag_call (str "new\n") (some context) session ≡ ok ("new\n", context)
unfolding check_flag_call assert_open assert_flag_key assert_flag_context has_identity non_blank
    present is_name matches_name is_blank strip strip_left strip_right is_space
newline_is_accepted = refl

abbrev up : List Outcome
up = response 200 "{}" none ∷ []

abbrev names : Value
names = list (items (str "new-checkout" ∷ []))

well_formed : Ensures WellFormed (choose outside context names session up).0
unfolding choose post send_request truthy settle parse_retry_after answer decode get
well_formed = (tt, tt)

variation-ReadsOrDefaults_example :
    ReadsOrDefaults "new-checkout"
      (bool false)
      (choose outside context names session up).0
      (variation outside (str "new-checkout") (some context) (bool false) session up).0
    × ((variation outside (str "new-checkout") (some context) (bool false) session up).1.transport
        ≡ (choose outside context names session up).1.transport)
variation-ReadsOrDefaults_example =
    variation-ReadsOrDefaults outside (str "new-checkout") (some context) (bool false) session up
      "new-checkout" context key_is_accepted well_formed

abbrev good : Value
good = dict (field "event" (str "Signed up") (field "user_id" (str "u1") end))

-- The second item has no identifier.
abbrev batch : Items
batch = cons good (cons (dict (field "event" (str "Signed up") end)) nil)

abbrev client : Client
client = record { session = session; buffer = none }

track_batch-Refuses_example : Refuses outside client (track_batch outside (list batch) client up)
unfolding present get is_blank strip strip_left strip_right is_space lowers_to
track_batch-Refuses_example = track_batch-Refuses outside batch client up refl

build_all-Mirrors_example :
    Ensures (Mirrors (good ∷ good ∷ [])) (build_all outside 0 (good ∷ good ∷ []) up).0
build_all-Mirrors_example = build_all-Mirrors outside 0 (good ∷ good ∷ []) up

-- Two units of one product, and one of another.
abbrev basket : List Value
basket =
    dict (field "product_id" (str "p1") (field "quantity" (int (pos 2)) end))
    ∷ dict (field "product_id" (str "p2") end)
    ∷ []

order_lines-AreLinesOf_example : Ensures (AreLinesOf basket) (order_lines 0 basket)
order_lines-AreLinesOf_example = order_lines-AreLinesOf 0 basket

abbrev wish : Recommendation
wish = record {
  feed_id = str "7";
  fields = list (cons (str "title") nil);
  user_id = str "u1";
  account_id = null;
  limit = int (pos 3);
  product_id = null;
}

check_recommend-NamesOne_example :
    Ensures (λ request. NamesOne wish request.1) (check_recommend wish session)
check_recommend-NamesOne_example = check_recommend-NamesOne wish session

abbrev silent : Client
silent = record { session = muted; buffer = some buffer }

abbrev consent_options : Options
consent_options = ("user_id", str "u1") ∷ []

write-Silent_example :
    Silent outside silent (write outside (consent_call accept consent_options) silent up)
unfolding is_opted_in
write-Silent_example = write-Silent outside silent refl (consent_call accept consent_options) up
