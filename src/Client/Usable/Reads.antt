-- ===== src/Client/Usable/Reads.antt =====
-- Every read leaves a client as open as it was.
use intempt_python.Prelude.{String, Option, ◌≡◌, refl, [], ◌∷◌}
use intempt_python.Python.Result.{Result, ok, raised, ◌>>◌}
use intempt_python.Python.Value.{Value, str, null, list}
use intempt_python.Client.Session.{Outside, Session, assert_open, items}
use intempt_python.Client.Flags.{
  FlagContext, check_flag_call, assert_flag_context, choices_or_empty, choose, choose_or_empty,
  answer_call, variation_detail, string_variation,
}
use intempt_python.Client.AllFlags.{all_checked, all_flags}
use intempt_python.Client.Recommend.{Recommendation, check_recommend, request_feed, recommend}

module _ {W : Type 0} (out : Outside W) where
  choices_live : (r : Result Value × Session × W) → (choices_or_empty out r).1.closed ≡ r.1.closed
  choices_live (ok v, s, w) = refl
  choices_live (raised e, s, w) = refl

  choose_live :
      (context : FlagContext) (names : Value) (s : Session) (w : W)
      → (choose_or_empty out context names s w).1.closed ≡ s.closed
  unfolding choose_or_empty choose
  choose_live context names s w = choices_live (choose out context names s w)

  answer_live :
      (m : Result (String × FlagContext)) (default : Value) (s : Session) (w : W)
      → (answer_call out m default s w).1.closed ≡ s.closed
  answer_live (raised e) default s w = refl
  answer_live (ok (key, context)) default s w =
      choose_live context (list (items (str key ∷ []))) s w

  pub string_variation_live :
      (key : Value) (context : Option FlagContext) (default : Value) (s : Session) (w : W)
      → (string_variation out key context default s w).1.closed ≡ s.closed
  unfolding string_variation variation_detail
  string_variation_live key context default s w =
      answer_live (check_flag_call key context s) default s w

  all_live :
      (m : Result FlagContext) (s : Session) (w : W) → (all_checked out m s w).1.closed ≡ s.closed
  all_live (raised e) s w = refl
  all_live (ok context) s w = choose_live context null s w

  pub all_flags_live :
      (context : Option FlagContext) (s : Session) (w : W)
      → (all_flags out context s w).1.closed ≡ s.closed
  unfolding all_flags
  all_flags_live context s w =
      all_live (assert_open s >> assert_flag_context s context "all_flags") s w

  feed_live :
      (m : Result (String × Value)) (s : Session) (w : W)
      → (request_feed out m s w).1.closed ≡ s.closed
  feed_live (raised e) s w = refl
  feed_live (ok (suffix, body)) s w = refl

  pub recommend_live :
      (r : Recommendation) (s : Session) (w : W) → (recommend out r s w).1.closed ≡ s.closed
  unfolding recommend
  recommend_live r s w = feed_live (check_recommend r s) s w
