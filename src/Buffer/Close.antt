-- ===== src/Buffer/Close.antt =====
-- `close`: it returns, nothing is lost without a word, and the buffer is shut.
use intempt_python.Prelude.{
  ◌+◌, append-nil, true, false, Option, none, some, List, [], ◌∷◌, ◌≡◌, ◌≢◌, ◌∙◌, refl, arith,
  length, Returns,
}
use intempt_python.Buffer.State.{Buffer, Env, Effect, logged, gave_up}
use intempt_python.Buffer.Drain.{flush, then_close, finish_close, close}
use intempt_python.Buffer.Valid.{IsValid}
use intempt_python.Buffer.Conserve.{handed, removed, flush-conserves}

module _ {E : Type 0} where
  -- What `close` leaves behind: a buffer that takes nothing in, with nothing registered. If events
  -- remain, the last thing it did was to log how many.
  pub record IsClosed (b : Buffer E) : Type 0 where
    pub stopped : b.stopped ≡ true
    pub deadline : b.close_deadline ≡ none
    pub timer : b.timer ≡ false
    pub exit_hook : b.exit_hook ≡ false
    pub reported :
        b.queue ≢ []
        → (before : List (Effect E)) × (b.effects
            ≡ logged (gave_up b.close_budget (length b.queue)) ∷ before)

  finish_close-IsClosed : (b : Buffer E) → IsClosed (finish_close b)
  unfolding finish_close
  finish_close-IsClosed b = record {
    stopped = refl;
    deadline = refl;
    timer = refl;
    exit_hook = refl;
    reported = λ h. (b.effects, ground arith);
  }

  pub finish_close-IsValid : (b : Buffer E) → IsValid b → IsValid (finish_close b)
  unfolding finish_close
  finish_close-IsValid b v = ground arith

  pub handed-finish_close : (b : Buffer E) → handed (finish_close b) ≡ handed b
  unfolding handed finish_close
  handed-finish_close b = ground (arith, append-nil (removed b.effects))

module _ {E W : Type 0} (env : Env E W) where
  after_flush :
      (h : List E) (r : Option (Buffer E × W))
      → Returns (λ (b', w'). IsValid b' × (handed b' ≡ h)) r
      → Returns (λ (b', w'). IsValid b' × (IsClosed b' × (handed b' ≡ h))) (then_close r)
  after_flush h none p = p
  after_flush h (some (b, w)) p =
      (finish_close-IsValid b p.0, (finish_close-IsClosed b, handed-finish_close b ∙ p.1))

  -- From a valid state `close` returns, whatever `send` does. The buffer is then shut: it is stopped,
  -- so that every later event is refused, and holds no timer, no exit hook and no deadline. Every
  -- event that was taken in has left the queue by a delivery or by a row of the retry table, or is
  -- one of those whose number the last log entry gives.
  pub close-conserves :
      (b : Buffer E) (w : W)
      → IsValid b
      → Returns (λ (b', w'). IsValid b' × (IsClosed b' × (handed b' ≡ handed b))) (close env b w)
  unfolding close
  close-conserves b w v =
      let (now, w') = env.monotonic w in
      let b' : Buffer E = record b { close_deadline = some (now + b.close_budget) } in
      after_flush (handed b) (flush env b' w')
        (unfold handed in flush-conserves env b' w' (omega arith))
