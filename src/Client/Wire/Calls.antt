-- ===== src/Client/Wire/Calls.antt =====
-- The calls of a buffered client that put events in and that send them: what is on the wire is what
-- the buffer counts as sent.
use intempt_python.Prelude.{
  String, ◌||◌, not, Option, none, some, List, ◌++◌, ◌≡◌, refl, arith, if-cases, Returns, is_empty,
}
use intempt_python.Buffer.State.{Buffer}
use intempt_python.Buffer.Valid.{IsValid}
use intempt_python.Python.Result.{ok}
use intempt_python.Python.Value.{Value}
use intempt_python.Client.Session.{
  Outside, Session, Client, is_opted_in, assert_open, rebuild, enqueue_all, taken_in, submit_open,
  submit, flush_client,
}
use intempt_python.Client.Buffered.{enqueue_all-Holds}
use intempt_python.Client.Wire.{IsSending, wired, Agrees, flush-Agrees}

module _ {W : Type 0} (out : Outside W) (base : List String) where
  abbrev Holds : Buffer Value × (Session × W) → Type 0
  Holds (b, sw) = IsValid b × Agrees out base b sw

  -- A client that is open and opted in, with a valid buffer: what its transport has sent since it
  -- had sent `base` are the batches of the buffer's effects, in order.
  abbrev pub Matches : Session → Option (Buffer Value) → Type 0
  Matches s none = ⊥
  Matches s (some b) = IsValid b × IsSending (wired out b.effects ++ base) s

  enqueue_all-Agrees :
      (events : List Value) (b : Buffer Value) (sw : Session × W)
      → Holds (b, sw)
      → Returns Holds (enqueue_all out events b sw)
  enqueue_all-Agrees =
      enqueue_all-Holds out (Agrees out base) (flush-Agrees out base) (λ entry b sw h. h)
        (λ event b sw h. h) (λ b sw h. h)

  rebuild-Matches :
      (o : Option (Buffer Value × (Session × W)))
      → Returns Holds o
      → Returns (λ (c, w). Matches c.session c.buffer) (rebuild out o)
  rebuild-Matches none h = h
  rebuild-Matches (some (b, (s, w))) h = h

  taken_in-Matches :
      (o : Option (Client × W))
      → Returns (λ (c, w). Matches c.session c.buffer) o
      → Returns (λ (r, (c, w)). (r ≡ ok tt) × Matches c.session c.buffer) (taken_in out o)
  taken_in-Matches none h = h
  taken_in-Matches (some (c, w)) h = (refl, h)

  submit_open-Matches :
      (events : List Value) (s : Session) (o : Option (Buffer Value)) (w : W)
      → Matches s o
      → Returns
          (λ (r, (c, w')). (r ≡ ok tt) × Matches c.session c.buffer)
          (submit_open out events (record { session = s; buffer = o }) w)
  submit_open-Matches events s none w h = absurd h
  submit_open-Matches events s (some b) w h =
      unfold submit_open in
      if-cases (Returns (λ (r, (c, w')). (r ≡ ok tt) × Matches c.session c.buffer))
        (not (is_opted_in s) || is_empty events) _ _ (λ _. (refl, h))
        (λ _. taken_in-Matches _ (rebuild-Matches _ (enqueue_all-Agrees events b (s, w) h)))

  is_open : (s : Session) (o : Option (Buffer Value)) → Matches s o → assert_open s ≡ ok tt
  unfolding is_opted_in assert_open
  is_open s none h = absurd h
  is_open s (some b) h =
      if-cases (λ r. r ≡ ok tt) s.closed _ _ (λ shut. absurd (ground (arith, h.1.opted_in)))
        (λ _. refl)

  flush_client-Matches :
      (s : Session) (o : Option (Buffer Value)) (w : W)
      → Matches s o
      → Returns
          (λ (c, w'). Matches c.session c.buffer)
          (flush_client out (record { session = s; buffer = o }) w)
  unfolding flush_client
  flush_client-Matches s none w h = absurd h
  flush_client-Matches s (some b) w h = rebuild-Matches _ (flush-Agrees out base b (s, w) h.0 h.1)

  -- A client is open and opted in, with a valid buffer, and what its transport has sent are the
  -- payloads of the batches of the buffer's effects, in order, after what it had sent before. A
  -- `_submit` of any events and a `flush` return, the first without an exception, and leave the
  -- client so. Each call of the buffer's `send` is one request, whether it was accepted or not, and
  -- none if `json.dumps` raises on the batch.
  pub submit-Matches :
      (events : List Value) (c : Client) (w : W)
      → Matches c.session c.buffer
      → Returns
          (λ (r, (c', w')). (r ≡ ok tt) × Matches c'.session c'.buffer)
          (submit out events c w)
        × Returns (λ (c', w'). Matches c'.session c'.buffer) (flush_client out c w)
  submit-Matches events c w h = (
    unfold submit in
        rw (is_open c.session c.buffer h) (submit_open-Matches events c.session c.buffer w h),
    flush_client-Matches c.session c.buffer w h,
  )
