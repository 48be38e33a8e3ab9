-- ===== src/Buffer/Producer.antt =====
-- `enqueue` and the timer: what is refused, what is kept, and that something will send it.
use intempt_python.Prelude.{
  Bool, true, false, ◌||◌, Option, none, some, List, [], ◌∷◌, ◌++◌, ◌≡◌, ◌⊎◌, arith, length, leb,
  if◌then◌else◌, append-nil, append_assoc, length-append, if-cases, Returns, Returns-weaken,
}
use intempt_python.Buffer.State.{Buffer, Entry, Env, logged, note, size}
use intempt_python.Buffer.Drain.{enqueue, flush_or_schedule, schedule_flush, flush, on_timer}
use intempt_python.Buffer.Valid.{IsValid}
use intempt_python.Buffer.Conserve.{handed, handed-logged, flush-conserves}
use intempt_python.Buffer.Drained.{flush_drains}

module _ {E : Type 0} where
  -- When `enqueue` drops the event: batching has stopped, or the queue is full.
  abbrev pub refuses : Buffer E → Bool
  refuses b = b.stopped || leb b.options.max_queue (length b.queue)

  -- The state with the event at the end of the queue.
  abbrev pub appended : E → Buffer E → Buffer E
  appended event b = record b { queue = b.queue ++ event ∷ [] }

  -- No deadline is set, and what is queued will be sent: a timer runs, unless batching has stopped.
  pub record IsLive (b : Buffer E) : Type 0 where
    pub deadline : b.close_deadline ≡ none
    pub scheduled : (b.stopped ≡ true) ⊎ ((b.queue ≡ []) ⊎ (b.timer ≡ true))

  pub appended-IsValid :
      (event : E) (b : Buffer E) → IsValid b → refuses b ≡ false → IsValid (appended event b)
  appended-IsValid event b v h = ground (arith, length-append b.queue (event ∷ []))

  pub handed-appended :
      (event : E) (b : Buffer E) → handed (appended event b) ≡ handed b ++ event ∷ []
  unfolding handed
  handed-appended event b = rw append_assoc

module _ {E W : Type 0} (env : Env E W) where
  -- The three ways through `enqueue`.
  pub enqueue-cases :
      (R : Option (Buffer E × W) → Type 0) (event : E) (b : Buffer E) (w : W)
      → (refuses b ≡ true → (entry : Entry) → R (some (note (logged entry) b, w)))
      → (refuses b ≡ false → (full : Bool) → R (flush_or_schedule env full (appended event b) w))
      → R (enqueue env event b w)
  unfolding enqueue
  enqueue-cases R event b w drops keeps =
      if-cases R b.stopped _ _ (λ h. drops (ground arith) _)
        (λ h.
          if-cases R (leb b.options.max_queue (size b)) _ _ (λ k. drops (ground arith) _)
            (λ k. keeps (ground arith) _))

  -- The post-state of `enqueue`.
  abbrev Adds : List E → Buffer E → Buffer E × W → Type 0
  Adds new b (b', w') = IsValid b' × (handed b' ≡ handed b ++ new)

  flush_or_schedule-Adds :
      (full : Bool) (b : Buffer E) (w : W)
      → IsValid b
      → Returns (λ (b', w'). IsValid b' × (handed b' ≡ handed b)) (flush_or_schedule env full b w)
  unfolding flush_or_schedule
  flush_or_schedule-Adds true b w v = flush-conserves env b w v
  flush_or_schedule-Adds false b w v =
      (unfold schedule_flush in ground arith, unfold schedule_flush handed in ground arith)

  -- From a valid state `enqueue` returns, in a valid state: the queue holds at most `max_queue`
  -- events and the width stays in range. The event comes after all the others in what the buffer
  -- took in, exactly if batching has not stopped and the queue is not full; otherwise nothing was
  -- taken in.
  pub enqueue-conserves :
      (event : E) (b : Buffer E) (w : W)
      → IsValid b
      → Returns
          (λ (b', w').
            IsValid b'
            × (handed b'
                ≡ handed b
                  ++ (if b.stopped || leb b.options.max_queue (length b.queue)
                      then []
                      else event ∷ [])))
          (enqueue env event b w)
  enqueue-conserves event b w v =
      enqueue-cases
        (Returns (λ (b', w').
          IsValid b' × (handed b' ≡ handed b ++ (if refuses b then [] else event ∷ []))))
        event b w (λ h entry. (omega arith, rw (h, append-nil) (handed-logged entry b)))
        (λ h full. rw h (
          Returns-weaken _ _ (flush_or_schedule env full (appended event b) w)
            (λ (b', w') (v', e). (v', rw (e, handed-appended event b)))
            (flush_or_schedule-Adds full (appended event b) w (appended-IsValid event b v h))))

  flush-IsLive :
      (b : Buffer E) (w : W)
      → IsValid b
      → b.close_deadline ≡ none
      → Returns (λ (b', w'). IsLive b') (flush env b w)
  flush-IsLive b w v u =
      Returns-weaken _ _ (flush env b w) (λ (b', w') (v', q). ground arith)
        (flush_drains env b w v u)

  flush_or_schedule-IsLive :
      (full : Bool) (b : Buffer E) (w : W)
      → IsValid b
      → b.close_deadline ≡ none
      → Returns (λ (b', w'). IsLive b') (flush_or_schedule env full b w)
  unfolding flush_or_schedule
  flush_or_schedule-IsLive true b w v u = flush-IsLive b w v u
  flush_or_schedule-IsLive false b w v u = unfold schedule_flush in ground arith

  -- From a valid state with no deadline in which queued events are waiting for a running timer,
  -- unless batching has stopped, `enqueue` and the timer's `_on_timer` return in such a state: no
  -- event is left in the queue with nothing to send it.
  pub events_stay_scheduled :
      (event : E) (b : Buffer E) (w : W)
      → IsValid b
      → IsLive b
      → Returns (λ (b', w'). IsLive b') (enqueue env event b w)
        × Returns (λ (b', w'). IsLive b') (on_timer env b w)
  events_stay_scheduled event b w v l = (
    enqueue-cases (Returns (λ (b', w'). IsLive b')) event b w
        (λ h entry. record { deadline = l.deadline; scheduled = l.scheduled })
        (λ h full.
          flush_or_schedule-IsLive full (appended event b) w (appended-IsValid event b v h)
            l.deadline),
    unfold on_timer in flush-IsLive (record b { timer = false }) w (omega arith) l.deadline,
  )
