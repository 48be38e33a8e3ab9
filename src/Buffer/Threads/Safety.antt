-- ===== src/Buffer/Threads/Safety.antt =====
-- Whatever the threads do and in whatever order, the buffer is valid and no event is lost,
-- repeated or reordered.
use intempt_python.Prelude.{
  ℕ, zero, suc, ◌≤◌, Option, none, some, List, [], ◌∷◌, ◌++◌, ◌≡◌, ◌∙◌, refl, arith, ap, sym,
  length, drop, append-nil, append_assoc, length-append,
}
use mathlib.Core.Path.{subst}
use intempt_python.Config.Options.{AreValid, BatchOptions}
use intempt_python.Buffer.State.{Buffer, Env, Effect, rejected, logged, note, new}
use intempt_python.Buffer.Retry.{accept, handle_failure}
use intempt_python.Buffer.Drain.{schedule_flush, cancel_timer, finish_close}
use intempt_python.Buffer.Valid.{IsValid, new-IsValid, accept-IsValid, handle_failure-IsValid}
use intempt_python.Buffer.Rounds.{IsBatch, take-IsBatch}
use intempt_python.Buffer.Cases.{IsFront, take-IsFront}
use intempt_python.Buffer.Conserve.{handed, handed-logged, handed-accept, handed-handle_failure}
use intempt_python.Buffer.Close.{finish_close-IsValid, handed-finish_close}
use intempt_python.Buffer.Producer.{appended, appended-IsValid, handed-appended}
use intempt_python.Buffer.Threads.{
  Shared, Step, slice, deliver, fail, put, refuse, schedule, cancel, set_deadline, finish, Reach,
  here, next,
}

drop-append {ℓ} :
    {A : Type ℓ} (n : ℕ) (xs ys : List A) → n ≤ length xs → drop n (xs ++ ys) ≡ drop n xs ++ ys
drop-append zero xs ys h = refl
drop-append (suc n) [] ys h = absurd (omega arith)
drop-append (suc n) (x ∷ xs) ys h = drop-append n xs ys (omega arith)

module _ {E : Type 0} where
  -- The batch in flight is the front of the queue.
  abbrev FliesFrom : Buffer E → Option (List E) → Type 0
  FliesFrom b none = Unit
  FliesFrom b (some batch) = IsBatch batch b × IsFront batch b

  record IsSafe (s : Shared E) : Type 0 where
    valid : IsValid s.buffer
    flight : FliesFrom s.buffer s.in_flight

  -- What a step that puts `new` in has to keep.
  record Moves (s : Shared E) (new : List E) (t : Shared E) : Type 0 where
    safe : IsSafe t
    handed_new : handed t.buffer ≡ handed s.buffer ++ new

  appended-FliesFrom :
      (event : E) (b : Buffer E) (o : Option (List E))
      → FliesFrom b o
      → FliesFrom (appended event b) o
  appended-FliesFrom event b none f = tt
  appended-FliesFrom event b (some batch) f = (
    ground (arith, length-append b.queue (event ∷ [])),
    rw (drop-append (length batch) b.queue (event ∷ []) f.0.length-le-size, ← append_assoc, f.1)
        refl,
  )

  -- A step that changes neither the queue nor the width nor the options keeps the batch.
  same-FliesFrom :
      (b b' : Buffer E) (o : Option (List E))
      → b'.queue ≡ b.queue
      → b'.batch_size ≡ b.batch_size
      → FliesFrom b o
      → FliesFrom b' o
  same-FliesFrom b b' none q w f = tt
  same-FliesFrom b b' (some batch) q w f = (ground arith, rw q f.1)

  same_Moves :
      (s : Shared E) (b' : Buffer E)
      → IsSafe s
      → IsValid b'
      → b'.queue ≡ s.buffer.queue
      → b'.batch_size ≡ s.buffer.batch_size
      → handed b' ≡ handed s.buffer
      → Moves s [] (record s { buffer = b' })
  same_Moves s b' safe v q w h = record {
    safe = record { valid = v; flight = same-FliesFrom s.buffer b' s.in_flight q w safe.flight };
    handed_new = h ∙ sym (append-nil (handed s.buffer));
  }

  settled_Moves :
      (s : Shared E) (b' : Buffer E)
      → IsValid b'
      → handed b' ≡ handed s.buffer
      → Moves s [] (record { buffer = b'; in_flight = none })
  settled_Moves s b' v h = record {
    safe = record { valid = v; flight = tt };
    handed_new = h ∙ sym (append-nil (handed s.buffer));
  }

  flight_of :
      (s : Shared E) (batch : List E)
      → IsSafe s
      → s.in_flight ≡ some batch
      → IsBatch batch s.buffer × IsFront batch s.buffer
  flight_of s batch safe e = subst (FliesFrom s.buffer) e safe.flight

  noted-IsValid : (x : Effect E) (b : Buffer E) → IsValid b → IsValid (note x b)
  noted-IsValid x b v = omega arith

  schedule_flush-IsValid : (b : Buffer E) → IsValid b → IsValid (schedule_flush b)
  unfolding schedule_flush
  schedule_flush-IsValid b v = ground arith

  cancel_timer-IsValid : (b : Buffer E) → IsValid b → IsValid (cancel_timer b)
  unfolding cancel_timer
  cancel_timer-IsValid b v = omega arith

  deadline-IsValid :
      (d : Option ℕ) (b : Buffer E) → IsValid b → IsValid (record b { close_deadline = d })
  deadline-IsValid d b v = omega arith

module _ {E W : Type 0} (env : Env E W) where
  Step-Moves : {s t : Shared E} {new : List E} → Step env s new t → IsSafe s → Moves s new t
  Step-Moves {s} (slice idle open_ some_event n e) safe =
      rw (n, e)
        (record {
          safe = record {
            valid = safe.valid;
            flight = (take-IsBatch s.buffer safe.valid some_event, take-IsFront s.buffer);
          };
          handed_new = sym (append-nil (handed s.buffer));
        })
  Step-Moves {s} (deliver batch f n e) safe =
      let (t, front) = flight_of s batch safe f in
      rw (n, e)
        (settled_Moves s (accept batch s.buffer) (accept-IsValid batch s.buffer safe.valid)
          (handed-accept batch s.buffer front))
  Step-Moves {s} (fail batch error w f n e) safe =
      let (t, front) = flight_of s batch safe f in
      let b' : Buffer E = note (rejected batch error) s.buffer in
      rw (n, e)
        (settled_Moves s (handle_failure env error batch b' w).1
          (handle_failure-IsValid env error batch b' w t.length-le-width
            (noted-IsValid (rejected batch error) s.buffer safe.valid))
          (handed-handle_failure env error batch s.buffer w t front))
  Step-Moves {s} (put event open_ n e) safe =
      rw (n, e)
        (record {
          safe = record {
            valid = appended-IsValid event s.buffer safe.valid open_;
            flight = appended-FliesFrom event s.buffer s.in_flight safe.flight;
          };
          handed_new = handed-appended event s.buffer;
        })
  Step-Moves {s} (refuse entry shut n e) safe =
      rw (n, e)
        (same_Moves s (note (logged entry) s.buffer) safe
          (noted-IsValid (logged entry) s.buffer safe.valid) refl refl
          (handed-logged entry s.buffer))
  Step-Moves {s} (schedule n e) safe =
      rw (n, e)
        (same_Moves s (schedule_flush s.buffer) safe (schedule_flush-IsValid s.buffer safe.valid)
          (unfold schedule_flush in ground arith) (unfold schedule_flush in ground arith)
          (unfold schedule_flush handed in ground arith))
  Step-Moves {s} (cancel n e) safe =
      rw (n, e)
        (same_Moves s (cancel_timer s.buffer) safe (cancel_timer-IsValid s.buffer safe.valid)
          (unfold cancel_timer in refl) (unfold cancel_timer in refl)
          (unfold cancel_timer handed in refl))
  Step-Moves {s} (set_deadline d n e) safe =
      rw (n, e)
        (same_Moves s (record s.buffer { close_deadline = d }) safe
          (deadline-IsValid d s.buffer safe.valid) refl refl (unfold handed in refl))
  Step-Moves {s} (finish n e) safe =
      rw (n, e)
        (same_Moves s (finish_close s.buffer) safe (finish_close-IsValid s.buffer safe.valid)
          (unfold finish_close in ground arith) (unfold finish_close in ground arith)
          (handed-finish_close s.buffer))

  Reach-Moves : {s t : Shared E} {all : List E} → IsSafe s → Reach env s all t → Moves s all t
  Reach-Moves {s} safe here = record {
    safe = safe;
    handed_new = sym (append-nil (handed s.buffer));
  }
  Reach-Moves {s} safe (next {old = old} {new = new} r st e) =
      let before = Reach-Moves safe r in
      let after = Step-Moves st before.safe in
      rw e (record {
        safe = after.safe;
        handed_new =
            after.handed_new
            ∙ ap (λ h. h ++ new) before.handed_new
            ∙ append_assoc (handed s.buffer) old new;
      })

  -- From a new buffer, any interleaving of producers, the draining thread, the timer and `close`
  -- reaches only valid states: the width in its range and the queue within its bound. The events
  -- that were put in are, in that order, those that have left the queue by a delivery or a row of
  -- the retry table and then those that it holds.
  pub interleavings_conserve :
      (o : BatchOptions) (m budget : ℕ) {all : List E} {t : Shared E}
      → AreValid o
      → 1 ≤ m
      → Reach env (record { buffer = new o m budget; in_flight = none }) all t
      → IsValid t.buffer × (handed t.buffer ≡ all)
  interleavings_conserve o m budget ok pos r =
      let start : IsSafe (record { buffer = new o m budget; in_flight = none }) = record {
        valid = new-IsValid o m budget ok pos;
        flight = tt;
      } in
      let moves = Reach-Moves start r in
      (moves.safe.valid, moves.handed_new ∙ unfold new handed in refl)
