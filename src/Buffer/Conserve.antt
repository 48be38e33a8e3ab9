-- ===== src/Buffer/Conserve.antt =====
-- No event is lost, repeated or reordered: what left the queue, in the order in which it left,
-- followed by what the queue holds, is what was put in.
use intempt_python.Prelude.{
  ℕ, Bool, true, false, not, Option, none, some, List, [], ◌∷◌, ◌++◌, ◌≡◌, refl, arith, length,
  drop, leb, ltb, if-cases, if◌then◌else◌, append-nil, append_assoc, Returns, ap, ◌∙◌,
}
use intempt_python.Errors.{ApiError, Error, as_api_error, retryable}
use intempt_python.Buffer.State.{
  Buffer, Entry, Env, Effect, delivered, rejected, slept, logged, Action, note,
}
use intempt_python.Buffer.Retry.{
  accept, widen_if_earned, handle_too_large, drop_too_large, drop_batch, retry, back_off,
  drops_batch, is_too_large, status_of, handle_failure,
}
use intempt_python.Buffer.Drain.{flush, cancel_timer}
use intempt_python.Buffer.Valid.{IsValid}
use intempt_python.Buffer.Rounds.{IsBatch, cleared}
use intempt_python.Buffer.Cases.{flush_invariant, IsFront, failure-cases}

-- The retry table of README.md: the failures after which the batch is given up. A batch that is
-- too large is given up only when it cannot be halved, and another is given up if no retry helps.
abbrev pub gives_up : Option ApiError → ℕ → Bool
gives_up none count = false
gives_up (some e) count = if is_too_large e.status then leb count 1 else not (retryable e)

-- How the three branches of `_handle_failure` read in the table.
pub gives_up_large :
    (e : Option ApiError) (n : ℕ) → is_too_large (status_of e) ≡ true → gives_up e n ≡ leb n 1
gives_up_large none n h = cc
gives_up_large (some e) n h = rw h

pub gives_up_other :
    (e : Option ApiError) (n : ℕ)
    → is_too_large (status_of e) ≡ false
    → gives_up e n ≡ drops_batch e
gives_up_other none n h = refl
gives_up_other (some e) n h = rw h

module _ {E : Type 0} where
  -- The events that leave the queue with an effect.
  abbrev pub leaves : Effect E → List E
  leaves (delivered batch) = batch
  leaves (rejected batch error) = if gives_up (as_api_error error) (length batch) then batch else []
  leaves (slept ms) = []
  leaves (logged entry) = []

  -- The events that have left, the first one first.
  abbrev pub removed : List (Effect E) → List E
  removed [] = []
  removed (x ∷ xs) = removed xs ++ leaves x

  -- Every event that the buffer took in, in order.
  unfoldable pub handed : Buffer E → List E
  handed b = removed b.effects ++ b.queue

  -- What left, and what is still there, is what was there.
  handed_step :
      (b b' : Buffer E) (gone : List E)
      → removed b'.effects ≡ removed b.effects ++ gone
      → gone ++ b'.queue ≡ b.queue
      → handed b' ≡ handed b
  unfolding handed
  handed_step b b' gone e f = rw (e, append_assoc, f)

  pub handed-logged : (entry : Entry) (b : Buffer E) → handed (note (logged entry) b) ≡ handed b
  unfolding handed
  handed-logged entry b = rw append-nil

  pub handed-accept :
      (batch : List E) (b : Buffer E) → IsFront batch b → handed (accept batch b) ≡ handed b
  handed-accept batch b front =
      handed_step b (accept batch b) batch (unfold accept widen_if_earned in ground arith)
        (unfold accept widen_if_earned in ground arith)

  -- A batch of one is the first event.
  drop_one :
      (batch : List E) (b : Buffer E)
      → IsBatch batch b
      → leb (length batch) 1 ≡ true
      → length batch ≡ 1
  drop_one batch b t h = ground arith

  leaves_given_up :
      (batch : List E) (error : Error)
      → gives_up (as_api_error error) (length batch) ≡ true
      → leaves (rejected batch error) ≡ batch
  leaves_given_up batch error h = rw h

  leaves_kept :
      (batch : List E) (error : Error)
      → gives_up (as_api_error error) (length batch) ≡ false
      → leaves (rejected batch error) ≡ []
  leaves_kept batch error h = rw h

module _ {E W : Type 0} (env : Env E W) where
  abbrev Same : Buffer E → Action × Buffer E × W → Type 0
  Same b r = handed r.1 ≡ handed b

  handed-drop_too_large :
      (error : Error) (batch : List E) (b : Buffer E)
      → IsBatch batch b
      → IsFront batch b
      → gives_up (as_api_error error) (length batch) ≡ true
      → leb (length batch) 1 ≡ true
      → handed (drop_too_large env batch (cleared (note (rejected batch error) b))) ≡ handed b
  handed-drop_too_large error batch b t front h one =
      let n = drop_one batch b t one in
      handed_step b (drop_too_large env batch (cleared (note (rejected batch error) b))) batch
        (unfold drop_too_large in
          ground (
            arith,
            leaves_given_up batch error h,
            append-nil (removed b.effects ++ batch),
            append-nil (removed b.effects ++ batch ++ []),
          ))
        (unfold drop_too_large in ground (arith, ap (λ k. batch ++ drop k b.queue) n))

  handed-handle_too_large :
      (error : Error) (batch : List E) (b : Buffer E)
      → IsBatch batch b
      → IsFront batch b
      → is_too_large (status_of (as_api_error error)) ≡ true
      → handed (handle_too_large env batch (cleared (note (rejected batch error) b))) ≡ handed b
  unfolding handle_too_large
  handed-handle_too_large error batch b t front h =
      let table = gives_up_large (as_api_error error) (length batch) h in
      if-cases (λ (b' : Buffer E). handed b' ≡ handed b) (ltb 1 (length batch)) _ _
        (λ many.
          handed_step b _ []
            (append-nil (removed b.effects ++ leaves (rejected batch error))
              ∙ ap (λ xs. removed b.effects ++ xs) (leaves_kept batch error (table ∙ ground arith)))
            refl)
        (λ one. handed-drop_too_large error batch b t front (table ∙ ground arith) (ground arith))

  handed-drop_batch :
      (error : Error) (batch : List E) (b : Buffer E)
      → IsFront batch b
      → gives_up (as_api_error error) (length batch) ≡ true
      → handed (drop_batch (as_api_error error) batch (cleared (note (rejected batch error) b)))
        ≡ handed b
  handed-drop_batch error batch b front h =
      handed_step b
        (drop_batch (as_api_error error) batch (cleared (note (rejected batch error) b))) batch
        (unfold drop_batch in rw (append-nil, leaves_given_up batch error h))
        (unfold drop_batch in front)

  handed-retry :
      (error : Error) (batch : List E) (b : Buffer E) (w : W)
      → gives_up (as_api_error error) (length batch) ≡ false
      → handed (retry env (as_api_error error) (cleared (note (rejected batch error) b)) w).1
        ≡ handed b
  handed-retry error batch b w h =
      handed_step b (retry env (as_api_error error) (cleared (note (rejected batch error) b)) w).1
        []
        (unfold retry back_off in
          ground (arith, leaves_kept batch error h, append-nil (removed b.effects)))
        (unfold retry back_off in ground arith)

  pub handed-handle_failure :
      (error : Error) (batch : List E) (b : Buffer E) (w : W)
      → IsBatch batch b
      → IsFront batch b
      → Same b (handle_failure env error batch (note (rejected batch error) b) w)
  handed-handle_failure error batch b w t front =
      let e = as_api_error error in
      failure-cases env (Same b) error batch (note (rejected batch error) b) w
        (handed-handle_too_large error batch b t front)
        (λ small drops.
          handed-drop_batch error batch b front (gives_up_other e (length batch) small ∙ drops))
        (λ small keeps.
          handed-retry error batch b w (gives_up_other e (length batch) small ∙ keeps))

  -- From a valid state `flush` returns, whatever `send` does: its loop ends. The state is valid
  -- again, and every event that was taken in has left the queue by a delivery or by a row of the
  -- retry table that drops it, or is still queued: in the order of arrival, none twice.
  pub flush-conserves :
      (b : Buffer E) (w : W)
      → IsValid b
      → Returns (λ (b', w'). IsValid b' × (handed b' ≡ handed b)) (flush env b w)
  flush-conserves b w v =
      flush_invariant env (λ b'. handed b' ≡ handed b)
        (λ batch b' o t front e. handed-accept batch b' front ∙ e)
        (λ error batch b' w' o t front e. handed-handle_failure error batch b' w' t front ∙ e) b w v
        (unfold cancel_timer handed in refl)
