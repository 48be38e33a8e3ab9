-- ===== src/Buffer/Retry.antt =====
-- intempt/_buffer.py: the retry policy, `_widen_if_earned` to `_backoff_ms`.
use intempt_python.Prelude.{
  ℕ, zero, suc, ◌+◌, ◌*◌, ◌/◌, ◌^◌, min, max, String, Bool, true, false, ◌&&◌, not, Option, none,
  some, List, [], ◌∷◌, length, drop, ltb, leb, ◌==◌, if◌then◌else◌,
}
use intempt_python.Errors.{ApiError, Error, retryable, as_api_error}
use intempt_python.Buffer.State.{
  Buffer, Env, delivered, slept, logged, dropping_batch, stopping, retrying, reducing,
  dropping_event, many_drops, Action, requeue, stop, note, full_width, size, max_retry_interval_ms,
  min_retry_interval_ms, max_consecutive_failures, drops_before_warning, successes_before_widening,
}

-- `api_error.retry_after_ms` where it is positive, which `if … and api_error.retry_after_ms` tests.
abbrev pub positive : Option ℕ → Option ℕ
positive none = none
positive (some zero) = none
positive (some (suc ms)) = some (suc ms)

abbrev pub advised_ms : Option ApiError → Option ℕ
advised_ms none = none
advised_ms (some e) = positive e.retry_after_ms

-- `advised or computed`
abbrev pub or_else : Option ℕ → ℕ → ℕ
or_else none computed = computed
or_else (some advised) computed = advised

-- Whether `_handle_failure` drops the batch: `api_error is not None and not api_error.retryable`.
abbrev pub drops_batch : Option ApiError → Bool
drops_batch none = false
drops_batch (some e) = not (retryable e)

abbrev pub status_of : Option ApiError → Option ℕ
status_of none = none
status_of (some e) = e.status

abbrev pub body_of : Option ApiError → Option String
body_of none = none
body_of (some e) = e.body

abbrev pub is_too_large : Option ℕ → Bool
is_too_large none = false
is_too_large (some status) = status == 413

module _ {E : Type 0} where
  unfoldable pub widen_if_earned : ℕ → Buffer E → Buffer E
  widen_if_earned sent b =
      let successes = b.consecutive_successes + 1 in
      if ltb b.batch_size (full_width b) && leb b.batch_size sent
      then if leb successes_before_widening successes
        then record b {
          batch_size = min (full_width b) (b.batch_size * 2);
          consecutive_successes = 0;
        }
        else record b { consecutive_successes = successes }
      else b

  unfoldable pub backoff_ms : Option ApiError → Buffer E → ℕ
  backoff_ms e b =
      let computed = b.options.flush_ms * 2 ^ b.consecutive_failures in
      min max_retry_interval_ms (max min_retry_interval_ms (or_else (advised_ms e) computed))

  -- The bookkeeping after `send` returned.
  unfoldable pub accept : List E → Buffer E → Buffer E
  accept batch b = widen_if_earned (length batch) (record b {
    queue = drop (length batch) b.queue;
    consecutive_failures = 0;
    consecutive_drops = 0;
    effects = delivered batch ∷ b.effects;
  })

  unfoldable pub drop_batch : Option ApiError → List E → Buffer E → Buffer E
  drop_batch e batch b = record b {
    queue = drop (length batch) b.queue;
    consecutive_failures = 0;
    effects = logged (dropping_batch (status_of e) (body_of e) (length batch)) ∷ b.effects;
  }

module _ {E W : Type 0} (env : Env E W) where
  abbrev name_of_first : List E → Option String
  name_of_first [] = none
  name_of_first (event ∷ rest) = env.name event

  -- A batch of one that is too large: `_handle_too_large` from its second statement on.
  unfoldable pub drop_too_large : List E → Buffer E → Buffer E
  drop_too_large batch b =
      let drops = b.consecutive_drops + 1 in
      let b' : Buffer E = record b {
        queue = drop 1 b.queue;
        consecutive_failures = 0;
        batch_size = full_width b;
        consecutive_drops = drops;
        effects = logged (dropping_event (name_of_first batch)) ∷ b.effects;
      } in
      if drops == drops_before_warning then note (logged (many_drops drops)) b' else b'

  -- `_handle_too_large`, which always returns 'requeue'.
  unfoldable pub handle_too_large : List E → Buffer E → Buffer E
  handle_too_large batch b =
      let width = max 1 (length batch / 2) in
      if ltb 1 (length batch)
      then note (logged (reducing width)) (record b { batch_size = width })
      else drop_too_large batch b

  -- The clock is read only where a deadline is set.
  unfoldable pub reads_past_deadline : ℕ → Buffer E → W → Bool × W
  reads_past_deadline wait b w = elim b.close_deadline [
    | none ↦ (false, w)
    | some deadline ↦ let (now, w') = env.monotonic w in (leb deadline (now + wait), w')
  ]

  -- The wait before a retry, unless it would outlive the close budget.
  unfoldable pub back_off : ℕ → Buffer E → W → Action × Buffer E × W
  back_off ms b w =
      let (late, w') = reads_past_deadline (ms * 1000) b w in
      if late then (stop, b, w') else (
        requeue,
        record b { effects = slept ms ∷ logged (retrying ms) ∷ b.effects },
        env.sleep (ms * 1000) w',
      )

  -- The breaker, and the wait: `_handle_failure` from `self._consecutive_failures += 1` on.
  unfoldable pub retry : Option ApiError → Buffer E → W → Action × Buffer E × W
  retry e b w =
      let failures = b.consecutive_failures + 1 in
      let b' : Buffer E = record b { consecutive_failures = failures } in
      if leb max_consecutive_failures failures
      then (stop, note (logged (stopping failures (size b'))) (record b' { stopped = true }), w)
      else back_off (backoff_ms e b') b' w

  unfoldable pub handle_failure : Error → List E → Buffer E → W → Action × Buffer E × W
  handle_failure error batch b w =
      let e = as_api_error error in
      let b' : Buffer E = record b { consecutive_successes = 0 } in
      if is_too_large (status_of e)
      then (requeue, handle_too_large batch b', w)
      else if drops_batch e
      then (requeue, drop_batch e batch b', w)
      else retry e b' w
