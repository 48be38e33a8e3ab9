-- ===== src/Buffer/Width.antt =====
-- The width: what a 413 takes away, and that successful sends give it back.
use intempt_python.Prelude.{
  ℕ, zero, suc, ◌+◌, ◌*◌, ◌/◌, ◌^◌, ◌≤◌, ◌<◌, min, true, List, ◌≡◌, ◌∙◌, refl, ap, arith, leb, ltb,
  length, drop, ◌∷◌, length-drop, Bool-cases, inl, inr,
}
use Prim.Native.Nat.add
use native.Mathlib.Nat.{zero-add, pow-suc, pow-zero, one-le-pow}
use intempt_python.Errors.{Error, as_api_error}
use intempt_python.Buffer.State.{
  Buffer, Env, requeue, logged, reducing, full_width, successes_before_widening,
}
use intempt_python.Buffer.Retry.{
  widen_if_earned, handle_too_large, drop_too_large, handle_failure, is_too_large, status_of,
}
use intempt_python.Buffer.Rounds.{IsBatch}
use intempt_python.Buffer.Valid.{IsValid}

module _ {E W : Type 0} (env : Env E W) where
  -- A 413 on several events halves the width, rounded down, ends the run of successes and logs the
  -- new width: nothing else of the buffer changes, and time does not pass. The width is then below
  -- the batch that was refused, and not 0. On one event it drops that event, counts it as dropped,
  -- resets the count of failures, puts the width back to full, and changes nothing else but the
  -- log. Either way the loop goes on.
  pub too_large_width :
      (error : Error) (batch : List E) (b : Buffer E) (w : W)
      → is_too_large (status_of (as_api_error error)) ≡ true
      → IsBatch batch b
      → let (action, b', w') = handle_failure env error batch b w in
        (action ≡ requeue)
        × (w' ≡ w)
        × (1 < length batch
            → (b' ≡ record b {
              batch_size = length batch / 2;
              consecutive_successes = 0;
              effects = logged (reducing (length batch / 2)) ∷ b.effects;
            })
              × (1 ≤ b'.batch_size)
              × (b'.batch_size < length batch)
              × (b'.batch_size < b.batch_size))
        × (length batch ≡ 1
            → (b' ≡ record b {
              queue = drop 1 b.queue;
              batch_size = full_width b;
              consecutive_failures = 0;
              consecutive_successes = 0;
              consecutive_drops = b.consecutive_drops + 1;
              effects = b'.effects;
            })
              × (suc (length b'.queue) ≡ length b.queue))
  unfolding handle_failure handle_too_large drop_too_large
  too_large_width error batch b w h t = rw h (ground (arith, length-drop 1 b.queue))

-- One doubling less is needed from the doubled width.
enough_left : (f w p : ℕ) → 1 ≤ p → f ≤ w * (p * 2) → f ≤ min f (w * 2) * p
enough_left f w p h k = elim (Bool-cases (leb f (w * 2))) [
  | inl more ↦ let e : min f (w * 2) ≡ f = ground arith in rw e (grind arith)
  | inr less ↦ let e : min f (w * 2) ≡ w * 2 = ground arith in rw e (omega arith)
]

module _ {E : Type 0} where
  -- `n` sends in a row that each filled the width of the moment.
  abbrev pub filled_sends : ℕ → Buffer E → Buffer E
  filled_sends zero b = b
  filled_sends (suc n) b = filled_sends n (widen_if_earned b.batch_size b)

  filled_sends-append :
      (m n : ℕ) (b : Buffer E) → filled_sends (m + n) b ≡ filled_sends n (filled_sends m b)
  filled_sends-append zero n b = rw zero-add
  filled_sends-append (suc m) n b =
      rw (add.suc m n) (filled_sends-append m n (widen_if_earned b.batch_size b))

  -- The width of `b'` is that of `b` doubled, up to the full width.
  record Doubled (b b' : Buffer E) : Type 0 where
    width : b'.batch_size ≡ min (full_width b) (b.batch_size * 2)
    full : full_width b' ≡ full_width b
    successes : b'.consecutive_successes ≡ 0

  -- The send that makes the run ten doubles the width.
  last_send :
      (b : Buffer E)
      → b.batch_size < full_width b
      → 1 + b.consecutive_successes ≡ successes_before_widening
      → Doubled b (widen_if_earned b.batch_size b)
  unfolding widen_if_earned
  last_send b h k = ground arith

  -- The earlier ones are counted.
  record Counted (b b' : Buffer E) : Type 0 where
    width : b'.batch_size ≡ b.batch_size
    full : full_width b' ≡ full_width b
    successes : b'.consecutive_successes ≡ suc b.consecutive_successes

  early_send :
      (b : Buffer E)
      → b.batch_size < full_width b
      → 1 + b.consecutive_successes < successes_before_widening
      → Counted b (widen_if_earned b.batch_size b)
  unfolding widen_if_earned
  early_send b h k = ground arith

  ten_sends :
      (n : ℕ) (b : Buffer E)
      → b.batch_size < full_width b
      → suc n + b.consecutive_successes ≡ successes_before_widening
      → Doubled b (filled_sends (suc n) b)
  ten_sends zero b h k = last_send b h k
  ten_sends (suc n) b h k =
      let c = early_send b h (omega arith) in
      let b' = widen_if_earned b.batch_size b in
      let d = ten_sends n b' (rw (c.width, c.full) h) (rw c.successes (omega arith)) in
      record {
        width = rw (d.width, c.width, c.full);
        full = d.full ∙ c.full;
        successes = d.successes;
      }

  -- At the full width nothing changes.
  full_sends : (n : ℕ) (b : Buffer E) → b.batch_size ≡ full_width b → filled_sends n b ≡ b
  full_sends zero b h = refl
  full_sends (suc n) b h =
      let e : widen_if_earned b.batch_size b ≡ b = unfold widen_if_earned in ground arith in
      rw e (full_sends n b h)

  recovers :
      (k n : ℕ) (b : Buffer E)
      → b.batch_size ≤ full_width b
      → b.consecutive_successes ≡ 0
      → full_width b ≤ b.batch_size * 2 ^ k
      → (filled_sends (k * successes_before_widening + n) b).batch_size ≡ full_width b
  recovers zero n b v s h =
      let e : b.batch_size ≡ full_width b =
        omega (arith, pow-zero 2, ap (λ p. b.batch_size * p) (pow-zero 2)) in
      rw (full_sends (0 * successes_before_widening + n) b e) e
  recovers (suc k) n b v s h = elim (Bool-cases (ltb b.batch_size (full_width b))) [
    | inl below ↦
        let d = ten_sends 9 b (ground arith) (rw s refl) in
        let b' = filled_sends 10 b in
        let rest = k * successes_before_widening + n in
        let split : suc k * successes_before_widening + n ≡ 10 + rest = omega arith in
        let enough : full_width b ≤ min (full_width b) (b.batch_size * 2) * 2 ^ k =
          enough_left (full_width b) b.batch_size (2 ^ k) (one-le-pow k 2 (omega arith))
            (rw (pow-suc 2 k) at h) in
        rw (split, filled_sends-append 10 rest b)
          (recovers k n b' (rw (d.width, d.full) (omega arith)) d.successes
              (rw (d.width, d.full) enough)
            ∙ d.full)
    | inr at_full ↦
        let e : b.batch_size ≡ full_width b = ground arith in
        rw (full_sends (suc k * successes_before_widening + n) b e) e
  ]

  -- However far the width was reduced, it recovers: ten sends in a row that fill the width double
  -- it, so from a valid state with no success counted it is full again after `10 * k` of them, for
  -- any `k` with `full ≤ width * 2 ^ k`, and stays so.
  pub width_recovers :
      (k n : ℕ) (b : Buffer E)
      → IsValid b
      → b.consecutive_successes ≡ 0
      → full_width b ≤ b.batch_size * 2 ^ k
      → (filled_sends (k * successes_before_widening + n) b).batch_size ≡ full_width b
  width_recovers k n b v s h = recovers k n b v.width-le-full s h
