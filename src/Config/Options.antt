-- ===== src/Config/Options.antt =====
-- intempt/_config.py: the fields of `BatchOptions`.
use intempt_python.Prelude.{ℕ, ◌≤◌, Bool}

pub record BatchOptions : Type 0 where
  pub size : ℕ
  pub flush_ms : ℕ
  pub max_queue : ℕ
  pub flush_on_exit : Bool

-- What `BatchOptions.__post_init__` lets through.
pub record AreValid (o : BatchOptions) : Type 0 where
  pub size_pos : 1 ≤ o.size
  pub flush_pos : 1 ≤ o.flush_ms
  pub size-le-max : o.size ≤ o.max_queue
