-- ===== src/Util/AsyncLog/Stopping.antt =====
-- The end of AsyncLogging of gdrpc/util/async_log.hpp and async_log.cpp: its owner, who logs and then
-- destroys it, and the thread of `threadFunc`, by interleaved steps, from the end of the
-- constructor on. The lines are counted; what the buffers do with them is in AsyncLog.antt. A `wait_for`
-- also ends by itself, so that `notify_one` needs no step of its own.
use gd_rpc.Base.{ℕ, suc, ◌≡◌, Bool, true, false}

-- Where the owner is: before the end, in `stop` and in the destructor's end.
pub data OwnerAt : Type 0 where
  logging clearing joining joined terminated : OwnerAt

-- Where `threadFunc` is: before `running_ = true`, at the test of `while`, before the lock, in
-- `wait_for`, at the swap of the buffers, and after it.
pub data WriterAt : Type 0 where
  latched testing locking waiting swapping writing ended : WriterAt

-- `logged` counts the lines that were logged, `taken` those of them that the writer has swapped out.
-- `cleared_at` and `taken_then` are where the writer was, and what it had, when `running_` was cleared.
pub record Lifetime : Type 0 where
  pub owner : OwnerAt
  pub writer : WriterAt
  pub running : Bool
  pub logged : ℕ
  pub taken : ℕ
  pub cleared_at : WriterAt
  pub taken_then : ℕ

abbrev pub constructed : Lifetime
constructed = record {
  owner = logging;
  writer = latched;
  running = false;
  logged = 0;
  taken = 0;
  cleared_at = latched;
  taken_then = 0;
}

pub data Step : Lifetime → Lifetime → Type 0 where
  -- `threadFunc`
  start :
      (s : Lifetime) → s.writer ≡ latched → Step s (record s { writer = testing; running = true })
  enter :
      (s : Lifetime)
      → s.writer ≡ testing
      → s.running ≡ true
      → Step s (record s { writer = locking })
  leave :
      (s : Lifetime) → s.writer ≡ testing → s.running ≡ false → Step s (record s { writer = ended })
  wait : (s : Lifetime) → s.writer ≡ locking → Step s (record s { writer = waiting })
  skip_wait : (s : Lifetime) → s.writer ≡ locking → Step s (record s { writer = swapping })
  wake : (s : Lifetime) → s.writer ≡ waiting → Step s (record s { writer = swapping })
  swap :
      (s : Lifetime)
      → s.writer ≡ swapping
      → Step s (record s { writer = writing; taken = s.logged })
  write : (s : Lifetime) → s.writer ≡ writing → Step s (record s { writer = testing })
  -- The owner.
  append : (s : Lifetime) → s.owner ≡ logging → Step s (record s { logged = suc s.logged })
  -- The destructor, which calls `stop` if `running_` is set; if not, the thread is destroyed, which ends
  -- the program as it was not joined.
  destroy :
      (s : Lifetime) → s.owner ≡ logging → s.running ≡ true → Step s (record s { owner = clearing })
  abandon :
      (s : Lifetime)
      → s.owner ≡ logging
      → s.running ≡ false
      → Step s (record s { owner = terminated })
  clear :
      (s : Lifetime)
      → s.owner ≡ clearing
      → Step s (record s {
        owner = joining;
        running = false;
        cleared_at = s.writer;
        taken_then = s.taken;
      })
  join :
      (s : Lifetime) → s.owner ≡ joining → s.writer ≡ ended → Step s (record s { owner = joined })

pub data Reach (s : Lifetime) : Lifetime → Type 0 where
  here : Reach s s
  next : {t u : Lifetime} → Reach s t → Step t u → Reach s u
