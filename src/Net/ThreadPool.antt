-- ===== src/Net/ThreadPool.antt =====
-- EventLoopThreadPool of gdrpc/net/eventLoop_threadPool.hpp and eventLoop_threadPool.cpp. A loop is the
-- pointer to it. The threads are not modelled: `started` is the loops that `startLoop` returns, one
-- for each of `numThreads_`.
pub mod RoundRobin
mod Tests
use gd_rpc.Base.{
  ℕ, zero, suc, ◌+◌, List, [], ◌∷◌, ◌++◌, Bool, true, false, Option, none, some, leb, ◌==◌, ◌&&◌,
  if◌then◌else◌, length, get_elem?,
}

pub record ThreadPool : Type 0 where
  pub base_loop : ℕ
  pub started : Bool
  pub num_threads : ℕ
  pub next : ℕ
  pub loops : List ℕ

unfoldable pub new_pool : ℕ → ThreadPool
new_pool base = record { base_loop = base; started = false; num_threads = 0; next = 0; loops = [] }

unfoldable pub set_thread_num : ℕ → ThreadPool → ThreadPool
set_thread_num n p = record p { num_threads = n }

-- The loop on which the callback runs here, if any, and the pool. `start_loop i` is the loop of the
-- `i`-th thread.
abbrev pub start_threads : (ℕ → ℕ) → ℕ → ℕ → List ℕ
start_threads start_loop i zero = []
start_threads start_loop i (suc n) = start_loop i ∷ start_threads start_loop (suc i) n

unfoldable pub start : Bool → (ℕ → ℕ) → ThreadPool → Option ℕ × ThreadPool
start callback_set start_loop p = (
  if p.num_threads == 0 && callback_set then some p.base_loop else none,
  record p { started = true; loops = p.loops ++ start_threads start_loop 0 p.num_threads },
)

-- `loops_[next_]` out of range is `none`.
abbrev pub advance : ℕ → ℕ → ℕ
advance next n = if leb n (suc next) then 0 else suc next

abbrev pub next_of : List ℕ → ThreadPool → Option ℕ × ThreadPool
next_of [] p = (some p.base_loop, p)
next_of (l ∷ ls) p =
    (get_elem? (l ∷ ls) p.next, record p { next = advance p.next (length (l ∷ ls)) })

unfoldable pub get_next_loop : ThreadPool → Option ℕ × ThreadPool
get_next_loop p = next_of p.loops p

abbrev pub all_of : List ℕ → ℕ → List ℕ
all_of [] base = base ∷ []
all_of (l ∷ ls) base = l ∷ ls

unfoldable pub get_all_loops : ThreadPool → List ℕ
get_all_loops p = all_of p.loops p.base_loop

-- The loops that `n` calls return.
unfoldable pub next_loops : ℕ → ThreadPool → List (Option ℕ) × ThreadPool
next_loops zero p = ([], p)
next_loops (suc n) p =
    let (l, p') = get_next_loop p in let (ls, p'') = next_loops n p' in (l ∷ ls, p'')
