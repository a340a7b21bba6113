-- ===== src/Net/ThreadPool/Tests.antt =====
-- A pool of three threads.
use gd_rpc.Base.{◌≡◌, ◌+◌, refl, [], ◌∷◌, some, true, arith}
use gd_rpc.Net.ThreadPool.{ThreadPool, new_pool, set_thread_num, start, get_all_loops, next_loops}
use gd_rpc.Net.ThreadPool.RoundRobin.{IsValid, next_loops_lem}

abbrev pool : ThreadPool
pool = record {
  base_loop = 9;
  started = true;
  num_threads = 3;
  next = 0;
  loops = 10 ∷ 11 ∷ 12 ∷ [];
}

start-pool : (start true (λ i. 10 + i) (set_thread_num 3 (new_pool 9))).1 ≡ pool
unfolding start set_thread_num new_pool
start-pool = refl

pool-IsValid : IsValid pool
unfolding get_all_loops
pool-IsValid = omega arith

next_loops_lem_example :
    let (ls, p') = next_loops 5 pool in
    (ls ≡ some 10 ∷ some 11 ∷ some 12 ∷ some 10 ∷ some 11 ∷ [])
    × IsValid p'
    × (get_all_loops p' ≡ 10 ∷ 11 ∷ 12 ∷ [])
unfolding get_all_loops
next_loops_lem_example = next_loops_lem 5 pool pool-IsValid
