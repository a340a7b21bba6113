-- ===== src/Rpc/ZkClient/StartTests.antt =====
-- A session that connects while Start waits, and again after it.
use gd_rpc.Base.{◌≡◌, ◌-◌, refl, some, true, arith}
use gd_rpc.Rpc.ZkClient.Session.{
  waiting, returned, session_event, connected_state, posted_dead, Session, new_client,
  global_watcher, Step, init, init_returns, sem_init, set_context, sem_wait, watch, Reach, here,
  next,
}
use gd_rpc.Rpc.ZkClient.Starting.{waiting-returns, connected-faults}

abbrev in_wait : Session
in_wait = record new_client { caller = waiting; context_set = true }

Reach-in_wait : Reach new_client in_wait
Reach-in_wait =
    next
      (next (next (next here (init _ refl refl)) (init_returns _ refl refl)) (sem_init _ refl refl))
      (set_context _ refl refl)

abbrev posted : Session
posted = record in_wait { sem = 1; connects = 1 }

Reach-posted : Reach new_client posted
unfolding global_watcher
Reach-posted = next Reach-in_wait (watch _ session_event connected_state refl refl)

waiting-returns_example :
    (posted.sem ≡ posted.connects)
    × Step posted (record posted { caller = returned; sem = posted.sem - 1 })
waiting-returns_example = waiting-returns Reach-posted refl refl (omega arith)

abbrev started : Session
started = record posted { caller = returned; sem = 0 }

Reach-started : Reach new_client started
Reach-started = next Reach-posted (sem_wait _ refl refl (omega arith))

connected-faults_example :
    (global_watcher session_event connected_state started).fault ≡ some posted_dead
connected-faults_example = connected-faults Reach-started refl refl
