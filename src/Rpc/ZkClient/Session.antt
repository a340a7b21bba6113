-- ===== src/Rpc/ZkClient/Session.antt =====
-- ZkClient::Start, the destructor and global_watcher of gdrpc/rpc/zkClient.cpp, as interleaved steps of
-- the thread that calls Start and of the watcher's thread, which the ZooKeeper library starts inside
-- `zookeeper_init`. The library calls the watcher at any time from there to `zookeeper_close`, and
-- again whenever it has connected anew. `&sem` is the context; `sem` is a local of Start.
use gd_rpc.Base.{ℕ, suc, ◌≡◌, ◌<◌, ◌-◌, Bool, true, false, Option, none, some, if◌then◌else◌}

-- Where the caller is: before Start, in `zookeeper_init`, after it, after `sem_init`, in `sem_wait`,
-- after Start, after the destructor, or after `exit`.
pub data CallerAt : Type 0 where
  calling initializing has_handle has_sem waiting returned closed exited : CallerAt

pub data WatchType : Type 0 where
  session_event other_event : WatchType

pub data WatchState : Type 0 where
  connected_state other_state : WatchState

-- `sem_post` of a null pointer, and of a local of a function that has returned.
pub data Fault : Type 0 where
  posted_null posted_dead : Fault

-- `connects` counts the session's events of being connected.
pub record Session : Type 0 where
  pub caller : CallerAt
  pub context_set : Bool
  pub sem : ℕ
  pub connects : ℕ
  pub fault : Option Fault

abbrev pub new_client : Session
new_client = record { caller = calling; context_set = false; sem = 0; connects = 0; fault = none }

-- The library's threads run.
abbrev pub is_watched : CallerAt → Bool
is_watched calling = false
is_watched closed = false
is_watched exited = false
is_watched _ = true

abbrev pub is_in_start : CallerAt → Bool
is_in_start returned = false
is_in_start closed = false
is_in_start _ = true

abbrev pub is_connected : WatchType → WatchState → Bool
is_connected session_event connected_state = true
is_connected _ _ = false

abbrev pub sem_post : Session → Session
sem_post s =
    if s.context_set
    then (if is_in_start s.caller
        then record s { sem = suc s.sem }
        else record s { fault = some posted_dead })
    else record s { fault = some posted_null }

unfoldable pub global_watcher : WatchType → WatchState → Session → Session
global_watcher type state s =
    if is_connected type state then sem_post (record s { connects = suc s.connects }) else s

-- There is no step after a fault.
pub data Step : Session → Session → Type 0 where
  init :
      (s : Session)
      → s.fault ≡ none
      → s.caller ≡ calling
      → Step s (record s { caller = initializing })
  init_fails :
      (s : Session) → s.fault ≡ none → s.caller ≡ calling → Step s (record s { caller = exited })
  init_returns :
      (s : Session)
      → s.fault ≡ none
      → s.caller ≡ initializing
      → Step s (record s { caller = has_handle })
  sem_init :
      (s : Session)
      → s.fault ≡ none
      → s.caller ≡ has_handle
      → Step s (record s { caller = has_sem; sem = 0 })
  set_context :
      (s : Session)
      → s.fault ≡ none
      → s.caller ≡ has_sem
      → Step s (record s { caller = waiting; context_set = true })
  sem_wait :
      (s : Session)
      → s.fault ≡ none
      → s.caller ≡ waiting
      → 0 < s.sem
      → Step s (record s { caller = returned; sem = s.sem - 1 })
  watch :
      (s : Session) (type : WatchType) (state : WatchState)
      → s.fault ≡ none
      → is_watched s.caller ≡ true
      → Step s (global_watcher type state s)
  close :
      (s : Session) → s.fault ≡ none → s.caller ≡ returned → Step s (record s { caller = closed })

pub data Reach (s : Session) : Session → Type 0 where
  here : Reach s s
  next : {t u : Session} → Reach s t → Step t u → Reach s u
