-- ===== src/Net/LoopTurn.antt =====
-- A whole turn of EventLoop::loop of gdrpc/net/eventLoop.cpp: the poller, the timing wheel, the active
-- channels and the pending functors, over Net/Poller, Util/TimeWheel, Net/Channel and Net/EventLoop. A
-- scheduled function and a functor are numbers, a channel is its pointer. `body` and `on_call` give
-- what they queue when they run, all in the thread of the loop; what they do to channels and to the
-- wheel is left out: `watched` gives each channel as it is when its event is handled.
pub mod Order
pub mod Timers
pub mod RunAfter
mod Tests
use gd_rpc.Base.{ℕ, List, [], ◌∷◌, ◌++◌, Bool, Option, none, some, ◌==◌, if◌then◌else◌, map}
use gd_rpc.Base.Int.{ℤ}
use gd_rpc.Util.TimeWheel.{TimeWheel, take_all_timeout, Added, add_task, del_task}
use gd_rpc.Net.Channel.{Channel, Callbacks, Callback, Revents, handle_event}
use gd_rpc.Net.Poller.{Poller, Waited, poll}
use gd_rpc.Net.EventLoop.{EventLoop, handle_read, queue_all, call_all, do_pending_functors}

-- A channel with what its owner set, and whether `tie_.lock()` finds the owner.
pub record Watched : Type 0 where
  pub channel : Channel
  pub callbacks : Callbacks
  pub alive : Bool

pub record LoopState : Type 0 where
  pub loop : EventLoop
  pub wheel : TimeWheel
  pub poller : Poller
  pub wakeup_channel : ℕ

-- What runs in a turn.
pub data Ran : Type 0 where
  scheduled functor : ℕ → Ran
  called : ℕ → Callback → Ran

module _ (on_call : ℕ → Callback → List ℕ) (watched : ℕ → Watched) (wakeup : ℕ) where
  -- The callback of the wakeup channel reads the descriptor; the others queue.
  abbrev pub run_callback : ℕ → Callback → EventLoop → EventLoop
  run_callback ptr c l = if ptr == wakeup then handle_read l else queue_all (on_call ptr c) l

  abbrev pub run_callbacks : ℕ → List Callback → EventLoop → List Ran × EventLoop
  run_callbacks ptr [] l = ([], l)
  run_callbacks ptr (c ∷ cs) l =
      let (ran, l') = run_callbacks ptr cs (run_callback ptr c l) in (called ptr c ∷ ran, l')

  -- `channel->handleEvent(epoll_reture_time_)`
  abbrev pub callbacks_of : ℕ → Revents → List Callback
  callbacks_of ptr r =
      handle_event (watched ptr).alive (watched ptr).callbacks r (watched ptr).channel

  abbrev pub handle_active : List (ℕ × Revents) → EventLoop → List Ran × EventLoop
  handle_active [] l = ([], l)
  handle_active ((ptr, r) ∷ active) l =
      let (ran, l') = run_callbacks ptr (callbacks_of ptr r) l in
      let (more, l'') = handle_active active l' in (ran ++ more, l'')

module _ (body : ℕ → List ℕ) (on_call : ℕ → Callback → List ℕ) (watched : ℕ → Watched) where
  -- After the scheduled functions `fs`, which have left the wheel so.
  abbrev pub after_scheduled :
      List (ℕ × Revents) → Poller → List ℕ → TimeWheel → LoopState → List Ran × LoopState
  after_scheduled active p fs w s =
      let l1 = call_all body fs s.loop in
      let (calls, l2) = handle_active on_call watched s.wakeup_channel active l1 in
      let (ran, l3) = do_pending_functors body l2 in
      (
        map scheduled fs ++ (calls ++ map functor ran),
        record s { loop = l3; wheel = w; poller = p },
      )

  -- One round of the `while`, when `epoll_wait` gave `waited` and the time was `now`. None: the rounds
  -- given to the wheel did not suffice.
  unfoldable pub loop_turn : ℕ → Waited → ℤ → LoopState → Option (List Ran × LoopState)
  unfolding poll handle_event
  loop_turn rounds waited now s =
      let (active, p) = poll waited [] s.poller in
      elim (take_all_timeout rounds now s.wheel) [
        | none ↦ none
        | some (fs, w) ↦ some (after_scheduled active p fs w s)
      ]

-- What a turn finds: the events, the time and the channels.
pub record Input : Type 0 where
  pub waited : Waited
  pub now : ℤ
  pub watched : ℕ → Watched

abbrev pub ran_before : List Ran → Option (List Ran × LoopState) → Option (List Ran × LoopState)
ran_before rs none = none
ran_before rs (some (more, s)) = some (rs ++ more, s)

abbrev pub and_turns :
    Option (List Ran × LoopState)
    → (LoopState → Option (List Ran × LoopState))
    → Option (List Ran × LoopState)
and_turns none k = none
and_turns (some (rs, s)) k = ran_before rs (k s)

-- The turns of a loop that nobody asks to quit.
unfoldable pub loop_turns :
    (ℕ → List ℕ)
    → (ℕ → Callback → List ℕ)
    → ℕ
    → List Input
    → LoopState
    → Option (List Ran × LoopState)
unfolding loop_turn
loop_turns body on_call rounds [] s = some ([], s)
loop_turns body on_call rounds (i ∷ is) s =
    and_turns (loop_turn body on_call i.watched rounds i.waited i.now s)
      (loop_turns body on_call rounds is)

abbrev pub run_at_once : (ℕ → List ℕ) → Added → EventLoop → EventLoop
run_at_once body (Added.ran f) l = queue_all (body f) l
run_at_once body (Added.filed id) l = l

-- `EventLoop::runAfter`; a function with a negative delay runs at once.
unfoldable pub run_after : (ℕ → List ℕ) → ℤ → ℕ → ℤ → LoopState → Added × LoopState
run_after body after_ms f garbage s =
    let (added, w) = add_task after_ms f garbage s.wheel in
    (added, record s { loop = run_at_once body added s.loop; wheel = w })

-- `remove` of the task that `runAfter` returned, through its `weak_ptr`.
unfoldable pub cancel : ℕ → LoopState → LoopState
cancel id s = record s { wheel = del_task id s.wheel }
