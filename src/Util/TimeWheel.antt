-- ===== src/Util/TimeWheel.antt =====
-- Task and TimeWheel of gdrpc/util/timingWheel.hpp and timingWheel.cpp. A function object is a
-- number, and running it is an entry of the returned list; the functions do not call the wheel they
-- are run by. A task has an identity, `id`, for the `weak_ptr` that `delTask` is given. The
-- constructor that `addTask` calls leaves `times_` uninitialised: its value is an argument.
-- Delays are below 2 ^ 31 ms, so that they fit the `int` they are narrowed to.
mod Slots
mod Rounds
pub mod Due
pub mod Ticks
pub mod Adding
pub mod Cancelling
mod Tests
use gd_rpc.Base.{
  ℕ, zero, suc, ◌+◌, ◌-◌, ◌*◌, ◌/◌, ◌%◌, List, [], ◌∷◌, ◌++◌, Bool, true, false, ◌||◌, Option, none,
  some, ltb, ◌==◌, if◌then◌else◌, length, set, get_elem?, replicate, map,
}
use gd_rpc.Base.Int.{ℤ, pos, negsuc, ◌-ℤ◌, ltb_ℤ}

pub record Task : Type 0 where
  pub id : ℕ
  pub rotations : ℕ
  pub timeout : ℕ
  pub times : ℤ
  pub fun : Option ℕ

pub record TimeWheel : Type 0 where
  pub slot_len : ℕ
  pub current : ℕ
  pub start_time : ℤ
  pub slots : List (List Task)
  pub next_id : ℕ

pub new_wheel : ℕ → ℤ → TimeWheel
new_wheel len now = record {
  slot_len = len;
  current = 0;
  start_time = now;
  slots = replicate len [];
  next_id = 0;
}

abbrev pub slot_at : List (List Task) → ℕ → List Task
slot_at ss i = elim (get_elem? ss i) [ none ↦ [] | some ts ↦ ts ]

-- `slots_[i].push_back(t)`
pub push_back : ℕ → Task → List (List Task) → List (List Task)
push_back i t ss = set ss i (slot_at ss i ++ (t ∷ []))

-- The slot that lies `timeout` steps ahead.
abbrev pub slot_of : TimeWheel → ℕ → ℕ
slot_of w timeout = (w.current + timeout % w.slot_len) % w.slot_len

-- What `addTask` did: ran the function at once, or filed the task under an identity.
pub data Added : Type 0 where
  ran : ℕ → Added
  filed : ℕ → Added

abbrev pub new_task : ℕ → ℕ → ℕ → ℤ → ℕ → Task
new_task id rotations timeout garbage f = record {
  id = id;
  rotations = rotations;
  timeout = timeout;
  times = garbage;
  fun = some f;
}

unfoldable pub add_task : ℤ → ℕ → ℤ → TimeWheel → Added × TimeWheel
unfolding push_back
add_task (negsuc _) f garbage w = (ran f, w)
add_task (pos timeout) f garbage w =
    let task = new_task w.next_id (timeout / w.slot_len) timeout garbage f in
    (
      filed w.next_id,
      record w { slots = push_back (slot_of w timeout) task w.slots; next_id = w.next_id + 1 },
    )

-- `fun = nullptr` in the task with that identity; a task that is gone is not found.
unfoldable pub clear : ℕ → Task → Task
clear id t = if t.id == id then record t { fun = none } else t

unfoldable pub del_task : ℕ → TimeWheel → TimeWheel
unfolding clear
del_task id w = record w { slots = map (map (clear id)) w.slots }

-- `if (fun) fun();`
abbrev pub exec : Task → List ℕ
exec t = elim t.fun [ none ↦ [] | some f ↦ f ∷ [] ]

-- `times > 1 || times == -1`
abbrev pub repeats : Task → Bool
repeats t = ltb_ℤ (pos 1) t.times || elim t.times [ pos _ ↦ false | negsuc n ↦ n == 0 ]

-- The task with its round taken off and its rotations set anew.
pub renew : ℕ → Task → Task
unfolding ◌-ℤ◌
renew len t = record t {
  times = if ltb_ℤ (pos 1) t.times then t.times -ℤ pos 1 else t.times;
  rotations = t.timeout / len;
}

abbrev pub turn : Task → Task
turn t = record t { rotations = t.rotations - 1 }

abbrev pub ran_first : List ℕ → Option (List ℕ × TimeWheel) → Option (List ℕ × TimeWheel)
ran_first fs none = none
ran_first fs (some (gs, w)) = some (fs ++ gs, w)

-- The loop of `tick` over the current slot: `kept` stands before the iterator, `todo` from it on. A
-- task may be pushed to the very list that is walked. None: the rounds given did not suffice.
unfoldable pub tick_slot : ℕ → TimeWheel → List Task → List Task → Option (List ℕ × TimeWheel)
unfolding push_back renew
tick_slot zero w kept todo = none
tick_slot (suc n) w kept [] = some ([], record w { slots = set w.slots w.current kept })
tick_slot (suc n) w kept (t ∷ todo) =
    let waits = tick_slot n w (kept ++ (turn t ∷ [])) todo in
    let gone = tick_slot n w kept todo in
    let again = renew w.slot_len t in
    let here = tick_slot n w kept (todo ++ (again ∷ [])) in
    let there =
      tick_slot n (record w { slots = push_back (slot_of w t.timeout) again w.slots }) kept todo in
    if ltb 0 t.rotations
    then waits
    else if repeats t
    then (if slot_of w t.timeout == w.current
        then ran_first (exec t) here
        else ran_first (exec t) there)
    else ran_first (exec t) gone

pub advance : TimeWheel → TimeWheel
advance w = record w { current = (w.current + 1) % w.slot_len }

unfoldable pub tick : ℕ → TimeWheel → Option (List ℕ × TimeWheel)
unfolding advance tick_slot
tick rounds w = elim (tick_slot rounds w [] (slot_at w.slots w.current)) [
  | none ↦ none
  | some (fs, w') ↦ some (fs, advance w')
]

-- `for (auto i = 0; i < cnt; ++i) tick();`
unfoldable pub ticks : ℕ → ℕ → TimeWheel → Option (List ℕ × TimeWheel)
ticks rounds zero w = some ([], w)
ticks rounds (suc n) w = elim (tick rounds w) [
  | none ↦ none
  | some (fs, w') ↦ ran_first fs (ticks rounds n w')
]

abbrev pub elapsed : ℤ → ℤ → ℕ
elapsed now start = elim (now -ℤ start) [ pos n ↦ n | negsuc _ ↦ 0 ]

pub take_all_timeout : ℕ → ℤ → TimeWheel → Option (List ℕ × TimeWheel)
unfolding ◌-ℤ◌
take_all_timeout rounds now w = elim (ticks rounds (elapsed now w.start_time) w) [
  | none ↦ none
  | some (fs, w') ↦ some (fs, record w' { start_time = now })
]
