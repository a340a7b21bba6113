-- ===== src/Net/Channel.antt =====
-- Channel of gdrpc/net/channel.hpp and channel.cpp. `events_` is only ever changed by the two masks
-- kReadEvent and kWriteEvent, so it is kept as two flags. The call of the poller that `update()`
-- makes is the caller's: Poller.antt.
pub mod Laws
mod Tests
use gd_rpc.Base.{ℕ, List, [], ◌∷◌, ◌++◌, Bool, true, false, ◌&&◌, ◌||◌, not, if◌then◌else◌, ◌+◌}

-- `enum class ChannelState` of epoll_poller.hpp
pub data ChannelState : Type 0 where
  new added deleted : ChannelState

-- What `events_` asks of epoll.
pub record Interest : Type 0 where
  pub reads : Bool
  pub writes : Bool

pub record Channel : Type 0 where
  pub fd : ℕ
  pub events : Interest
  pub state : ChannelState
  pub tied : Bool

unfoldable pub new_channel : ℕ → Channel
new_channel fd = record {
  fd = fd;
  events = record { reads = false; writes = false };
  state = new;
  tied = false;
}

-- The changes of `events_`, each followed by `update()`.
pub data Change : Type 0 where
  enable_reading disable_reading enable_writing disable_writing disable_all : Change

unfoldable pub set_events : Change → Interest → Interest
set_events enable_reading e = record e { reads = true }
set_events disable_reading e = record e { reads = false }
set_events enable_writing e = record e { writes = true }
set_events disable_writing e = record e { writes = false }
set_events disable_all e = record { reads = false; writes = false }

unfoldable pub is_none_event : Interest → Bool
is_none_event e = not e.reads && not e.writes

-- EPOLLHUP, EPOLLERR, EPOLLIN, EPOLLPRI and EPOLLOUT of `return_events_`.
pub record Revents : Type 0 where
  pub hup : Bool
  pub err : Bool
  pub inp : Bool
  pub pri : Bool
  pub out : Bool

pub data Callback : Type 0 where
  close_callback error_callback read_callback write_callback : Callback

-- Which of the four callbacks are set.
pub record Callbacks : Type 0 where
  pub close_set : Bool
  pub error_set : Bool
  pub read_set : Bool
  pub write_set : Bool

abbrev pub only_if : Bool → Callback → List Callback
only_if b c = if b then c ∷ [] else []

-- The callbacks that run, in order.
unfoldable pub handle_event_with_guard : Callbacks → Revents → List Callback
handle_event_with_guard cbs r =
    only_if ((r.hup && not r.inp) && cbs.close_set) close_callback
    ++ (only_if (r.err && cbs.error_set) error_callback
        ++ (only_if ((r.inp || r.pri) && cbs.read_set) read_callback
            ++ only_if (r.out && cbs.write_set) write_callback))

-- `alive`: whether `tie_.lock()` finds the owner.
unfoldable pub handle_event : Bool → Callbacks → Revents → Channel → List Callback
unfolding handle_event_with_guard
handle_event alive cbs r c =
    if c.tied
    then (if alive then handle_event_with_guard cbs r else [])
    else handle_event_with_guard cbs r

pub tie : Channel → Channel
tie c = record c { tied = true }
