-- ===== src/Net/Poller.antt =====
-- EPollPoller of gdrpc/net/epoll_poller.hpp and epoll_poller.cpp. The kernel is not modelled here:
-- a call of `epoll_ctl` is an entry of the list that each function returns. A channel pointer is a
-- number, and `channels` maps a descriptor to it.
pub mod Kernel
mod Tests
use gd_rpc.Base.{
  ℕ, zero, suc, ◌+◌, ◌*◌, List, [], ◌∷◌, ◌++◌, Bool, true, false, Option, none, some, ◌==◌, ltb,
  if◌then◌else◌, length, lookup, insert, erase, replicate,
}
use gd_rpc.Net.Channel.{
  Channel, ChannelState, new, added, deleted, Interest, is_none_event, Change, set_events, Revents,
}

pub data Ctl : Type 0 where
  ctl_add ctl_mod : ℕ → Interest → Ctl
  ctl_del : ℕ → Ctl

pub record Poller : Type 0 where
  pub channels : List (ℕ × ℕ)
  pub event_slots : ℕ

abbrev pub init_event_slots : ℕ
init_event_slots = 16

unfoldable pub new_poller : Poller
new_poller = record { channels = []; event_slots = init_event_slots }

-- What a call of the poller leaves: the `epoll_ctl` calls, the channel and the poller.
abbrev pub Outcome : Type 0
Outcome = List Ctl × Channel × Poller

abbrev pub update_by_state : ChannelState → ℕ → Channel → Poller → Outcome
update_by_state new ptr c p = (
  ctl_add c.fd c.events ∷ [],
  record c { state = added },
  record p { channels = insert c.fd ptr p.channels },
)
update_by_state deleted ptr c p = (ctl_add c.fd c.events ∷ [], record c { state = added }, p)
update_by_state added ptr c p =
    if is_none_event c.events
    then (ctl_del c.fd ∷ [], record c { state = deleted }, p)
    else (ctl_mod c.fd c.events ∷ [], c, p)

unfoldable pub update_channel : ℕ → Channel → Poller → Outcome
unfolding is_none_event
update_channel ptr c p = update_by_state c.state ptr c p

unfoldable pub remove_channel : Channel → Poller → Outcome
remove_channel c p = (
  elim c.state [ added ↦ ctl_del c.fd ∷ [] | _ ↦ [] ],
  c,
  record p { channels = erase c.fd p.channels },
)

pub has_channel : ℕ → Channel → Poller → Bool
has_channel ptr c p = elim (lookup c.fd p.channels) [ none ↦ false | some q ↦ q == ptr ]

-- A change of `events_` with the `update()` that follows it.
unfoldable pub change : Change → ℕ → Channel → Poller → Outcome
unfolding set_events update_channel
change k ptr c p = update_channel ptr (record c { events = set_events k c.events }) p

-- The result of `epoll_wait`: events with the channel pointers that they carry, or an errno.
pub data Waited : Type 0 where
  ready : List (ℕ × Revents) → Waited
  interrupted failed : Waited

-- `poll` appends to `activeChannels`, and doubles its event list when that was filled.
unfoldable pub poll : Waited → List (ℕ × Revents) → Poller → List (ℕ × Revents) × Poller
poll (ready []) active p = (active, p)
poll (ready (e ∷ es)) active p = (
  active ++ (e ∷ es),
  if length (e ∷ es) == p.event_slots then record p { event_slots = p.event_slots * 2 } else p,
)
poll interrupted active p = (active, p)
poll failed active p = (active, p)
