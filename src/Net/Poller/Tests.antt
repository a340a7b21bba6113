-- ===== src/Net/Poller/Tests.antt =====
-- A kernel that keeps the laws of Epoll, and a channel's life on it.
use gd_rpc.Base.{◌≢◌, ℕ, ◌≡◌, refl, List, [], ◌∷◌, ◌++◌, true, false, Option, none, some}
use gd_rpc.Net.Channel.{
  new_channel, Change, enable_reading, enable_writing, disable_writing, disable_all, set_events,
  is_none_event,
}
use gd_rpc.Net.Poller.{
  Ctl, ctl_add, ctl_mod, ctl_del, new_poller, change, remove_channel, update_channel,
}
use gd_rpc.Net.Poller.Kernel.{
  Kernel, Epoll, update, epoll_ctls, changes, changes-remove_channel, IsSynced, change-IsSynced,
}

abbrev strict_ctl : Ctl → Kernel → Option Kernel
strict_ctl (ctl_add fd e) k = elim (k fd) [ none ↦ some (update k fd (some e)) | some _ ↦ none ]
strict_ctl (ctl_mod fd e) k = elim (k fd) [ none ↦ none | some _ ↦ some (update k fd (some e)) ]
strict_ctl (ctl_del fd) k = elim (k fd) [ none ↦ none | some _ ↦ some (update k fd none) ]

abbrev strict : Epoll
strict = record {
  epoll_ctl = strict_ctl;
  add_lem = λ fd e k h. rw (h, strict_ctl);
  mod_lem = λ fd e old k h. rw (h, strict_ctl);
  del_lem = λ fd old k h. rw (h, strict_ctl);
}

abbrev nothing : Kernel
nothing j = none

abbrev life : List Change
life = enable_reading ∷ enable_writing ∷ disable_writing ∷ disable_all ∷ enable_reading ∷ []

change-IsSynced_sample :
    let (calls, c', _) = change enable_reading 9 (new_channel 4) new_poller in
    (k' : Kernel) × (epoll_ctls strict calls nothing ≡ some k')
    × IsSynced c' k'
    × ((j : ℕ) → j ≢ c'.fd → k' j ≡ nothing j)
    × (c'.fd ≡ 4)
unfolding new_channel
change-IsSynced_sample =
    change-IsSynced strict enable_reading 9 (new_channel 4) new_poller nothing refl

changes-remove_channel_example :
    let (calls, c', p') = changes life 9 (new_channel 4) new_poller in
    let (last, _, _) = remove_channel c' p' in
    (k' : Kernel) × (epoll_ctls strict (calls ++ last) nothing ≡ some k') × (k' 4 ≡ none)
unfolding new_channel
changes-remove_channel_example =
    changes-remove_channel strict life 9 (new_channel 4) new_poller nothing refl

-- Disabling all of a channel twice registers it again, for no event.
disable_all-twice :
    (changes (enable_reading ∷ disable_all ∷ disable_all ∷ []) 9 (new_channel 4) new_poller).0
    ≡ ctl_add 4 (record { reads = true; writes = false })
      ∷ ctl_del 4
      ∷ ctl_add 4 (record { reads = false; writes = false })
      ∷ []
unfolding change set_events update_channel is_none_event new_channel new_poller
disable_all-twice = refl
