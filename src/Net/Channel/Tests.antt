-- ===== src/Net/Channel/Tests.antt =====
-- A tied channel whose peer hung up with bytes left to read.
use gd_rpc.Base.{◌≡◌, refl, [], ◌∷◌, true, false}
use gd_rpc.Net.Channel.{
  Revents, Callbacks, close_callback, error_callback, read_callback, write_callback, handle_event,
  handle_event_with_guard, tie, new_channel,
}
use gd_rpc.Net.Channel.Laws.{handle_event_lem, times}

abbrev all_set : Callbacks
all_set = record { close_set = true; error_set = true; read_set = true; write_set = true }

abbrev hung_up : Revents
hung_up = record { hup = true; err = false; inp = true; pri = false; out = true }

handle_event-hung_up :
    handle_event true all_set hung_up (tie (new_channel 4)) ≡ read_callback ∷ write_callback ∷ []
unfolding handle_event handle_event_with_guard tie new_channel
handle_event-hung_up = refl

handle_event_lem_sample :
    let ran = handle_event true all_set hung_up (tie (new_channel 4)) in
    (times close_callback ran ≡ 0)
    × (times error_callback ran ≡ 0)
    × (times read_callback ran ≡ 1)
    × (times write_callback ran ≡ 1)
unfolding tie new_channel
handle_event_lem_sample = handle_event_lem true all_set hung_up (tie (new_channel 4))
