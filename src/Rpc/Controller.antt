-- ===== src/Rpc/Controller.antt =====
-- RpcController of gdrpc/rpc/rpcController.hpp and rpcController.cpp. Texts are lists of bytes, and an
-- address is a number.
pub mod Failure
mod Tests
use gd_rpc.Base.Int.{ℤ, pos}
use gd_rpc.Base.{ℕ, List, [], ◌∷◌, Bool, true, false}

pub record Controller : Type 0 where
  pub error_code : ℤ
  pub error_info : List ℕ
  pub msg_id : List ℕ
  pub is_failed : Bool
  pub is_cancelled : Bool
  pub local_addr : ℕ
  pub peer_addr : ℕ
  pub timeout : ℤ

-- `no_addr` is a default-constructed address.
abbrev pub new_controller : ℕ → Controller
new_controller no_addr = record {
  error_code = pos 0;
  error_info = [];
  msg_id = [];
  is_failed = false;
  is_cancelled = false;
  local_addr = no_addr;
  peer_addr = no_addr;
  timeout = pos 1000;
}

-- The addresses stay.
unfoldable pub reset : Controller → Controller
reset c = record c {
  error_code = pos 0;
  error_info = [];
  msg_id = [];
  is_failed = false;
  is_cancelled = false;
  timeout = pos 1000;
}

unfoldable pub failed : Controller → Bool
failed c = c.is_failed

unfoldable pub error_text : Controller → List ℕ
error_text c = c.error_info

unfoldable pub is_canceled : Controller → Bool
is_canceled c = c.is_cancelled

unfoldable pub start_cancel : Controller → Controller
start_cancel c = record c { is_cancelled = true }

unfoldable pub set_failed : List ℕ → Controller → Controller
set_failed reason c = record c { error_info = reason }

-- `NotifyOnCancel` has an empty body.
abbrev pub notify_on_cancel : ℕ → Controller → Controller
notify_on_cancel callback c = c

unfoldable pub set_error : ℤ → List ℕ → Controller → Controller
set_error code info c = record c { error_code = code; error_info = info; is_failed = true }

abbrev pub set_msg_id : List ℕ → Controller → Controller
set_msg_id id c = record c { msg_id = id }

abbrev pub set_local_addr : ℕ → Controller → Controller
set_local_addr a c = record c { local_addr = a }

abbrev pub set_peer_addr : ℕ → Controller → Controller
set_peer_addr a c = record c { peer_addr = a }

abbrev pub set_timeout : ℤ → Controller → Controller
set_timeout t c = record c { timeout = t }

-- The member functions that change a controller.
pub data Call : Type 0 where
  resets starts_cancel : Call
  sets_failed sets_msg_id : List ℕ → Call
  sets_error : ℤ → List ℕ → Call
  notifies_on_cancel sets_local_addr sets_peer_addr : ℕ → Call
  sets_timeout : ℤ → Call

unfoldable pub step : Call → Controller → Controller
step resets c = reset c
step starts_cancel c = start_cancel c
step (sets_failed reason) c = set_failed reason c
step (sets_msg_id id) c = set_msg_id id c
step (sets_error code info) c = set_error code info c
step (notifies_on_cancel callback) c = notify_on_cancel callback c
step (sets_local_addr a) c = set_local_addr a c
step (sets_peer_addr a) c = set_peer_addr a c
step (sets_timeout t) c = set_timeout t c

unfoldable pub run : List Call → Controller → Controller
run [] c = c
run (k ∷ ks) c = run ks (step k c)
