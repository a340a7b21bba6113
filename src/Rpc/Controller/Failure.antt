-- ===== src/Rpc/Controller/Failure.antt =====
-- What makes a controller failed, and what a reset leaves.
use gd_rpc.Base.{ℕ, ◌≡◌, refl, List, [], ◌∷◌, Bool, true, false}
use gd_rpc.Rpc.Controller.{
  Controller, reset, failed, error_text, is_canceled, start_cancel, set_failed, set_error, Call,
  resets, starts_cancel, sets_failed, sets_msg_id, sets_error, notifies_on_cancel, sets_local_addr,
  sets_peer_addr, sets_timeout, step, run,
}

-- Whether an error, or a cancel, was set after the last reset, and the last text given since.
abbrev pub has_error : Bool → List Call → Bool
has_error b [] = b
has_error b (resets ∷ ks) = has_error false ks
has_error b (sets_error code info ∷ ks) = has_error true ks
has_error b (_ ∷ ks) = has_error b ks

abbrev pub has_cancel : Bool → List Call → Bool
has_cancel b [] = b
has_cancel b (resets ∷ ks) = has_cancel false ks
has_cancel b (starts_cancel ∷ ks) = has_cancel true ks
has_cancel b (_ ∷ ks) = has_cancel b ks

abbrev pub last_text : List ℕ → List Call → List ℕ
last_text t [] = t
last_text t (resets ∷ ks) = last_text [] ks
last_text t (sets_error code info ∷ ks) = last_text info ks
last_text t (sets_failed reason ∷ ks) = last_text reason ks
last_text t (_ ∷ ks) = last_text t ks

-- After any calls a controller is failed exactly if an error was set, and canceled exactly if a
-- cancel was started, since the last reset; its text is the last one that was given since then.
-- Giving the reason of a failure makes no controller failed.
pub run-failed :
    (ks : List Call) (c : Controller)
    → (failed (run ks c) ≡ has_error (failed c) ks)
      × (is_canceled (run ks c) ≡ has_cancel (is_canceled c) ks)
      × (error_text (run ks c) ≡ last_text (error_text c) ks)
unfolding run step failed is_canceled error_text reset start_cancel set_failed set_error
run-failed [] c = (refl, refl, refl)
run-failed (resets ∷ ks) c = run-failed ks (reset c)
run-failed (starts_cancel ∷ ks) c = run-failed ks (start_cancel c)
run-failed (sets_failed reason ∷ ks) c = run-failed ks (set_failed reason c)
run-failed (sets_msg_id id ∷ ks) c = run-failed ks (step (sets_msg_id id) c)
run-failed (sets_error code info ∷ ks) c = run-failed ks (set_error code info c)
run-failed (notifies_on_cancel k ∷ ks) c = run-failed ks c
run-failed (sets_local_addr a ∷ ks) c = run-failed ks (step (sets_local_addr a) c)
run-failed (sets_peer_addr a ∷ ks) c = run-failed ks (step (sets_peer_addr a) c)
run-failed (sets_timeout t ∷ ks) c = run-failed ks (step (sets_timeout t) c)
