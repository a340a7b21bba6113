-- ===== src/Rpc/Controller/Tests.antt =====
-- A controller that is given a reason only.
use gd_rpc.Base.{◌≡◌, [], ◌∷◌, true, false}
use gd_rpc.Rpc.Controller.{
  new_controller, failed, error_text, is_canceled, starts_cancel, sets_failed, run,
}
use gd_rpc.Rpc.Controller.Failure.{run-failed}

run-failed_sample :
    let c = run (starts_cancel ∷ sets_failed (1 ∷ []) ∷ []) (new_controller 0) in
    (failed c ≡ false) × (is_canceled c ≡ true) × (error_text c ≡ 1 ∷ [])
unfolding failed is_canceled error_text
run-failed_sample = run-failed (starts_cancel ∷ sets_failed (1 ∷ []) ∷ []) (new_controller 0)
