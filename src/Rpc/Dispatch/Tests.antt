-- ===== src/Rpc/Dispatch/Tests.antt =====
-- A server of one service with one method, which takes every payload that is not empty.
use gd_rpc.Base.{
  ℕ, ◌≡◌, ◌+◌, refl, List, [], ◌∷◌, ◌++◌, Bool, true, false, none, some, ◌==◌, if◌then◌else◌, ◌⊎◌,
  ◌≢◌,
}
use gd_rpc.Rpc.Header.{RpcHeader, empty_header, no_error}
use gd_rpc.Text.{bytes_eq}
use gd_rpc.Rpc.Dispatch.{
  Service, Reply, called, sent, Server, new_server, register_service, on_request, on_rpc_header,
  send_rpc_response, Event, receives, completes, step, run, response_header,
}
use gd_rpc.Rpc.Dispatch.Replies.{run-Balanced, on_request_lem, count, handed, answers, Names}

abbrev is_empty : List ℕ → Bool
is_empty [] = true
is_empty (_ ∷ _) = false

abbrev user : Service
user = record {
  full_name = 1 ∷ [];
  find_method = λ name. if bytes_eq name (2 ∷ []) then some 7 else none;
  parses = λ m payload. if is_empty payload then false else true;
}

abbrev serving : Server
serving = record { services = (1 ∷ [], user) ∷ []; pending = [] }

register_service-user : register_service user new_server ≡ serving
unfolding register_service new_server
register_service-user = refl

abbrev login : ℕ → RpcHeader
login id = record empty_header { msg_id = id; service_name = 1 ∷ []; method_name = 2 ∷ [] }

-- Two requests on two connections, completed in the other order, and one that does not parse.
abbrev script : List Event
script =
    receives 100 (login 5) (9 ∷ []) 50
    ∷ receives 101 (login 6) (9 ∷ []) 51
    ∷ receives 101 (login 7) [] 52
    ∷ completes 1
    ∷ completes 0
    ∷ completes 0
    ∷ []

abbrev reply_5 : Reply
reply_5 = record { response = 50; id = 5; conn = 100 }

abbrev reply_6 : Reply
reply_6 = record { response = 51; id = 6; conn = 101 }

run-serving :
    (run script serving).0
    ≡ called user 7 (9 ∷ []) reply_5
      ∷ called user 7 (9 ∷ []) reply_6
      ∷ sent 101 (response_header 6) 51
      ∷ sent 100 (response_header 5) 50
      ∷ []
unfolding run step on_rpc_header on_request send_rpc_response
run-serving = refl

abbrev is_for_6 : Reply → Bool
is_for_6 r = r.id == 6

run-Balanced_example :
    let (fs, s') = run script serving in
    count is_for_6 (answers fs) + count is_for_6 s'.pending
    ≡ count is_for_6 serving.pending + count is_for_6 (handed fs)
run-Balanced_example = run-Balanced is_for_6 script serving

on_request_lem_example :
    let (error, es, s') = on_request 100 (login 5) (9 ∷ []) 50 serving in
    ((svc : Service) × (m : ℕ) × Names (login 5) (9 ∷ []) serving svc m
      × (error ≡ no_error)
      × (es ≡ called svc m (9 ∷ []) reply_5 ∷ [])
      × (s' ≡ record serving { pending = serving.pending ++ (reply_5 ∷ []) }))
    ⊎ (((svc : Service) (m : ℕ) → ¬ Names (login 5) (9 ∷ []) serving svc m)
        × (error ≢ no_error)
        × (es ≡ [])
        × (s' ≡ serving))
on_request_lem_example = on_request_lem 100 (login 5) (9 ∷ []) 50 serving
