-- ===== src/Rpc/Caller/Tests.antt =====
-- Two calls before an answer.
use gd_rpc.Base.{ℕ, ◌==◌, if◌then◌else◌, ◌≡◌, refl, List, [], ◌∷◌, none, some, lookup}
use gd_rpc.Rpc.Header.{response, RpcHeader, empty_header}
use gd_rpc.Rpc.Caller.{
  OutstandingCall, Caller, Method, call_method, on_rpc_header, Event, calls, receives, step, run,
  new_caller, on_response, parsed_into, ran, deleted_message,
}
use gd_rpc.Rpc.Caller.Answers.{on_rpc_header_lem, run-IsSingle, IsSingle, call_method-lost}

abbrev login : Method
login = record { service_name = 1 ∷ []; name = 2 ∷ [] }

abbrev first_call : OutstandingCall
first_call = record { response = some 10; done = some 20 }

abbrev second_call : OutstandingCall
second_call = record { response = some 11; done = some 21 }

abbrev answer : RpcHeader
answer = record empty_header { message_type = response; msg_id = 0 }

abbrev waiting : Caller
waiting = (call_method login 5 first_call new_caller).1

run-answered :
    (run (calls login 5 first_call ∷ receives answer (7 ∷ []) ∷ []) new_caller).1 ≡ new_caller
unfolding run step call_method on_rpc_header on_response new_caller
run-answered = refl

on_rpc_header_lem_example :
    let (es, c') = on_rpc_header answer (7 ∷ []) waiting in
    (es ≡ parsed_into 10 (7 ∷ []) ∷ ran 20 ∷ deleted_message 10 ∷ [])
    × ((j : ℕ)
        → lookup j c'.outstandings ≡ (if 0 == j then none else lookup j waiting.outstandings))
    × (c'.id ≡ waiting.id)
unfolding call_method new_caller
on_rpc_header_lem_example = on_rpc_header_lem answer (7 ∷ []) waiting

abbrev both : List Event
both = calls login 5 first_call ∷ calls login 6 second_call ∷ []

run-IsSingle_example :
    IsSingle (run both new_caller).1 × ((run both new_caller).1.id ≡ new_caller.id)
unfolding new_caller
run-IsSingle_example = run-IsSingle both new_caller (λ j h. refl)

call_method-lost_sample :
    let c2 = (call_method login 6 second_call (call_method login 5 first_call new_caller).1).1 in
    let (es, c3) = on_rpc_header answer (7 ∷ []) c2 in
    (es ≡ parsed_into 11 (7 ∷ []) ∷ ran 21 ∷ deleted_message 11 ∷ [])
    × ((on_rpc_header answer (8 ∷ []) c3).0 ≡ [])
unfolding new_caller
call_method-lost_sample =
    call_method-lost login login 5 6 first_call second_call answer (7 ∷ []) (8 ∷ []) new_caller refl
      refl

abbrev answered_once : List Event
answered_once = calls login 5 first_call ∷ receives answer (7 ∷ []) ∷ receives answer (7 ∷ []) ∷ []
