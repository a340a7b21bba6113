-- ===== src/Rpc/Caller.antt =====
-- rpcChannelCli of gdrpc/rpc/rpcChannelCli.hpp and rpcChannelCli.cpp: the calls of a client. A pointer
-- to a message or to a closure is a number, and none is the null pointer. A method is its service's
-- name and its own. What the functions do to messages, closures and the codec is the list that they
-- return.
pub mod Answers
mod Counts
pub mod Closures
mod Tests
use gd_rpc.Base.{ℕ, List, [], ◌∷◌, ◌++◌, Option, none, some, lookup, insert, erase}
use gd_rpc.Rpc.Header.{MessageType, request, response, cancel, heartbeat, RpcHeader, empty_header}

-- `struct OutstandingCall`
pub record OutstandingCall : Type 0 where
  pub response : Option ℕ
  pub done : Option ℕ

pub record Caller : Type 0 where
  pub id : ℕ
  pub outstandings : List (ℕ × OutstandingCall)

pub record Method : Type 0 where
  pub service_name : List ℕ
  pub name : List ℕ

pub data Effect : Type 0 where
  sent : RpcHeader → ℕ → Effect
  parsed_into : ℕ → List ℕ → Effect
  ran : ℕ → Effect
  deleted_message deleted_closure : ℕ → Effect

unfoldable pub new_caller : Caller
new_caller = record { id = 0; outstandings = [] }

-- The request is the pointer to it; the codec writes it out.
unfoldable pub call_method : Method → ℕ → OutstandingCall → Caller → List Effect × Caller
call_method m req out c = (
  sent
        (record empty_header {
          message_type = request;
          msg_id = c.id;
          service_name = m.service_name;
          method_name = m.name;
        })
        req
      ∷ [],
  record c { outstandings = insert c.id out c.outstandings },
)

abbrev pub run_closure : Option ℕ → List Effect
run_closure none = []
run_closure (some k) = ran k ∷ []

-- The answer is parsed, the closure run, and the message deleted as its `unique_ptr` goes.
abbrev pub finish : OutstandingCall → List ℕ → List Effect
finish out payload = elim out.response [
  | none ↦ []
  | some r ↦ parsed_into r payload ∷ (run_closure out.done ++ (deleted_message r ∷ []))
]

abbrev pub null_call : OutstandingCall
null_call = record { response = none; done = none }

unfoldable pub on_response : ℕ → List ℕ → Caller → List Effect × Caller
on_response id payload c = elim (lookup id c.outstandings) [
  | none ↦ (finish null_call payload, c)
  | some out ↦ (finish out payload, record c { outstandings = erase id c.outstandings })
]

unfoldable pub on_rpc_header : RpcHeader → List ℕ → Caller → List Effect × Caller
unfolding on_response
on_rpc_header h payload c = elim h.message_type [
  | response ↦ on_response h.msg_id payload c
  | _ ↦ ([], c)
]

abbrev pub delete_message : Option ℕ → List Effect
delete_message none = []
delete_message (some r) = deleted_message r ∷ []

abbrev pub delete_closure : Option ℕ → List Effect
delete_closure none = []
delete_closure (some k) = deleted_closure k ∷ []

-- The destructor.
abbrev pub delete_calls : List (ℕ × OutstandingCall) → List Effect
delete_calls [] = []
delete_calls ((_, out) ∷ m) =
    delete_message out.response ++ (delete_closure out.done ++ delete_calls m)

unfoldable pub destroy : Caller → List Effect
destroy c = delete_calls c.outstandings

pub data Event : Type 0 where
  calls : Method → ℕ → OutstandingCall → Event
  receives : RpcHeader → List ℕ → Event

unfoldable pub step : Event → Caller → List Effect × Caller
step (calls m req out) c = call_method m req out c
step (receives h p) c = on_rpc_header h p c

unfoldable pub run : List Event → Caller → List Effect × Caller
run [] c = ([], c)
run (e ∷ es) c = let (xs, c') = step e c in let (ys, c'') = run es c' in (xs ++ ys, c'')
