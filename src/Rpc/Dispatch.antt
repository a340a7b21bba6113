-- ===== src/Rpc/Dispatch.antt =====
-- RpcServer of gdrpc/rpc/rpcServer.hpp and rpcServer.cpp: what a server does with a request. A service
-- is the generated class's own code, which the server is given; a message, a connection and a method
-- is the pointer to it. A `done` closure that a service has been given and has not run yet is an
-- entry of `pending`: the service runs it whenever it is done, and a closure of `NewCallback` runs
-- once.
pub mod Replies
mod Tests
use gd_rpc.Base.{
  ℕ, zero, suc, List, [], ◌∷◌, ◌++◌, Bool, true, false, Option, none, some, if◌then◌else◌, map,
}
use gd_rpc.Rpc.Header.{
  MessageType, request, response, cancel, heartbeat, ErrorCode, no_error, no_service, no_method,
  invalid_request, wrong_proto, RpcHeader, empty_header,
}
use gd_rpc.Text.{lookup_text, insert_text}

-- `google::protobuf::Service`: its full name, `FindMethodByName` and `ParseFromString` of the
-- request of a method.
pub record Service : Type 0 where
  pub full_name : List ℕ
  pub find_method : List ℕ → Option ℕ
  pub parses : ℕ → List ℕ → Bool

-- The closure that a service is called with: `SendRpcResponse`, its pair and its connection.
pub record Reply : Type 0 where
  pub response : ℕ
  pub id : ℕ
  pub conn : ℕ

pub data Effect : Type 0 where
  called : Service → ℕ → List ℕ → Reply → Effect
  sent : ℕ → RpcHeader → ℕ → Effect

pub record Server : Type 0 where
  pub services : List (List ℕ × Service)
  pub pending : List Reply

unfoldable pub new_server : Server
new_server = record { services = []; pending = [] }

unfoldable pub register_service : Service → Server → Server
register_service svc s = record s { services = insert_text svc.full_name svc s.services }

-- The error and, where there is none, the service and the method to call.
abbrev pub parse_request : Service → List ℕ → Option ℕ → ErrorCode × Option (Service × ℕ)
parse_request svc payload none = (no_method, none)
parse_request svc payload (some m) =
    if svc.parses m payload then (no_error, some (svc, m)) else (invalid_request, none)

abbrev pub find_service : RpcHeader → List ℕ → Option Service → ErrorCode × Option (Service × ℕ)
find_service h payload none = (no_service, none)
find_service h payload (some svc) = parse_request svc payload (svc.find_method h.method_name)

-- `response` is the message that `New()` yields, and is only allocated for a call.
abbrev pub call_service :
    ErrorCode × Option (Service × ℕ) → Reply → List ℕ → Server → ErrorCode × List Effect × Server
call_service (error, none) reply payload s = (error, [], s)
call_service (error, some (svc, m)) reply payload s =
    (error, called svc m payload reply ∷ [], record s { pending = s.pending ++ (reply ∷ []) })

unfoldable pub on_request : ℕ → RpcHeader → List ℕ → ℕ → Server → ErrorCode × List Effect × Server
on_request conn h payload r s =
    call_service (find_service h payload (lookup_text h.service_name s.services))
      (record { response = r; id = h.msg_id; conn = conn }) payload s

-- The error is computed and dropped: nothing tells the client.
unfoldable pub on_rpc_header : ℕ → RpcHeader → List ℕ → ℕ → Server → List Effect × Server
on_rpc_header conn h payload r s = elim h.message_type [
  | request ↦ let (_, es, s') = on_request conn h payload r s in (es, s')
  | _ ↦ ([], s)
]

abbrev pub response_header : ℕ → RpcHeader
response_header id = record empty_header { message_type = response; msg_id = id }

unfoldable pub send_rpc_response : Reply → List Effect
send_rpc_response r = sent r.conn (response_header r.id) r.response ∷ []

-- The `i`-th pending closure, and the others.
abbrev pub taken : ℕ → List Reply → Option (Reply × List Reply)
taken i [] = none
taken zero (r ∷ rs) = some (r, rs)
taken (suc i) (r ∷ rs) = elim (taken i rs) [ none ↦ none | some (q, qs) ↦ some (q, r ∷ qs) ]

abbrev pub answer : Option (Reply × List Reply) → Server → List Effect × Server
answer none s = ([], s)
answer (some (r, rs)) s = (send_rpc_response r, record s { pending = rs })

pub data Event : Type 0 where
  receives : ℕ → RpcHeader → List ℕ → ℕ → Event
  completes : ℕ → Event

unfoldable pub step : Event → Server → List Effect × Server
step (receives conn h payload r) s = on_rpc_header conn h payload r s
step (completes i) s = answer (taken i s.pending) s

unfoldable pub run : List Event → Server → List Effect × Server
run [] s = ([], s)
run (e ∷ es) s = let (xs, s') = step e s in let (ys, s'') = run es s' in (xs ++ ys, s'')
