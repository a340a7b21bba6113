-- ===== src/Rpc/Codec/Tests.antt =====
-- The frames at a concrete format.
use gd_rpc.Base.{◌≡◌, ◌<◌, refl, ◌++◌, [], ◌∷◌, some, arith}
use gd_rpc.Rpc.Header.{RpcHeader, empty_header}
use gd_rpc.Rpc.SampleFormat.{sample_format}
use gd_rpc.Rpc.Codec.{int_bytes, int_of_bytes, send, round_with, on_message, crashed}
use gd_rpc.Rpc.Codec.Frames.{int_of_bytes-int_bytes, on_message-crashed, deliver-exceeds}

abbrev call_header : RpcHeader
call_header = record empty_header { service_name = 7 ∷ 8 ∷ []; method_name = 9 ∷ [] }

int_of_bytes-int_bytes_sample : int_of_bytes (int_bytes 66051 ++ (5 ∷ [])) ≡ 66051
int_of_bytes-int_bytes_sample = int_of_bytes-int_bytes 66051 (5 ∷ []) (omega arith)

send-call :
    send sample_format call_header (1 ∷ 2 ∷ [])
    ≡ 12 ∷ 0 ∷ 0 ∷ 0 ∷ 0 ∷ 0 ∷ 0 ∷ 0 ∷ 0 ∷ 0 ∷ 2 ∷ 7 ∷ 8 ∷ 9 ∷ 1 ∷ 2 ∷ []
unfolding send
send-call = refl

on_message-crashed_example :
    on_message sample_format 1 4 (send sample_format call_header (1 ∷ 2 ∷ []) ++ []) ≡ some crashed
unfolding send
on_message-crashed_example =
    on_message-crashed sample_format 0 4 call_header (1 ∷ 2 ∷ []) [] (omega arith) (omega arith)

deliver-exceeds_sample : 16 < 20
unfolding round_with
deliver-exceeds_sample =
    deliver-exceeds sample_format empty_header
      (record empty_header { service_name = 7 ∷ 8 ∷ []; method_name = 9 ∷ 1 ∷ 2 ∷ [] })
      (12 ∷ 0 ∷ 0 ∷ 0 ∷ 0 ∷ 0 ∷ 0 ∷ 0 ∷ 0 ∷ 0 ∷ 2 ∷ 7 ∷ 8 ∷ 9 ∷ 1 ∷ 2 ∷ []) [] 20 refl
