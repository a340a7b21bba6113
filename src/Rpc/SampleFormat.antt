-- ===== src/Rpc/SampleFormat.antt =====
-- A format of headers that keeps the law of HeaderFormat, for the theorems' examples.
use Prim.Native.Nat.{ℕ, zero, suc}
use gd_rpc.Base.{
  ◌≡◌, refl, List, ◌∷◌, ◌++◌, Option, some, none, length, take, drop, take-append_self,
  drop-append_self,
}
use gd_rpc.Rpc.Header.{
  MessageType, request, response, cancel, heartbeat, ErrorCode, no_error, wrong_proto, no_service,
  no_method, invalid_request, invalid_response, timeout, RpcHeader, HeaderFormat,
}

abbrev pub type_code : MessageType → ℕ
type_code request = 0
type_code response = 1
type_code cancel = 2
type_code heartbeat = 3

abbrev pub code_type : ℕ → MessageType
code_type zero = request
code_type (suc zero) = response
code_type (suc (suc zero)) = cancel
code_type (suc (suc (suc n))) = heartbeat

code_type-type_code : (t : MessageType) → code_type (type_code t) ≡ t
code_type-type_code request = refl
code_type-type_code response = refl
code_type-type_code cancel = refl
code_type-type_code heartbeat = refl

abbrev pub error_number : ErrorCode → ℕ
error_number no_error = 0
error_number wrong_proto = 1
error_number no_service = 2
error_number no_method = 3
error_number invalid_request = 4
error_number invalid_response = 5
error_number timeout = 6

abbrev pub number_error : ℕ → ErrorCode
number_error zero = no_error
number_error (suc zero) = wrong_proto
number_error (suc (suc zero)) = no_service
number_error (suc (suc (suc zero))) = no_method
number_error (suc (suc (suc (suc zero)))) = invalid_request
number_error (suc (suc (suc (suc (suc zero))))) = invalid_response
number_error (suc (suc (suc (suc (suc (suc n)))))) = timeout

number_error-error_number : (e : ErrorCode) → number_error (error_number e) ≡ e
number_error-error_number no_error = refl
number_error-error_number wrong_proto = refl
number_error-error_number no_service = refl
number_error-error_number no_method = refl
number_error-error_number invalid_request = refl
number_error-error_number invalid_response = refl
number_error-error_number timeout = refl

abbrev pub put : RpcHeader → List ℕ
put h =
    h.msg_id
    ∷ type_code h.message_type
    ∷ error_number h.error_code
    ∷ h.extend_info_len
    ∷ h.payload_len
    ∷ length h.version
    ∷ length h.service_name
    ∷ (h.version ++ (h.service_name ++ h.method_name))

abbrev pub get : List ℕ → Option RpcHeader
get (i ∷ t ∷ e ∷ x ∷ p ∷ v ∷ s ∷ rest) = some (record {
  msg_id = i;
  version = take v rest;
  service_name = take s (drop v rest);
  method_name = drop s (drop v rest);
  message_type = code_type t;
  error_code = number_error e;
  extend_info_len = x;
  payload_len = p;
})
get _ = none

pub get-put : (h : RpcHeader) → get (put h) ≡ some h
get-put h = rw (
  take-append_self h.version (h.service_name ++ h.method_name),
  drop-append_self h.version (h.service_name ++ h.method_name),
  take-append_self h.service_name h.method_name,
  drop-append_self h.service_name h.method_name,
  code_type-type_code h.message_type,
  number_error-error_number h.error_code,
)

abbrev pub sample_format : HeaderFormat
sample_format = record { serialize = put; parse = get; parse-serialize = get-put }
