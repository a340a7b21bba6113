-- ===== src/Rpc/Header.antt =====
-- RpcHeader of gdrpc/protocol/rpcHeader.proto. How protobuf writes and reads a message is not in the
-- repository: it is a record that the users of this file are given, with the one law that they rely
-- on. Texts and byte fields are lists of bytes.
use gd_rpc.Base.{ℕ, ◌≡◌, List, [], Option, some}

pub data MessageType : Type 0 where
  request response cancel heartbeat : MessageType

pub data ErrorCode : Type 0 where
  no_error wrong_proto no_service no_method invalid_request invalid_response timeout : ErrorCode

pub record RpcHeader : Type 0 where
  pub msg_id : ℕ
  pub version : List ℕ
  pub service_name : List ℕ
  pub method_name : List ℕ
  pub message_type : MessageType
  pub error_code : ErrorCode
  pub extend_info_len : ℕ
  pub payload_len : ℕ

abbrev pub empty_header : RpcHeader
empty_header = record {
  msg_id = 0;
  version = [];
  service_name = [];
  method_name = [];
  message_type = request;
  error_code = no_error;
  extend_info_len = 0;
  payload_len = 0;
}

-- `SerializeAsString` and `ParseFromArray` of the generated class.
pub record HeaderFormat : Type 0 where
  pub serialize : RpcHeader → List ℕ
  pub parse : List ℕ → Option RpcHeader
  pub parse-serialize : (h : RpcHeader) → parse (serialize h) ≡ some h
