-- ===== src/Rpc/Codec.antt =====
-- ProtocolCodec of gdrpc/protocol/protocol.hpp and protocol.cpp: the frames of a connection. An `int`
-- on the wire is four bytes, lowest first; lengths stay below 2 ^ 31, the range of `int32_t`, so a
-- `headerLen` that the sender of this file wrote is not negative.
pub mod Frames
mod Tests
use gd_rpc.Base.{
  ℕ, zero, suc, ◌+◌, ◌-◌, ◌*◌, ◌/◌, ◌%◌, ◌^◌, List, [], ◌∷◌, ◌++◌, Bool, true, false, Option, none,
  some, ltb, leb, if◌then◌else◌, length, take, drop,
}
use gd_rpc.Rpc.Header.{RpcHeader, empty_header, HeaderFormat}

abbrev pub header_len : ℕ
header_len = 4

abbrev pub checksum_len : ℕ
checksum_len = 4

-- `kMinMessageLen`, from the length of the tag ("v1.0" by default).
abbrev pub min_message_len : ℕ → ℕ
min_message_len tag_size = tag_size + checksum_len

-- The four bytes of an `int`.
unfoldable pub int_bytes : ℕ → List ℕ
int_bytes n = n % 256 ∷ n / 256 % 256 ∷ n / 65536 % 256 ∷ n / 16777216 % 256 ∷ []

-- `memcpy` of the first four bytes into an `int32_t`.
unfoldable pub int_of_bytes : List ℕ → ℕ
int_of_bytes (a ∷ b ∷ c ∷ d ∷ _) = a + 256 * b + 65536 * c + 16777216 * d
int_of_bytes _ = 0

-- What one round of the loop of `onMessage` does: it leaves the loop, calls `messageCallback_` with
-- a header and a payload and drops bytes of the input, goes round again with nothing changed, or
-- follows a null pointer.
pub data Round : Type 0 where
  stop again null_pointer : Round
  deliver : RpcHeader → List ℕ → ℕ → Round

-- How `onMessage` ends, on the readable bytes of the input: by itself, or by the null pointer.
-- None: the rounds given do not suffice.
pub data Ended : Type 0 where
  returned crashed : Ended

module _ (f : HeaderFormat) where
  -- What `send` passes to the connection.
  unfoldable pub send : RpcHeader → List ℕ → List ℕ
  unfolding int_bytes
  send header payload =
      int_bytes (length (f.serialize header) + length payload) ++ (f.serialize header ++ payload)

  -- The body of the loop, on the bytes `buf` that `tryRead` copied; `pointer` is the `RpcHeaderPtr`.
  -- A failed `ParseFromArray` leaves the header cleared.
  unfoldable pub round_with : Option RpcHeader → List ℕ → Round
  unfolding int_of_bytes
  round_with none buf =
      if leb (header_len + int_of_bytes buf) (length buf) then null_pointer else stop
  round_with (some _) buf =
      let len = int_of_bytes buf in
      let parsed = elim (f.parse (take len (drop header_len buf))) as (λ _. RpcHeader) [
        | none ↦ empty_header
        | some h ↦ h
      ] in
      let payload = take parsed.payload_len (drop (header_len + header_len) buf) in
      if leb (header_len + len) (length buf)
      then (if leb (header_len + len + parsed.payload_len) (length buf)
          then deliver parsed payload (header_len + length buf + parsed.payload_len)
          else again)
      else stop

  -- One round: the loop's test, and the body, whose pointer is the empty `RpcHeaderPtr header;`.
  unfoldable pub round : ℕ → List ℕ → Round
  round tag_size buf =
      if leb (min_message_len tag_size + header_len) (length buf) then round_with none buf else stop

  unfoldable pub on_message : ℕ → ℕ → List ℕ → Option Ended
  unfolding round round_with
  on_message zero tag_size buf = none
  on_message (suc n) tag_size buf = elim (round tag_size buf) [
    | stop ↦ some returned
    | null_pointer ↦ some crashed
    | again ↦ on_message n tag_size buf
    | deliver h p k ↦ on_message n tag_size (if leb k (length buf) then drop k buf else buf)
  ]
