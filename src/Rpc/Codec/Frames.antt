-- ===== src/Rpc/Codec/Frames.antt =====
-- What the receiver makes of the frames that the sender writes.
use gd_rpc.Base.{
  ℕ, suc, ◌+◌, ◌^◌, ◌≤◌, ◌<◌, ◌≡◌, List, ◌++◌, some, leb, if◌then◌else◌, length, length-append,
  arith, ◌&&◌,
}
use gd_rpc.Rpc.Header.{RpcHeader, HeaderFormat}
use gd_rpc.Rpc.Codec.{
  header_len, min_message_len, int_bytes, int_of_bytes, send, null_pointer, deliver, round_with,
  round, returned, crashed, on_message,
}

-- The length in front of a frame is read back as it was written.
pub int_of_bytes-int_bytes :
    (n : ℕ) (rest : List ℕ) → n < 2 ^ 31 → int_of_bytes (int_bytes n ++ rest) ≡ n
unfolding int_of_bytes int_bytes
int_of_bytes-int_bytes n rest h = omega arith

module _ (f : HeaderFormat) where
  length-send :
      (h : RpcHeader) (p : List ℕ)
      → length (send f h p) ≡ header_len + (length (f.serialize h) + length p)
  unfolding send
  length-send h p = omega (arith, length-append (f.serialize h) p)

  int_of_bytes-send :
      (h : RpcHeader) (p rest : List ℕ)
      → length (f.serialize h) + length p < 2 ^ 31
      → int_of_bytes (send f h p ++ rest) ≡ length (f.serialize h) + length p
  unfolding send int_bytes
  int_of_bytes-send h p rest k =
      int_of_bytes-int_bytes (length (f.serialize h) + length p) ((f.serialize h ++ p) ++ rest) k

  round-crashed :
      (tag_size : ℕ) (buf : List ℕ)
      → min_message_len tag_size + header_len ≤ length buf
      → header_len + int_of_bytes buf ≤ length buf
      → round f tag_size buf ≡ null_pointer
  unfolding round round_with
  round-crashed tag_size buf e w = ground arith

  -- A receiver whose input starts with a whole frame of the sender follows a null pointer, if that
  -- input is long enough for the loop of `onMessage` to look at it at all.
  pub on_message-crashed :
      (n tag_size : ℕ) (h : RpcHeader) (p rest : List ℕ)
      → length (f.serialize h) + length p < 2 ^ 31
      → min_message_len tag_size + header_len ≤ length (send f h p ++ rest)
      → on_message f (suc n) tag_size (send f h p ++ rest) ≡ some crashed
  unfolding on_message
  on_message-crashed n tag_size h p rest k e = rw (
    round-crashed tag_size (send f h p ++ rest) e (
        omega
          (arith, int_of_bytes-send h p rest k, length-append (send f h p) rest, length-send h p)),
    on_message,
  )

  -- `onMessage` always ends in its first round, whatever the input holds: the rest of the loop's body
  -- is never reached.
  pub on_message-total :
      (n tag_size : ℕ) (buf : List ℕ)
      → on_message f (suc n) tag_size buf
        ≡ some (
            if leb (min_message_len tag_size + header_len) (length buf)
              && leb (header_len + int_of_bytes buf) (length buf)
            then crashed
            else returned)
  unfolding on_message round round_with
  on_message-total n tag_size buf = ground arith

  -- With the pointer set to a header, a round that delivers a message asks `retrieve` for more bytes
  -- than the input holds.
  pub deliver-exceeds :
      (h0 h : RpcHeader) (buf p : List ℕ) (k : ℕ)
      → round_with f (some h0) buf ≡ deliver h p k
      → length buf < k
  unfolding round_with
  deliver-exceeds h0 h buf p k e = ground arith
