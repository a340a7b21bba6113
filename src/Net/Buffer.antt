-- ===== src/Net/Buffer.antt =====
-- TcpConnection::Buffer of gdrpc/net/tcpConnection.hpp and tcpConnection.cpp. A byte is a number;
-- `bytes` is the vector `buffer_`. Its size is below `max_size`, so sums of indices do not wrap.
-- What `readv` and `write` of the kernel did is an argument: the bytes, or `none` with an errno.
mod Window
pub mod Laws
pub mod Refine
mod Tests
use gd_rpc.Base.{
  ℕ, zero, suc, ◌+◌, ◌-◌, ◌*◌, List, [], ◌∷◌, ◌++◌, Bool, true, false, Option, none, some, ltb, leb,
  ◌==◌, if◌then◌else◌, length, take, drop, replicate,
}

pub record Buffer : Type 0 where
  pub bytes : List ℕ
  pub reader : ℕ
  pub writer : ℕ

abbrev pub initial_size : ℕ
initial_size = 1024

-- `sizeof(extrabuf)` of `readFd`
abbrev pub extra_size : ℕ
extra_size = 65536

unfoldable pub new_buffer : ℕ → Buffer
new_buffer size = record { bytes = replicate size 0; reader = 0; writer = 0 }

unfoldable pub readable : Buffer → ℕ
readable b = b.writer - b.reader

unfoldable pub writable : Buffer → ℕ
writable b = length b.bytes - b.writer

unfoldable pub prependable : Buffer → ℕ
prependable b = b.reader

-- The `len` bytes from `peek()` on.
unfoldable pub peek : Buffer → ℕ → List ℕ
peek b len = take len (drop b.reader b.bytes)

-- `std::copy` of the source's bytes to position `i`; nothing is written past the end.
pub copy_to : List ℕ → ℕ → List ℕ → List ℕ
copy_to [] i src = []
copy_to (x ∷ xs) zero [] = x ∷ xs
copy_to (x ∷ xs) zero (d ∷ src) = d ∷ copy_to xs zero src
copy_to (x ∷ xs) (suc i) src = x ∷ copy_to xs i src

-- `vector::resize`: new elements are zero.
pub resize : ℕ → List ℕ → List ℕ
resize n xs = take n xs ++ replicate (n - length xs) 0

unfoldable pub retrieve_all : Buffer → Buffer
retrieve_all b = record b { reader = 0; writer = 0 }

unfoldable pub retrieve : ℕ → Buffer → Bool × Buffer
unfolding readable retrieve_all
retrieve len b =
    if ltb len (readable b)
    then (true, record b { reader = b.reader + len })
    else if len == readable b
    then (true, retrieve_all b)
    else (false, b)

pub retrieve_as_string : ℕ → Buffer → List ℕ × Buffer
unfolding retrieve peek
retrieve_as_string len b = (peek b len, (retrieve len b).1)

pub retrieve_all_as_string : Buffer → List ℕ × Buffer
unfolding retrieve_as_string readable
retrieve_all_as_string b = retrieve_as_string (readable b) b

unfoldable pub make_space : ℕ → Buffer → Buffer
unfolding writable prependable readable peek copy_to resize
make_space len b =
    if ltb (writable b + prependable b) len
    then record b { bytes = resize (b.writer + len) b.bytes }
    else record { bytes = copy_to b.bytes 0 (peek b (readable b)); reader = 0; writer = readable b }

unfoldable pub ensure_writable : ℕ → Buffer → Buffer
unfolding writable
ensure_writable len b = if ltb (writable b) len then make_space len b else b

-- `std::copy` to `beginWrite()`, and the advance of `writerIndex_`.
unfoldable pub write_bytes : List ℕ → Buffer → Buffer
unfolding copy_to
write_bytes src b = record b {
  bytes = copy_to b.bytes b.writer src;
  writer = b.writer + length src;
}

unfoldable pub append : List ℕ → Buffer → Buffer
unfolding write_bytes ensure_writable make_space
append src b = write_bytes src (ensure_writable (length src) b)

-- The room that `readFd` offers to `readv`: the buffer's own, and `extrabuf` if that is less.
unfoldable pub read_room : Buffer → ℕ
unfolding writable
read_room b = if ltb (writable b) extra_size then writable b + extra_size else writable b

-- `readv` fills the buffer's own room first, then `extrabuf`. The number is `n`, none for -1.
unfoldable pub read_fd : Option (List ℕ) → Buffer → Option ℕ × Buffer
read_fd none b = (none, b)
read_fd (some got) b =
    let filled = copy_to b.bytes b.writer (take (writable b) got) in
    if leb (length got) (writable b)
    then (some (length got), record b { bytes = filled; writer = b.writer + length got })
    else (
      some (length got),
      append (drop (writable b) got) (record b { bytes = filled; writer = length b.bytes }),
    )

-- `write` is offered the readable bytes and takes some of them.
unfoldable pub write_fd : (List ℕ → Option ℕ) → Buffer → Option ℕ
write_fd kernel b = kernel (peek b (readable b))
