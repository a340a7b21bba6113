-- ===== src/Net/Buffer/Laws.antt =====
-- The indices of a buffer stay in order and in range, and its readable bytes are a byte queue.
use gd_rpc.Base.{
  ℕ, ◌+◌, ◌-◌, ◌≤◌, ◌≡◌, refl, sym, ap, ◌∙◌, inl, inr, List, ◌++◌, Bool, true, false, some, min,
  arith, ltb, leb, if◌then◌else◌, Bool-cases, length, take, drop, append_assoc, take-append-drop,
  length-append, length-take, length-drop, take_all, drop_all, take-take, Bool, length-append,
}
use gd_rpc.Net.Buffer.{
  Buffer, readable, writable, prependable, peek, copy_to, resize, retrieve, make_space,
  ensure_writable, write_bytes, append, read_fd,
}
use gd_rpc.Net.Buffer.Window.{
  window, window_lem, length-window, length-copy_to, window-copy_to, window-copy_to_front,
  window-drop, window_self, window-resize, length-resize,
}

pub record IsValid (b : Buffer) : Type 0 where
  pub ordered : b.reader ≤ b.writer
  pub within : b.writer ≤ length b.bytes

-- The readable bytes, oldest first.
pub contents : Buffer → List ℕ
contents b = window b.bytes b.reader b.writer

pub peek-contents : (b : Buffer) → peek b (readable b) ≡ contents b
unfolding peek readable contents
peek-contents b = sym (window_lem b.bytes b.reader b.writer)

pub length-contents : {b : Buffer} → IsValid b → length (contents b) ≡ readable b
unfolding contents readable
length-contents {b} v = length-window b.bytes b.reader b.writer v.ordered v.within

-- What `makeSpace` promises, with room for `len` bytes.
pub record Roomy (len : ℕ) (b b' : Buffer) : Type 0 where
  pub valid : IsValid b'
  pub same : contents b' ≡ contents b
  pub room : b'.writer + len ≤ length b'.bytes

grow-Roomy :
    (len : ℕ) (b : Buffer)
    → IsValid b
    → ltb (writable b + prependable b) len ≡ true
    → Roomy len b (record b { bytes = resize (b.writer + len) b.bytes })
unfolding writable prependable contents
grow-Roomy len b v t = record {
  valid = omega (arith, length-resize (b.writer + len) b.bytes);
  same = window-resize b.bytes (b.writer + len) b.reader b.writer v.ordered v.within (ground arith);
  room = omega (arith, length-resize (b.writer + len) b.bytes);
}

moved-Roomy :
    (len : ℕ) (b : Buffer) (c : List ℕ)
    → IsValid b
    → len ≤ writable b + prependable b
    → length c ≡ readable b
    → c ≡ contents b
    → Roomy len b (record { bytes = copy_to b.bytes 0 c; reader = 0; writer = readable b })
unfolding writable prependable readable contents
moved-Roomy len b c v t e s = record {
  valid = omega (arith, length-copy_to b.bytes 0 c);
  same = window-copy_to_front b.bytes (b.writer - b.reader) c (omega arith) (sym e) ∙ s;
  room = omega (arith, length-copy_to b.bytes 0 c);
}

compact-Roomy :
    (len : ℕ) (b : Buffer)
    → IsValid b
    → ltb (writable b + prependable b) len ≡ false
    → Roomy len b (record {
      bytes = copy_to b.bytes 0 (peek b (readable b));
      reader = 0;
      writer = readable b;
    })
compact-Roomy len b v t =
    moved-Roomy len b (peek b (readable b)) v (ground arith)
      (ap length (peek-contents b) ∙ length-contents v) (peek-contents b)

pub make_space-Roomy : (len : ℕ) (b : Buffer) → IsValid b → Roomy len b (make_space len b)
unfolding make_space
make_space-Roomy len b v = elim (Bool-cases (ltb (writable b + prependable b) len)) [
  | inl t ↦ rw t (grow-Roomy len b v t)
  | inr t ↦ rw t (compact-Roomy len b v t)
]

pub ensure_writable-Roomy : (len : ℕ) (b : Buffer) → IsValid b → Roomy len b (ensure_writable len b)
unfolding ensure_writable
ensure_writable-Roomy len b v = elim (Bool-cases (ltb (writable b) len)) [
  | inl t ↦ rw t (make_space-Roomy len b v)
  | inr t ↦ rw t (record { valid = v; same = refl; room = ground arith })
]

pub write_bytes-IsValid :
    (src : List ℕ) (b : Buffer)
    → IsValid b
    → b.writer + length src ≤ length b.bytes
    → IsValid (write_bytes src b)
unfolding write_bytes
write_bytes-IsValid src b v h = omega (arith, length-copy_to b.bytes b.writer src)

pub contents-write_bytes :
    (src : List ℕ) (b : Buffer)
    → IsValid b
    → b.writer + length src ≤ length b.bytes
    → contents (write_bytes src b) ≡ contents b ++ src
unfolding write_bytes contents
contents-write_bytes src b v h = window-copy_to b.bytes b.reader b.writer src v.ordered h

-- `append` keeps the indices in order.
pub append-IsValid : (src : List ℕ) (b : Buffer) → IsValid b → IsValid (append src b)
unfolding append
append-IsValid src b v =
    let r = ensure_writable-Roomy (length src) b v in
    write_bytes-IsValid src (ensure_writable (length src) b) r.valid r.room

pub contents-append :
    (src : List ℕ) (b : Buffer) → IsValid b → contents (append src b) ≡ contents b ++ src
unfolding append
contents-append src b v =
    let r = ensure_writable-Roomy (length src) b v in
    contents-write_bytes src (ensure_writable (length src) b) r.valid r.room
    ∙ ap (λ c. c ++ src) r.same

pub retrieve-IsValid : (len : ℕ) (b : Buffer) → IsValid b → IsValid (retrieve len b).1
unfolding retrieve
retrieve-IsValid len b v = ground arith

-- What `retrieve` does to the readable bytes, on its three branches.
pub contents-retrieve :
    (len : ℕ) (b : Buffer)
    → IsValid b
    → ((retrieve len b).0 ≡ leb len (length (contents b)))
      × (contents (retrieve len b).1
          ≡ (if leb len (length (contents b)) then drop len (contents b) else contents b))
unfolding retrieve contents
contents-retrieve len b v = ground (
  arith,
  length-window b.bytes b.reader b.writer v.ordered v.within,
  window-drop b.bytes b.reader len b.writer,
  window_self b.bytes 0,
  drop_all len (window b.bytes b.reader b.writer),
)

-- The bytes `src` stand behind the readable ones, and `writerIndex_` is moved past them.
advanced :
    (b : Buffer) (src : List ℕ) (n : ℕ)
    → IsValid b
    → n ≡ b.writer + length src
    → b.writer + length src ≤ length b.bytes
    → let b' = record b { bytes = copy_to b.bytes b.writer src; writer = n } in
      IsValid b' × (contents b' ≡ contents b ++ src)
unfolding write_bytes
advanced b src n v e h = rw e (write_bytes-IsValid src b v h, contents-write_bytes src b v h)

-- What `readFd` keeps of a successful `readv`: all of it, in order, behind what was there.
pub read_fd-appends :
    (b : Buffer) (got : List ℕ)
    → IsValid b
    → ((read_fd (some got) b).0 ≡ some (length got))
      × IsValid (read_fd (some got) b).1
      × (contents (read_fd (some got) b).1 ≡ contents b ++ got)
unfolding read_fd writable
read_fd-appends b got v = elim (Bool-cases (leb (length got) (length b.bytes - b.writer))) [
  | inl t ↦
      let step =
        advanced b first (b.writer + length got) v (ground (arith, len)) (ground (arith, len)) in
      rw t (refl, step.0, step.1 ∙ ap (◌++◌ (contents b)) (take_all room got (ground arith)))
  | inr t ↦
      let step =
        advanced b first (length b.bytes) v (ground (arith, len, v.within)) (ground (arith, len)) in
      rw t (
        refl,
        append-IsValid (drop room got) _ step.0,
        contents-append (drop room got) _ step.0
            ∙ ap (λ c. c ++ drop room got) step.1
            ∙ append_assoc (contents b) first (drop room got)
            ∙ ap (◌++◌ (contents b)) (take-append-drop room got),
      )
]
  where
    room : ℕ
    room = length b.bytes - b.writer

    first : List ℕ
    first = take room got

    len : length first ≡ min room (length got)
    len = length-take room got

-- A part of the readable bytes is handed out and then dropped.
pub peek-take : (n : ℕ) (b : Buffer) → n ≤ readable b → peek b n ≡ take n (contents b)
unfolding peek readable
peek-take n b h =
    sym (take-take n (b.writer - b.reader) (drop b.reader b.bytes) h)
    ∙ ap (take n) (peek-contents b)

pub retrieve-drop :
    (n : ℕ) (b : Buffer)
    → IsValid b
    → n ≤ readable b
    → contents (retrieve n b).1 ≡ drop n (contents b)
retrieve-drop n b v h =
    let fits : leb n (length (contents b)) ≡ true = ground (arith, length-contents v) in
    (contents-retrieve n b v).1
    ∙ ap (λ (t : Bool). if t then drop n (contents b) else contents b) fits

pub readable-append :
    (src : List ℕ) (b : Buffer) → IsValid b → readable (append src b) ≡ readable b + length src
readable-append src b v = omega (
  arith,
  length-contents (append-IsValid src b v),
  ap length (contents-append src b v),
  length-append (contents b) src,
  length-contents v,
)

pub readable-retrieve :
    (n : ℕ) (b : Buffer) → IsValid b → n ≤ readable b → readable (retrieve n b).1 ≡ readable b - n
readable-retrieve n b v h = omega (
  arith,
  length-contents (retrieve-IsValid n b v),
  ap length (retrieve-drop n b v h),
  length-drop n (contents b),
  length-contents v,
)
