-- ===== src/Net/Connection/Sending.antt =====
-- What `send` and `sendInLoop` do with the bytes that they are given.
use gd_rpc.Base.{
  ℕ, ◌-◌, ◌≤◌, ◌≡◌, refl, sym, ap, ◌∙◌, List, [], ◌∷◌, ◌++◌, Bool, true, false, ◌&&◌, not, ◌||◌,
  arith, ltb, ◌==◌, if◌then◌else◌, Bool-cases, inl, inr, length, take, drop, append-nil,
  append_assoc, take-append-drop, min, take_all,
}
use gd_rpc.Net.Buffer.{readable, peek}
use gd_rpc.Net.Buffer.Laws.{
  IsValid, contents, peek-contents, length-contents, append-IsValid, contents-append,
}
use gd_rpc.Net.Channel.{Change, enable_writing}
use gd_rpc.Net.Connection.{
  send_later, Connection, Effect, written, write_closed, changed, tied, removed, queued,
  connection_callback, message_callback, close_callback, Wrote, wrote, would_block, fault,
  other_error, Outcome, is_disconnected, is_connected, only_if, taken, is_fault, Work, keep_rest,
  write_first, write_complete, send_in_loop, send, Event, sends, runs_send,
}

-- The bytes that went to the socket.
abbrev pub sent : List Effect → List ℕ
sent [] = []
sent (written bs ∷ es) = bs ++ sent es
sent (write_closed ∷ es) = sent es
sent (changed k ∷ es) = sent es
sent (tied ∷ es) = sent es
sent (removed ∷ es) = sent es
sent (queued w ∷ es) = sent es
sent (connection_callback ∷ es) = sent es
sent (message_callback ∷ es) = sent es
sent (close_callback ∷ es) = sent es

pub sent-append : (xs ys : List Effect) → sent (xs ++ ys) ≡ sent xs ++ sent ys
sent-append [] ys = refl
sent-append (written bs ∷ es) ys =
    ap (◌++◌ bs) (sent-append es ys) ∙ sym (append_assoc bs (sent es) (sent ys))
sent-append (write_closed ∷ es) ys = sent-append es ys
sent-append (changed k ∷ es) ys = sent-append es ys
sent-append (tied ∷ es) ys = sent-append es ys
sent-append (removed ∷ es) ys = sent-append es ys
sent-append (queued w ∷ es) ys = sent-append es ys
sent-append (connection_callback ∷ es) ys = sent-append es ys
sent-append (message_callback ∷ es) ys = sent-append es ys
sent-append (close_callback ∷ es) ys = sent-append es ys

-- Whether the direct `write` is tried.
abbrev pub is_idle : Connection → Bool
is_idle c = not c.events.writes && readable c.output == 0

-- The bytes that a call of `sendInLoop` takes over: none once the connection is closed, or where the
-- direct `write` finds the peer gone.
abbrev pub taken_over : Wrote → List ℕ → Connection → List ℕ
taken_over r s c = if is_disconnected c.state || (is_idle c && is_fault r) then [] else s

-- The bytes that an event takes over.
abbrev pub accepted : Event → Connection → List ℕ
accepted (sends l r s) c = if is_connected c.state && l then taken_over r s c else []
accepted (runs_send r s) c = taken_over r s c
accepted _ c = []

-- The bytes go out in the order in which they came in, and those that did not go out are readable
-- in the output buffer.
abbrev pub Kept : List ℕ → Connection → Outcome → Type 0
Kept s c out = IsValid out.1.output × (sent out.0 ++ contents out.1.output ≡ contents c.output ++ s)

pub untouched :
    (c : Connection)
    → IsValid c.output
    → IsValid c.output × (contents c.output ≡ contents c.output ++ [])
untouched c v = (v, sym (append-nil (contents c.output)))

quiet_pair :
    (a b : Bool) (w : Work) (k : Change)
    → sent (only_if a (queued w ∷ []) ++ only_if b (changed k ∷ [])) ≡ []
quiet_pair true true w k = refl
quiet_pair true false w k = refl
quiet_pair false true w k = refl
quiet_pair false false w k = refl

keep_rest-Kept : (s : List ℕ) (c : Connection) → IsValid c.output → Kept s c (keep_rest s c)
unfolding keep_rest
keep_rest-Kept s c v = (
  append-IsValid s c.output v,
  rw (quiet_pair _ _ _ enable_writing) (contents-append s c.output v),
)

quiet_one : (a : Bool) (w : Work) → sent (only_if a (queued w ∷ [])) ≡ []
quiet_one true w = refl
quiet_one false w = refl

-- All of `s` goes to the buffer, behind nothing.
fresh_rest :
    (s : List ℕ) (c : Connection)
    → IsValid c.output
    → contents c.output ≡ []
    → sent (keep_rest s c).0 ++ contents (keep_rest s c).1.output ≡ s
fresh_rest s c v e = (keep_rest-Kept s c v).1 ∙ ap (λ q. q ++ s) e

write_some_first :
    (n : ℕ) (s : List ℕ) (c : Connection)
    → IsValid c.output
    → contents c.output ≡ []
    → Kept s c (write_first (wrote n) s c)
unfolding write_first
write_some_first n s c v e = elim (Bool-cases (ltb 0 (length s - m))) [
  | inl t ↦ rw t (
    (keep_rest-Kept (drop m s) c v).0,
    append_assoc (take m s) (sent (keep_rest (drop m s) c).0) _
        ∙ ap (◌++◌ (take m s)) (fresh_rest (drop m s) c v e)
        ∙ take-append-drop m s
        ∙ ap (λ q. q ++ s) (sym e),
  )
  | inr t ↦ rw t (
    v,
    ap
          (λ q.
            sent (written (take m s) ∷ only_if c.write_complete_set (queued write_complete ∷ []))
            ++ q)
          e
        ∙ append-nil _
        ∙ ap (◌++◌ (take m s)) (quiet_one c.write_complete_set write_complete)
        ∙ append-nil (take m s)
        ∙ take_all m s (ground arith)
        ∙ ap (λ q. q ++ s) (sym e),
  )
]
  where
    m : ℕ
    m = min n (length s)

nil_of_length : (s : List ℕ) → length s ≡ 0 → s ≡ []
nil_of_length [] h = refl
nil_of_length (x ∷ s) h = absurd (omega arith)

-- A direct `write` that failed for now leaves all to the buffer.
none_written :
    (s : List ℕ) (c : Connection)
    → IsValid c.output
    → contents c.output ≡ []
    → Kept s c (if ltb 0 (length s - 0) then keep_rest s c else ([], c))
none_written s c v e = elim (Bool-cases (ltb 0 (length s - 0))) [
  | inl t ↦ rw t (keep_rest-Kept s c v)
  | inr t ↦ rw t (
    v,
    sym (append-nil (contents c.output))
        ∙ ap (◌++◌ (contents c.output)) (sym (nil_of_length s (ground arith))),
  )
]

all-Kept :
    (r : Wrote) (s : List ℕ) (c : Connection)
    → IsValid c.output
    → contents c.output ≡ []
    → Kept (if is_fault r then [] else s) c (write_first r s c)
unfolding write_first
all-Kept (wrote n) s c v e = write_some_first n s c v e
all-Kept would_block s c v e = none_written s c v e
all-Kept fault s c v e = (v, sym (append-nil (contents c.output)))
all-Kept other_error s c v e = none_written s c v e

nothing_added : {q : List ℕ} (s : List ℕ) → length s ≡ 0 → q ≡ q ++ s
nothing_added {q} s h = sym (append-nil q) ∙ ap (◌++◌ q) (sym (nil_of_length s h))

empty_contents :
    (c : Connection) → IsValid c.output → readable c.output ≡ 0 → contents c.output ≡ []
empty_contents c v h = nil_of_length (contents c.output) (length-contents v ∙ h)

pub send_in_loop-Kept :
    (r : Wrote) (s : List ℕ) (c : Connection)
    → IsValid c.output
    → Kept (taken_over r s c) c (send_in_loop r s c)
unfolding send_in_loop
send_in_loop-Kept r s c v = elim (Bool-cases (is_disconnected c.state)) [
  | inl d ↦ rw d (untouched c v)
  | inr d ↦ elim (Bool-cases (not c.events.writes && readable c.output == 0)) [
    | inl i ↦ rw (d, i) (all-Kept r s c v (empty_contents c v (ground arith)))
    | inr i ↦ elim (Bool-cases (ltb 0 (length s))) [
      | inl t ↦ rw (d, i, t) (keep_rest-Kept s c v)
      | inr t ↦ rw (d, i, t) (v, nothing_added s (ground arith))
    ]
  ]
]

pub send-Kept :
    (l : Bool) (r : Wrote) (s : List ℕ) (c : Connection)
    → IsValid c.output
    → Kept (accepted (sends l r s) c) c (send l r s c)
unfolding send
send-Kept l r s c v = elim (Bool-cases (is_connected c.state)) [
  | inr d ↦ rw d (untouched c v)
  | inl d ↦ rw d (go l)
]
  where
    go :
        (l : Bool)
        → Kept
            (if l then taken_over r s c else [])
            c
            (if l then send_in_loop r s c else (queued (send_later s) ∷ [], c))
    go true = send_in_loop-Kept r s c v
    go false = untouched c v

taken-le : (r : Wrote) (s : List ℕ) → taken r s ≤ length s
taken-le (wrote n) s = omega arith
taken-le would_block s = omega arith
taken-le fault s = omega arith
taken-le other_error s = omega arith

-- The kernel takes no more than is offered to it.
pub offered :
    (r : Wrote) (c : Connection)
    → IsValid c.output
    → taken r (peek c.output (readable c.output)) ≤ readable c.output
offered r c v = omega (
  arith,
  taken-le r (peek c.output (readable c.output)),
  ap length (peek-contents c.output),
  length-contents v,
)
