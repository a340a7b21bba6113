-- ===== src/Net/Connection/Stream.antt =====
-- The bytes that a connection sends over its life: none is lost, repeated or reordered.
use gd_rpc.Base.{
  ℕ, ◌≤◌, ◌≡◌, refl, sym, ap, ◌∙◌, List, [], ◌∷◌, ◌++◌, Bool, true, false, ◌&&◌, not, ◌||◌, Option,
  none, some, ltb, ◌==◌, if◌then◌else◌, Bool-cases, inl, inr, append-nil, append_assoc,
  take-append-drop,
}
use gd_rpc.Net.Buffer.{Buffer, readable, peek, retrieve}
use gd_rpc.Net.Buffer.Laws.{IsValid, contents, retrieve-IsValid, peek-take, retrieve-drop}
use gd_rpc.Net.Connection.{
  shutdown_later, disconnecting, Connection, write_closed, queued, Wrote, Outcome, is_connected,
  is_disconnecting, only_if, taken, write_complete, shutdown_in_loop, shutdown, connect_destroyed,
  drained, write_some, handle_close, handle_read, handle_write, force_close, force_close_in_loop,
  Event, sends, runs_send, shuts, runs_shutdown, forces, runs_force, destroys, reads, writes, step,
  run,
}
use gd_rpc.Net.Connection.Sending.{
  sent, sent-append, Kept, accepted, untouched, send_in_loop-Kept, send-Kept, offered,
}

drained-quiet : (c : Connection) → sent (drained c).0 ≡ []
unfolding drained shutdown_in_loop
drained-quiet c = go c.write_complete_set (is_disconnecting c.state)
  where
    go :
        (a b : Bool)
        → sent (
            only_if a (queued write_complete ∷ [])
            ++ (if b then only_if true (write_closed ∷ []) else []))
          ≡ []
    go true true = refl
    go true false = refl
    go false true = refl
    go false false = refl

output-drained : (c : Connection) → (drained c).1.output ≡ c.output
unfolding drained
output-drained c = refl

write_some-Kept :
    (n : ℕ) (c : Connection) → IsValid c.output → n ≤ readable c.output → Kept [] c (write_some n c)
unfolding write_some
write_some-Kept n c v h = elim (Bool-cases (readable b == 0)) [
  | inl t ↦ rw t (
    rw (output-drained (record c { output = b })) (retrieve-IsValid n c.output v),
    rw
        (
          output-drained (record c { output = b }),
          drained-quiet (record c { output = b }),
          append-nil (peek c.output n),
        )
        whole,
  )
  | inr t ↦ rw t (retrieve-IsValid n c.output v, rw (append-nil (peek c.output n)) whole)
]
  where
    b : Buffer
    b = (retrieve n c.output).1

    whole : peek c.output n ++ contents (retrieve n c.output).1 ≡ contents c.output ++ []
    whole =
        rw (peek-take n c.output h, retrieve-drop n c.output v h, append-nil (contents c.output))
          (take-append-drop n (contents c.output))

handle_write-Kept : (r : Wrote) (c : Connection) → IsValid c.output → Kept [] c (handle_write r c)
unfolding handle_write
handle_write-Kept r c v =
    elim (Bool-cases (c.events.writes && ltb 0 (taken r (peek c.output (readable c.output))))) [
      | inl t ↦ rw t (write_some-Kept _ c v (offered r c v))
      | inr t ↦ rw t (untouched c v)
    ]

either :
    (c : Connection) (b : Bool) (x y : Outcome)
    → Kept [] c x
    → Kept [] c y
    → Kept [] c (if b then x else y)
either c true x y h k = h
either c false x y h k = k

shutdown_in_loop-Kept : (c : Connection) → IsValid c.output → Kept [] c (shutdown_in_loop c)
unfolding shutdown_in_loop
shutdown_in_loop-Kept c v = go (not c.events.writes)
  where
    go : (b : Bool) → Kept [] c (only_if b (write_closed ∷ []), c)
    go true = untouched c v
    go false = untouched c v

shutdown-Kept : (l : Bool) (c : Connection) → IsValid c.output → Kept [] c (shutdown l c)
unfolding shutdown
shutdown-Kept l c v = either c (is_connected c.state) _ _ (go l) (untouched c v)
  where
    c' : Connection
    c' = record c { state = disconnecting }

    go :
        (l : Bool) → Kept [] c (if l then shutdown_in_loop c' else (queued shutdown_later ∷ [], c'))
    go true = shutdown_in_loop-Kept c' v
    go false = untouched c v

handle_read-Kept :
    (r : Option (List ℕ)) (c : Connection) → IsValid c.output → Kept [] c (handle_read r c)
unfolding handle_read handle_close
handle_read-Kept none c v = untouched c v
handle_read-Kept (some []) c v = untouched c v
handle_read-Kept (some (b ∷ bs)) c v = untouched c v

step-Kept : (e : Event) (c : Connection) → IsValid c.output → Kept (accepted e c) c (step e c)
unfolding step force_close force_close_in_loop handle_close connect_destroyed
step-Kept (sends l r s) c v = send-Kept l r s c v
step-Kept (runs_send r s) c v = send_in_loop-Kept r s c v
step-Kept (shuts l) c v = shutdown-Kept l c v
step-Kept runs_shutdown c v = shutdown_in_loop-Kept c v
step-Kept forces c v = either c (is_connected c.state) _ _ (untouched c v) (untouched c v)
step-Kept runs_force c v =
    either c (is_connected c.state || is_disconnecting c.state) _ _ (untouched c v) (untouched c v)
step-Kept destroys c v =
    either c (is_connected c.state || is_disconnecting c.state) _ _ (untouched c v) (untouched c v)
step-Kept (reads r) c v = handle_read-Kept r c v
step-Kept (writes r) c v = handle_write-Kept r c v

-- The bytes that a sequence of events takes over.
abbrev pub all_accepted : List Event → Connection → List ℕ
all_accepted [] c = []
all_accepted (e ∷ es) c = accepted e c ++ all_accepted es (step e c).1

regroup :
    (a b x q1 q2 q0 s t : List ℕ)
    → x ≡ a ++ b
    → a ++ q1 ≡ q0 ++ s
    → b ++ q2 ≡ q1 ++ t
    → x ++ q2 ≡ q0 ++ (s ++ t)
regroup a b x q1 q2 q0 s t e h k =
    ap (λ y. y ++ q2) e
    ∙ append_assoc a b q2
    ∙ ap (◌++◌ a) k
    ∙ sym (append_assoc a q1 t)
    ∙ ap (λ y. y ++ t) h
    ∙ append_assoc q0 s t

-- Whatever happens to a connection whose output buffer's indices are in order and in range, in
-- whatever order, the bytes written to the socket, followed by those that are readable in the
-- output buffer, are those that were in the buffer at first, followed by the bytes that each send
-- on the loop's thread took over, in order; and the indices stay in order and in range. A send
-- takes nothing over if the connection is closed by then, or if its direct write finds the peer
-- gone.
pub run_stream :
    (es : List Event) (c : Connection)
    → IsValid c.output
    → let (fs, c') = run es c in
      IsValid c'.output × (sent fs ++ contents c'.output ≡ contents c.output ++ all_accepted es c)
unfolding run
run_stream [] c v = untouched c v
run_stream (e ∷ es) c v =
    let (v1, k1) = step-Kept e c v in
    let (v2, k2) = run_stream es (step e c).1 v1 in
    (
      v2,
      regroup _ (sent (run es (step e c).1).0) _ (contents (step e c).1.output) _
          (contents c.output) (accepted e c) _ (sent-append (step e c).0 (run es (step e c).1).0) k1
          k2,
    )
