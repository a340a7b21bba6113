-- ===== src/Rpc/Caller/Counts.antt =====
-- How many effects pass a test, against the calls that an answer or the destructor can end.
use gd_rpc.Base.{
  ℕ, ◌≡◌, ◌+◌, ◌≤◌, refl, List, [], ◌∷◌, ◌++◌, Bool, false, some, arith, if◌then◌else◌, lookup,
  insert, erase, Option-cases, inl, inr,
}
use gd_rpc.Rpc.Header.{MessageType, request, response, cancel, heartbeat, RpcHeader, empty_header}
use gd_rpc.Rpc.Caller.{
  OutstandingCall, Caller, Effect, sent, call_method, finish, on_response, on_rpc_header, Event,
  calls, receives, step, run,
}

abbrev pub count : (Effect → Bool) → List Effect → ℕ
count p [] = 0
count p (e ∷ es) = (if p e then 1 else 0) + count p es

pub count-append :
    (p : Effect → Bool) (es fs : List Effect) → count p (es ++ fs) ≡ count p es + count p fs
count-append p [] fs = omega arith
count-append p (e ∷ es) fs = omega (arith, count-append p es fs)

-- Over the outstanding calls, and over the calls of a list of events.
abbrev pub sum_calls : (OutstandingCall → ℕ) → List (ℕ × OutstandingCall) → ℕ
sum_calls u [] = 0
sum_calls u ((_, out) ∷ m) = u out + sum_calls u m

abbrev pub sum_events : (OutstandingCall → ℕ) → List Event → ℕ
sum_events u [] = 0
sum_events u (calls m req out ∷ es) = u out + sum_events u es
sum_events u (receives h p ∷ es) = sum_events u es

sum_events-cons :
    (u : OutstandingCall → ℕ) (e : Event) (es : List Event)
    → sum_events u (e ∷ es) ≡ sum_events u (e ∷ []) + sum_events u es
sum_events-cons u (calls m req out) es = omega arith
sum_events-cons u (receives h p) es = omega arith

module _ (u : OutstandingCall → ℕ) where
  sum_calls-insert :
      (id : ℕ) (out : OutstandingCall) (m : List (ℕ × OutstandingCall))
      → sum_calls u (insert id out m) ≤ u out + sum_calls u m
  sum_calls-insert id out [] = omega arith
  sum_calls-insert id out ((j, o) ∷ m) = ground (arith, sum_calls-insert id out m)

  sum_calls-erase_le :
      (id : ℕ) (m : List (ℕ × OutstandingCall)) → sum_calls u (erase id m) ≤ sum_calls u m
  sum_calls-erase_le id [] = omega arith
  sum_calls-erase_le id ((j, o) ∷ m) = ground (arith, sum_calls-erase_le id m)

  sum_calls-erase :
      (id : ℕ) (out : OutstandingCall) (m : List (ℕ × OutstandingCall))
      → lookup id m ≡ some out
      → u out + sum_calls u (erase id m) ≤ sum_calls u m
  sum_calls-erase id out [] h = cc
  sum_calls-erase id out ((j, o) ∷ m) h =
      ground (arith, h, sum_calls-erase id out m, sum_calls-erase_le id m)

-- A test of effects, and how many effects of a call that is ended pass it.
module _ (p : Effect → Bool) (u : OutstandingCall → ℕ)
    (ends : (out : OutstandingCall) (payload : List ℕ) → count p (finish out payload) ≡ u out)
    (sends : (h : RpcHeader) (req : ℕ) → p (sent h req) ≡ false) where
  on_response-count :
      (id : ℕ) (payload : List ℕ) (c : Caller)
      → let (es, c') = on_response id payload c in
        count p es + sum_calls u c'.outstandings ≤ sum_calls u c.outstandings
  unfolding on_response
  on_response-count id payload c = elim (Option-cases (lookup id c.outstandings)) [
    | inl n ↦ rw (n, on_response) (omega arith)
    | inr (out, n) ↦
        rw (n, on_response, ends out payload) (sum_calls-erase u id out c.outstandings n)
  ]

  on_rpc_header-count :
      (t : MessageType) (h : RpcHeader) (payload : List ℕ) (c : Caller)
      → h.message_type ≡ t
      → let (es, c') = on_rpc_header h payload c in
        count p es + sum_calls u c'.outstandings ≤ sum_calls u c.outstandings
  unfolding on_rpc_header
  on_rpc_header-count request h payload c e = rw (e, on_rpc_header) (omega arith)
  on_rpc_header-count response h payload c e =
      rw (e, on_rpc_header) (on_response-count h.msg_id payload c)
  on_rpc_header-count cancel h payload c e = rw (e, on_rpc_header) (omega arith)
  on_rpc_header-count heartbeat h payload c e = rw (e, on_rpc_header) (omega arith)

  step-count :
      (e : Event) (c : Caller)
      → let (es, c') = step e c in
        count p es + sum_calls u c'.outstandings
        ≤ sum_calls u c.outstandings + sum_events u (e ∷ [])
  unfolding step call_method
  step-count (calls m req out) c =
      let h : RpcHeader = record empty_header {
        message_type = request;
        msg_id = c.id;
        service_name = m.service_name;
        method_name = m.name;
      } in
      rw (sends h req) (omega (arith, sum_calls-insert u c.id out c.outstandings))
  step-count (receives h payload) c =
      omega (arith, on_rpc_header-count h.message_type h payload c refl)

  pub run-count :
      (es : List Event) (c : Caller)
      → let (fs, c') = run es c in
        count p fs + sum_calls u c'.outstandings ≤ sum_calls u c.outstandings + sum_events u es
  unfolding run
  run-count [] c = omega arith
  run-count (e ∷ es) c = omega (
    arith,
    count-append p (step e c).0 (run es (step e c).1).0,
    step-count e c,
    run-count es (step e c).1,
    sum_events-cons u e es,
  )
