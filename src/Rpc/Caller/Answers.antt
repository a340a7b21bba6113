-- ===== src/Rpc/Caller/Answers.antt =====
-- Which call an answer ends.
use gd_rpc.Base.{
  ℕ, ◌≡◌, ◌≢◌, refl, List, [], ◌∷◌, Option, none, some, lookup, insert, lookup-insert, lookup-erase,
  arith, ◌==◌, if◌then◌else◌, true, false, ap, ◌∙◌, sym, Bool, ◌&&◌, Option-cases, inl, inr,
}
use gd_rpc.Rpc.Header.{MessageType, request, response, cancel, heartbeat, RpcHeader}
use gd_rpc.Rpc.Caller.{
  OutstandingCall, Caller, Method, Effect, parsed_into, ran, deleted_message, call_method, finish,
  on_response, on_rpc_header, Event, calls, receives, step, run,
}

abbrev pub is_response : MessageType → Bool
is_response response = true
is_response _ = false

-- The outstanding call that a message answers.
abbrev pub answered : RpcHeader → Caller → Option OutstandingCall
answered h c = if is_response h.message_type then lookup h.msg_id c.outstandings else none

-- What ending a call does, by the pointers that it holds.
abbrev pub call_finished : Option ℕ → Option ℕ → List ℕ → List Effect
call_finished none closure payload = []
call_finished (some r) none payload = parsed_into r payload ∷ deleted_message r ∷ []
call_finished (some r) (some k) payload = parsed_into r payload ∷ ran k ∷ deleted_message r ∷ []

abbrev pub finished : Option OutstandingCall → List ℕ → List Effect
finished none payload = []
finished (some out) payload = call_finished out.response out.done payload

pub finish_lem :
    (out : OutstandingCall) (payload : List ℕ) → finish out payload ≡ finished (some out) payload
finish_lem out payload = elim (Option-cases out.response) [
  | inl n ↦ rw n refl
  | inr (r, n) ↦ elim (Option-cases out.done) [
    | inl m ↦ rw (n, m) refl
    | inr (k, m) ↦ rw (n, m) refl
  ]
]

on_response_lem :
    (id : ℕ) (payload : List ℕ) (c : Caller)
    → let (es, c') = on_response id payload c in
      (es ≡ finished (lookup id c.outstandings) payload)
      × ((j : ℕ) → lookup j c'.outstandings ≡ (if id == j then none else lookup j c.outstandings))
      × (c'.id ≡ c.id)
unfolding on_response
on_response_lem id payload c = elim (Option-cases (lookup id c.outstandings)) [
  | inl n ↦ rw (n, on_response) (refl, λ j. ground (arith, n), refl)
  | inr (out, n) ↦
      rw (n, on_response) (finish_lem out payload, λ j. lookup-erase id j c.outstandings, refl)
]

-- An answer to an outstanding call with a response is parsed into that response; then the call's
-- closure, if it has one, runs, once; then the response is deleted, and nothing else is done. For a
-- call without a response nothing is done, its closure is not run. Either way the call is outstanding
-- no longer, and every other call stays. An answer to no outstanding call does nothing, and so does a
-- message that is no answer. The id stays as it is.
pub on_rpc_header_lem :
    (h : RpcHeader) (payload : List ℕ) (c : Caller)
    → let (es, c') = on_rpc_header h payload c in
      (es ≡ finished (answered h c) payload)
      × ((j : ℕ)
          → lookup j c'.outstandings ≡ (
              if is_response h.message_type && h.msg_id == j
              then none
              else lookup j c.outstandings))
      × (c'.id ≡ c.id)
unfolding on_rpc_header
on_rpc_header_lem h payload c = go h.message_type refl
  where
    go :
        (t : MessageType)
        → h.message_type ≡ t
        → let (es, c') = on_rpc_header h payload c in
          (es ≡ finished (answered h c) payload)
          × ((j : ℕ)
              → lookup j c'.outstandings ≡ (
                  if is_response h.message_type && h.msg_id == j
                  then none
                  else lookup j c.outstandings))
          × (c'.id ≡ c.id)
    go request e = rw (e, on_rpc_header) (refl, λ j. refl, refl)
    go response e = rw (e, on_rpc_header) (on_response_lem h.msg_id payload c)
    go cancel e = rw (e, on_rpc_header) (refl, λ j. refl, refl)
    go heartbeat e = rw (e, on_rpc_header) (refl, λ j. refl, refl)

-- Only the id that is never advanced names an outstanding call.
abbrev pub IsSingle : Caller → Type 0
IsSingle c = (j : ℕ) → j ≢ c.id → lookup j c.outstandings ≡ none

step-IsSingle :
    (e : Event) (c : Caller) → IsSingle c → IsSingle (step e c).1 × ((step e c).1.id ≡ c.id)
unfolding step call_method
step-IsSingle (calls m req out) c s =
    (λ j h. ground (arith, lookup-insert c.id j out c.outstandings, s j h), refl)
step-IsSingle (receives r p) c s =
    let l = on_rpc_header_lem r p c in
    (λ j h. ground (arith, l.1 j, s j (λ e. h (e ∙ sym l.2))), l.2)

-- From a caller that has no call outstanding but under its current id, whatever it calls and
-- receives, that stays so, and the id stays the same: at most one call is outstanding at any
-- time.
pub run-IsSingle :
    (es : List Event) (c : Caller) → IsSingle c → IsSingle (run es c).1 × ((run es c).1.id ≡ c.id)
unfolding run
run-IsSingle [] c s = (s, refl)
run-IsSingle (e ∷ es) c s =
    let (s1, i1) = step-IsSingle e c s in
    let (s2, i2) = run-IsSingle es (step e c).1 s1 in (s2, i2 ∙ i1)

answered_last :
    (m1 m2 : Method) (r1 r2 : ℕ) (o1 o2 : OutstandingCall) (h : RpcHeader) (c : Caller)
    → h.message_type ≡ response
    → h.msg_id ≡ c.id
    → answered h (call_method m2 r2 o2 (call_method m1 r1 o1 c).1).1 ≡ some o2
unfolding call_method
answered_last m1 m2 r1 r2 o1 o2 h c t i =
    rw (t, i) (ground (arith, lookup-insert c.id c.id o2 (insert c.id o1 c.outstandings)))

answered_no_more :
    (h : RpcHeader) (payload : List ℕ) (c : Caller)
    → h.message_type ≡ response
    → answered h (on_rpc_header h payload c).1 ≡ none
answered_no_more h payload c t =
    let l = on_rpc_header_lem h payload c in ground (arith, l.1 h.msg_id, t)

-- Of two calls made before an answer, the first is lost: the first answer under the id that both
-- went out with ends the second, and the answer after it ends none.
pub call_method-lost :
    (m1 m2 : Method) (r1 r2 : ℕ) (o1 o2 : OutstandingCall) (h : RpcHeader) (p1 p2 : List ℕ)
    (c : Caller)
    → h.message_type ≡ response
    → h.msg_id ≡ c.id
    → let c2 = (call_method m2 r2 o2 (call_method m1 r1 o1 c).1).1 in
      let (es, c3) = on_rpc_header h p1 c2 in
      (es ≡ finished (some o2) p1) × ((on_rpc_header h p2 c3).0 ≡ [])
call_method-lost m1 m2 r1 r2 o1 o2 h p1 p2 c t i =
    let c2 = (call_method m2 r2 o2 (call_method m1 r1 o1 c).1).1 in
    let l = on_rpc_header_lem h p1 c2 in
    let l' = on_rpc_header_lem h p2 (on_rpc_header h p1 c2).1 in
    (
      l.0 ∙ ap (λ o. finished o p1) (answered_last m1 m2 r1 r2 o1 o2 h c t i),
      l'.0 ∙ ap (λ o. finished o p2) (answered_no_more h p1 c2 t),
    )
