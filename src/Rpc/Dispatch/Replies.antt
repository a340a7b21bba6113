-- ===== src/Rpc/Dispatch/Replies.antt =====
-- Which requests are called, and which responses are sent.
use gd_rpc.Base.{
  ℕ, zero, suc, ◌≡◌, ◌+◌, refl, List, [], ◌∷◌, ◌++◌, Bool, true, Option, none, some, arith,
  if◌then◌else◌, ◌⊎◌, inl, inr, Bool-cases, Option-cases, ap, ◌≢◌,
}
use gd_rpc.Rpc.Header.{
  MessageType, request, response, cancel, heartbeat, ErrorCode, no_error, RpcHeader,
}
use gd_rpc.Text.{lookup_text}
use gd_rpc.Rpc.Dispatch.{
  Service, Reply, Effect, called, sent, Server, on_request, on_rpc_header, call_service,
  find_service, send_rpc_response, taken, Event, receives, completes, step, run,
}

-- How many of a list's replies satisfy a test.
abbrev pub count : (Reply → Bool) → List Reply → ℕ
count p [] = 0
count p (r ∷ rs) = (if p r then 1 else 0) + count p rs

-- The replies that the calls of a list of effects hand over, and those that it sends.
abbrev pub handed : List Effect → List Reply
handed [] = []
handed (called svc m payload r ∷ es) = r ∷ handed es
handed (sent conn h r ∷ es) = handed es

abbrev pub answers : List Effect → List Reply
answers [] = []
answers (called svc m payload r ∷ es) = answers es
answers (sent conn h r ∷ es) = record { response = r; id = h.msg_id; conn = conn } ∷ answers es

count-append :
    (p : Reply → Bool) (xs ys : List Reply) → count p (xs ++ ys) ≡ count p xs + count p ys
count-append p [] ys = omega arith
count-append p (x ∷ xs) ys = ground (arith, count-append p xs ys)

handed-append : (xs ys : List Effect) → handed (xs ++ ys) ≡ handed xs ++ handed ys
handed-append [] ys = refl
handed-append (called svc m payload r ∷ xs) ys = ap (λ l. r ∷ l) (handed-append xs ys)
handed-append (sent conn h r ∷ xs) ys = handed-append xs ys

answers-append : (xs ys : List Effect) → answers (xs ++ ys) ≡ answers xs ++ answers ys
answers-append [] ys = refl
answers-append (called svc m payload r ∷ xs) ys = answers-append xs ys
answers-append (sent conn h r ∷ xs) ys =
    ap (λ l. record { response = r; id = h.msg_id; conn = conn } ∷ l) (answers-append xs ys)

-- The balance of what is handed over, answered and pending.
abbrev Balanced : (Reply → Bool) → List Effect → List Reply → List Reply → Type 0
Balanced p es before after =
    count p (answers es) + count p after ≡ count p before + count p (handed es)

call_service-Balanced :
    (p : Reply → Bool) (found : ErrorCode × Option (Service × ℕ)) (r : Reply) (payload : List ℕ)
    (s : Server)
    → let (_, es, s') = call_service found r payload s in Balanced p es s.pending s'.pending
call_service-Balanced p (error, none) r payload s = omega arith
call_service-Balanced p (error, some (svc, m)) r payload s =
    ground (arith, count-append p s.pending (r ∷ []))

on_rpc_header-Balanced :
    (p : Reply → Bool) (conn : ℕ) (h : RpcHeader) (payload : List ℕ) (r : ℕ) (s : Server)
    → let (es, s') = on_rpc_header conn h payload r s in Balanced p es s.pending s'.pending
unfolding on_rpc_header on_request
on_rpc_header-Balanced p conn h payload r s = go h.message_type refl
  where
    go :
        (t : MessageType)
        → h.message_type ≡ t
        → let (es, s') = on_rpc_header conn h payload r s in Balanced p es s.pending s'.pending
    go request e =
        rw (e, on_rpc_header)
          (call_service-Balanced p (find_service h payload (lookup_text h.service_name s.services))
            (record { response = r; id = h.msg_id; conn = conn }) payload s)
    go response e = rw (e, on_rpc_header) (omega arith)
    go cancel e = rw (e, on_rpc_header) (omega arith)
    go heartbeat e = rw (e, on_rpc_header) (omega arith)

count-taken :
    (p : Reply → Bool) (i : ℕ) (rs : List Reply) (r : Reply) (qs : List Reply)
    → taken i rs ≡ some (r, qs)
    → count p rs ≡ (if p r then 1 else 0) + count p qs
count-taken p i [] r qs e = cc
count-taken p zero (x ∷ rs) r qs e = ground arith
count-taken p (suc i) (x ∷ rs) r qs e = elim (Option-cases (taken i rs)) [
  | inl n ↦ ground (arith, n)
  | inr ((y, ys), n) ↦ ground (arith, n, count-taken p i rs y ys n)
]

step-Balanced :
    (p : Reply → Bool) (e : Event) (s : Server)
    → let (es, s') = step e s in Balanced p es s.pending s'.pending
unfolding step send_rpc_response
step-Balanced p (receives conn h payload r) s = on_rpc_header-Balanced p conn h payload r s
step-Balanced p (completes i) s = elim (Option-cases (taken i s.pending)) [
  | inl n ↦ rw n (omega arith)
  | inr ((r, rs), n) ↦ rw n (ground (arith, count-taken p i s.pending r rs n))
]

-- Whatever a server receives, and in whatever order its services complete: for every test of
-- replies, those sent that pass it and those pending that pass it are together as many as those
-- that were pending at first and those that the calls handed to services. So no reply is lost,
-- and none is sent twice.
pub run-Balanced :
    (p : Reply → Bool) (es : List Event) (s : Server)
    → let (fs, s') = run es s in
      count p (answers fs) + count p s'.pending ≡ count p s.pending + count p (handed fs)
unfolding run
run-Balanced p [] s = omega arith
run-Balanced p (e ∷ es) s =
    let (xs, s1) = step e s in
    let (ys, s2) = run es s1 in
    rw (answers-append xs ys, handed-append xs ys)
      (ground (
        arith,
        count-append p (answers xs) (answers ys),
        count-append p (handed xs) (handed ys),
        step-Balanced p e s,
        run-Balanced p es s1,
      ))

-- The service and the method that a request names, and which takes its payload.
abbrev pub Names : RpcHeader → List ℕ → Server → Service → ℕ → Type 0
Names h payload s svc m =
    (lookup_text h.service_name s.services ≡ some svc)
    × (svc.find_method h.method_name ≡ some m)
    × (svc.parses m payload ≡ true)

-- A request that names a registered service and a method of it that takes the payload calls that
-- method, once, with a reply to the request's connection and id. Any other request calls nothing,
-- leaves the server as it is and has an error, of which the client is not told.
pub on_request_lem :
    (conn : ℕ) (h : RpcHeader) (payload : List ℕ) (r : ℕ) (s : Server)
    → let (error, es, s') = on_request conn h payload r s in
      let reply : Reply = record { response = r; id = h.msg_id; conn = conn } in
      ((svc : Service) × (m : ℕ) × Names h payload s svc m
        × (error ≡ no_error)
        × (es ≡ called svc m payload reply ∷ [])
        × (s' ≡ record s { pending = s.pending ++ (reply ∷ []) }))
      ⊎ (((svc : Service) (m : ℕ) → ¬ Names h payload s svc m)
          × (error ≢ no_error)
          × (es ≡ [])
          × (s' ≡ s))
unfolding on_request
on_request_lem conn h payload r s = elim (Option-cases (lookup_text h.service_name s.services)) [
  | inl n ↦ rw n (inr (λ svc m k. cc, λ e. cc, refl, refl))
  | inr (svc, n) ↦ elim (Option-cases (svc.find_method h.method_name)) [
    | inl f ↦ rw (n, f) (inr (λ svc' m k. cc, λ e. cc, refl, refl))
    | inr (m, f) ↦ elim (Bool-cases (svc.parses m payload)) [
      | inl q ↦ rw (n, f, q) (inl (svc, m, (refl, f, q), refl, refl, refl))
      | inr q ↦ rw (n, f, q) (inr (λ svc' m' k. cc, λ e. cc, refl, refl))
    ]
  ]
]
