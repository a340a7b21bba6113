-- ===== src/Net/TcpServer/Live.antt =====
-- What the map of connections promises: the connections accepted and not removed, by their number,
-- each on the loop whose turn it was.
use native.Mathlib.Nat.{suc-mod}
use gd_rpc.Base.{
  ℕ, zero, suc, ◌≡◌, ◌≤◌, ◌<◌, ◌+◌, ◌%◌, refl, sym, ap, ◌∙◌, subst, List, [], ◌∷◌, ◌++◌, Bool, true,
  Option, none, some, arith, length, if◌then◌else◌, lookup, insert, erase, lookup-insert,
  lookup-erase, get_elem?,
}
use gd_rpc.Text.{lookup_text, lookup_text-insert_text, lookup_text-erase_text}
use gd_rpc.Net.ThreadPool.{ThreadPool, get_next_loop, get_all_loops}
use gd_rpc.Net.ThreadPool.RoundRobin.{IsValid, get_next_loop_lem, mod_same}
use gd_rpc.Net.TcpServer.{
  ServerConnection, TcpServer, Effect, closed, conn_name, make_connection, add_connection, on_loop,
  new_connection, handle_read, remove_connection_in_loop, removed_connection, Event, accepts,
  removes, step, and_then, run,
}
use gd_rpc.Net.TcpServer.Names.{id_limit, bytes_eq-conn_name}

-- How many connections were accepted, and those that are alive, by their ids from 1.
pub record Live : Type 0 where
  pub accepted : ℕ
  pub live : List (ℕ × ServerConnection)

abbrev IsId : Event → Type 0
IsId (accepts r) = 0 ≤ 0
IsId (removes id l fd peer) = id < id_limit

abbrev pub AllIds : List Event → Type 0
AllIds [] = 0 ≤ 0
AllIds (e ∷ es) = IsId e × AllIds es

module _ (name_of : ℕ → List ℕ) (loops : List ℕ) where
  abbrev pub loop_of : ℕ → ℕ
  loop_of n = elim (get_elem? loops (n % length loops)) [ none ↦ 0 | some l ↦ l ]

  abbrev pub accepted_connection : ℕ → ℕ → ℕ → ServerConnection
  accepted_connection n fd peer = record {
    name = name_of (suc n);
    loop = loop_of n;
    fd = fd;
    peer = peer;
  }

  abbrev pub live_step : Event → Live → Live
  live_step (accepts none) a = a
  live_step (accepts (some (fd, peer))) a = record {
    accepted = suc a.accepted;
    live = insert (suc a.accepted) (accepted_connection a.accepted fd peer) a.live;
  }
  live_step (removes id l fd peer) a = record a { live = erase id a.live }

  abbrev pub live_run : List Event → Live → Live
  live_run [] a = a
  live_run (e ∷ es) a = live_run es (live_step e a)

  -- The server's pool and ids are in step with what was accepted, its map is the live connections
  -- under their names, and no id to come is in use.
  pub record Refines (s : TcpServer) (a : Live) : Type 0 where
    pub in_range : IsValid s.thread_pool
    pub same_loops : get_all_loops s.thread_pool ≡ loops
    pub in_turn : s.thread_pool.next ≡ a.accepted % length loops
    pub same_id : s.next_conn_id ≡ suc a.accepted
    pub names : (i : ℕ) → conn_name s i ≡ name_of i
    pub short : length s.address ≤ 21
    pub called : s.acceptor.callback_set ≡ true
    pub same_map :
        (i : ℕ) → i < id_limit → lookup_text (conn_name s i) s.connections ≡ lookup i a.live
    pub unused : (i : ℕ) → a.accepted < i → lookup i a.live ≡ none

  loop_of-some : (n l : ℕ) → get_elem? loops (n % length loops) ≡ some l → loop_of n ≡ l
  loop_of-some n l e = rw (e, loop_of) refl

  in_range_some :
      {A : Type 0} (xs : List A) (i : ℕ) → i < length xs → (x : A) × (get_elem? xs i ≡ some x)
  in_range_some [] i h = absurd (omega arith)
  in_range_some (x ∷ xs) zero h = (x, refl)
  in_range_some (x ∷ xs) (suc i) h = in_range_some xs i (omega arith)

  on_loop-some :
      (fd peer l : ℕ) (t : Option ℕ × ThreadPool) (s : TcpServer)
      → t.0 ≡ some l
      → on_loop fd peer t s
        ≡ some (add_connection (make_connection s l fd peer) (record s { thread_pool = t.1 }))
  on_loop-some fd peer l (none, p) s e = cc
  on_loop-some fd peer l (some m, p) s e = ap (λ o. on_loop fd peer (o, p) s) e

  conn_eq :
      {n n' : List ℕ} {l l' : ℕ} (fd peer : ℕ)
      → n ≡ n'
      → l ≡ l'
      → ◌≡◌ {A = ServerConnection}
          (record { name = n; loop = l; fd = fd; peer = peer })
          (record { name = n'; loop = l'; fd = fd; peer = peer })
  conn_eq fd peer e e' = rw (e, e') refl

  turned :
      (next old n : ℕ)
      → next < length loops
      → old ≡ n % length loops
      → next % length loops ≡ suc old % length loops
      → next ≡ suc n % length loops
  turned next old n h e m =
      sym (mod_same next (length loops) h)
      ∙ m
      ∙ ap (λ x. suc x % length loops) e
      ∙ sym (suc-mod n (length loops))

  -- The server after an accept on loop `l`, with the pool `p`.
  abbrev accepted_server : ThreadPool → ℕ → ℕ → ℕ → TcpServer → TcpServer
  accepted_server p l fd peer s =
      (add_connection (make_connection s l fd peer) (record s { thread_pool = p })).1

  accept-Refines :
      (fd peer : ℕ) (s : TcpServer) (a : Live)
      → Refines s a
      → suc a.accepted < id_limit
      → (p : ThreadPool) × (l : ℕ) × (new_connection fd peer s
          ≡ some (add_connection (make_connection s l fd peer) (record s { thread_pool = p })))
        × Refines (accepted_server p l fd peer s) (live_step (accepts (some (fd, peer))) a)
  unfolding new_connection conn_name
  accept-Refines fd peer s a r h =
      let pool = s.thread_pool in
      let (e0, e1, e2, e3) = get_next_loop_lem pool r.in_range in
      let p = (get_next_loop pool).1 in
      let inside = subst (λ x. pool.next < length x) r.same_loops r.in_range in
      let (l, el) = in_range_some loops pool.next inside in
      let same =
        conn_eq fd peer (ap (conn_name s) r.same_id ∙ r.names (suc a.accepted))
          (sym (loop_of-some a.accepted l (ap (get_elem? loops) (sym r.in_turn) ∙ el))) in
      let later : s.next_conn_id < id_limit = omega (arith, r.same_id) in
      (
        p,
        l,
        on_loop-some fd peer l (get_next_loop pool) s
            (e0 ∙ ap (λ x. get_elem? x pool.next) r.same_loops ∙ el),
        record {
          in_range = subst (λ x. p.next < length x) (sym e1) e2;
          same_loops = e1 ∙ r.same_loops;
          in_turn =
              turned p.next pool.next a.accepted (subst (λ x. p.next < length x) r.same_loops e2)
                r.in_turn
                (subst (λ x. p.next % length x ≡ suc pool.next % length x) r.same_loops e3);
          same_id = ap suc r.same_id;
          names = r.names;
          short = r.short;
          called = r.called;
          same_map = λ i li. ground (
            arith,
            lookup_text-insert_text (conn_name s s.next_conn_id) (conn_name s i)
                (make_connection s l fd peer) s.connections,
            lookup-insert (suc a.accepted) i (accepted_connection a.accepted fd peer) a.live,
            bytes_eq-conn_name s s.next_conn_id i r.short later li,
            r.same_map i li,
            r.same_id,
            same,
          );
          unused = λ i li. ground (
            arith,
            lookup-insert (suc a.accepted) i (accepted_connection a.accepted fd peer) a.live,
            r.unused i (omega arith),
          );
        },
      )

  remove-Refines :
      (id l fd peer : ℕ) (s : TcpServer) (a : Live)
      → Refines s a
      → id < id_limit
      → Refines
          (remove_connection_in_loop (removed_connection s id l fd peer) s).1
          (live_step (removes id l fd peer) a)
  unfolding remove_connection_in_loop conn_name
  remove-Refines id l fd peer s a r h = record {
    in_range = r.in_range;
    same_loops = r.same_loops;
    in_turn = r.in_turn;
    same_id = r.same_id;
    names = r.names;
    short = r.short;
    called = r.called;
    same_map = λ i li. ground (
      arith,
      lookup_text-erase_text (conn_name s id) (conn_name s i) s.connections,
      lookup-erase id i a.live,
      bytes_eq-conn_name s id i r.short h li,
      r.same_map i li,
    );
    unused = λ i li. ground (arith, lookup-erase id i a.live, r.unused i li);
  }

  if_true : {A : Type 0} {b : Bool} {x : A} (y : A) → b ≡ true → (if b then x else y) ≡ x
  if_true y e = rw e refl

  step-Refines :
      (e : Event) (s : TcpServer) (a : Live)
      → Refines s a
      → suc a.accepted < id_limit
      → IsId e
      → (fs : List Effect) × (s' : TcpServer) × (step e s ≡ some (fs, s'))
        × Refines s' (live_step e a)
        × ((live_step e a).accepted ≤ suc a.accepted)
  unfolding step handle_read
  step-Refines (accepts none) s a r h i = (_, s, refl, r, omega arith)
  step-Refines (accepts (some (fd, peer))) s a r h i =
      let (p, l, e, r') = accept-Refines fd peer s a r h in
      (
        _,
        accepted_server p l fd peer s,
        if_true (some (closed fd ∷ [], s)) r.called ∙ e,
        r',
        omega arith,
      )
  step-Refines (removes id l fd peer) s a r h i =
      (_, _, refl, remove-Refines id l fd peer s a r i, omega arith)

  and_then-some :
      (o : Option (List Effect × TcpServer)) (fs gs : List Effect) (s s' : TcpServer)
      (k : TcpServer → Option (List Effect × TcpServer))
      → o ≡ some (fs, s)
      → k s ≡ some (gs, s')
      → and_then o k ≡ some (fs ++ gs, s')
  and_then-some o fs gs s s' k e e' = rw e (rw (e', and_then) refl)

  -- From a server whose pool, ids and map are in step with the connections that it accepted, whatever
  -- it accepts and removes, and as long as its ids fit an `int`: it never reads the pool out of range,
  -- its map holds exactly the connections accepted and not removed, each under the name of its own id
  -- and on the loop whose turn it was, and no accept takes another's place.
  pub run-Refines :
      (es : List Event) (s : TcpServer) (a : Live)
      → Refines s a
      → a.accepted + length es < id_limit
      → AllIds es
      → (fs : List Effect) × (s' : TcpServer) × (run es s ≡ some (fs, s'))
        × Refines s' (live_run es a)
  unfolding run
  run-Refines [] s a r h i = ([], s, refl, r)
  run-Refines (e ∷ es) s a r h (i, is) =
      let (fs, s1, e1, r1, m) = step-Refines e s a r (omega arith) i in
      let (gs, s2, e2, r2) = run-Refines es s1 (live_step e a) r1 (omega arith) is in
      (fs ++ gs, s2, and_then-some (step e s) fs gs s1 s2 (run es) e1 e2, r2)
