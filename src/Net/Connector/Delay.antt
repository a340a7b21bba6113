-- ===== src/Net/Connector/Delay.antt =====
-- The delays between the attempts to connect, and a stop that meets a connection.
use gd_rpc.Base.{
  ℕ, ◌≡◌, ◌≤◌, ◌*◌, refl, List, [], ◌∷◌, ◌++◌, Bool, true, false, min, arith, Bool-cases, inl, inr,
}
use gd_rpc.Net.Connector.{
  State, disconnected, connecting, connected, Connector, Effect, queued_start, queued_stop,
  queued_reset, start_after, channel_made, channel_removed, new_connection, socket_closed, fatal,
  Connected, in_progress, unavailable, denied, unexpected, retry, connect, start_if, start_in_loop,
  start, stop, remove_and_reset_channel, retry_removed, stop_in_loop, restart, finish_connect,
  handle_write, handle_error, Event, starts, starts_in_loop, restarts, stops, stops_in_loop, errs,
  writes, step, run,
}

abbrev pub IsDelay : ℕ → Type 0
IsDelay d = (500 ≤ d) × (d ≤ 30000)

-- Every delay that a list of effects waits for.
abbrev pub AllDelays : List Effect → Type 0
AllDelays [] = true ≡ true
AllDelays (start_after d ∷ es) = IsDelay d × AllDelays es
AllDelays (_ ∷ es) = AllDelays es

AllDelays-append : (xs ys : List Effect) → AllDelays xs → AllDelays ys → AllDelays (xs ++ ys)
AllDelays-append [] ys h k = k
AllDelays-append (start_after d ∷ xs) ys (h, hs) k = (h, AllDelays-append xs ys hs k)
AllDelays-append (queued_start ∷ xs) ys h k = AllDelays-append xs ys h k
AllDelays-append (queued_stop ∷ xs) ys h k = AllDelays-append xs ys h k
AllDelays-append (queued_reset ∷ xs) ys h k = AllDelays-append xs ys h k
AllDelays-append (channel_made ∷ xs) ys h k = AllDelays-append xs ys h k
AllDelays-append (channel_removed ∷ xs) ys h k = AllDelays-append xs ys h k
AllDelays-append (new_connection ∷ xs) ys h k = AllDelays-append xs ys h k
AllDelays-append (socket_closed ∷ xs) ys h k = AllDelays-append xs ys h k
AllDelays-append (fatal ∷ xs) ys h k = AllDelays-append xs ys h k

abbrev Kept : List Effect × Connector → Type 0
Kept (es, c) = AllDelays es × IsDelay c.retry_delay

retry-Kept : (c : Connector) → IsDelay c.retry_delay → Kept (retry c)
unfolding retry
retry-Kept c d = elim (Bool-cases c.connect) [
  | inl t ↦ rw (t, retry) ((d, refl), ground (arith, d))
  | inr t ↦ rw (t, retry) (refl, d)
]

retry_removed-Kept : (c : Connector) → IsDelay c.retry_delay → Kept (retry_removed c)
retry_removed-Kept c d =
    let (a, b) = retry-Kept c d in (AllDelays-append remove_and_reset_channel (retry c).0 refl a, b)

connect-Kept : (r : Connected) (c : Connector) → IsDelay c.retry_delay → Kept (connect r c)
unfolding connect
connect-Kept in_progress c d = (refl, d)
connect-Kept unavailable c d = retry-Kept c d
connect-Kept denied c d = (refl, d)
connect-Kept unexpected c d = (refl, d)

start_if-Kept :
    (b : Bool) (r : Connected) (c : Connector) → IsDelay c.retry_delay → Kept (start_if b r c)
start_if-Kept true r c d = connect-Kept r c d
start_if-Kept false r c d = (refl, d)

finish_connect-Kept :
    (err : Bool) (c : Connector) → IsDelay c.retry_delay → Kept (finish_connect err c)
finish_connect-Kept true c d = retry_removed-Kept c d
finish_connect-Kept false c d = elim (Bool-cases c.connect) [
  | inl t ↦ rw t (refl, d)
  | inr t ↦ rw t (refl, d)
]

-- What depends on the state, by its three cases.
by_state :
    (s : State) (f : State → List Effect × Connector)
    → Kept (f disconnected)
    → Kept (f connecting)
    → Kept (f connected)
    → Kept (f s)
by_state disconnected f a b c = a
by_state connecting f a b c = b
by_state connected f a b c = c

step-Kept : (e : Event) (c : Connector) → IsDelay c.retry_delay → Kept (step e c)
unfolding step start_in_loop start stop stop_in_loop restart handle_write handle_error
step-Kept (starts true r) c d = connect-Kept r (record c { connect = true }) d
step-Kept (starts false r) c d = (refl, d)
step-Kept (starts_in_loop r) c d = start_if-Kept c.connect r c d
step-Kept (restarts r) c d =
    connect-Kept r (record c { state = disconnected; retry_delay = 500; connect = true })
      (omega arith, omega arith)
step-Kept stops c d = (refl, d)
step-Kept stops_in_loop c d =
    by_state c.state
      (λ s. elim s [ connecting ↦ retry_removed (record c { state = disconnected }) | _ ↦ ([], c) ])
      (refl, d) (retry_removed-Kept (record c { state = disconnected }) d) (refl, d)
step-Kept errs c d =
    by_state c.state (λ s. elim s [ connecting ↦ retry_removed c | _ ↦ ([], c) ]) (refl, d)
      (retry_removed-Kept c d) (refl, d)
step-Kept (writes err) c d =
    by_state c.state (λ s. elim s [ connecting ↦ finish_connect err c | _ ↦ (fatal ∷ [], c) ])
      (refl, d) (finish_connect-Kept err c d) (refl, d)

-- Whatever happens to a connector whose delay is at least half a second and at most half a
-- minute, so are the delays of all attempts that it schedules, and its own at the end.
pub run-delays :
    (es : List Event) (c : Connector)
    → IsDelay c.retry_delay
    → AllDelays (run es c).0 × IsDelay (run es c).1.retry_delay
unfolding run
run-delays [] c d = (refl, d)
run-delays (e ∷ es) c d =
    let (a, d1) = step-Kept e c d in
    let (b, d2) = run-delays es (step e c).1 d1 in
    (AllDelays-append (step e c).0 (run es (step e c).1).0 a b, d2)

-- After a failed attempt a connecting connector that is to connect, and whose delay is at least
-- half a second and at most half a minute, schedules two more attempts: one at once, and one
-- after the delay, which doubles up to half a minute.
pub handle_error-twice :
    (c : Connector)
    → c.state ≡ connecting
    → c.connect ≡ true
    → IsDelay c.retry_delay
    → let (es, c') = handle_error c in
      (es
        ≡ channel_removed
          ∷ queued_reset
          ∷ socket_closed
          ∷ queued_start
          ∷ start_after c.retry_delay
          ∷ [])
      × (c'.state ≡ disconnected)
      × (c'.retry_delay ≡ min (2 * c.retry_delay) 30000)
unfolding handle_error retry
handle_error-twice c s b d = rw (s, b, handle_error, retry) (refl, refl, omega arith)

-- A connecting connector that is stopped, and whose connection is made before `stopInLoop` runs,
-- removes its channel twice and closes its socket twice.
pub stop-closes_twice :
    (wanted : Bool) (delay : ℕ)
    → let (es1, c1) = stop (record { connect = wanted; state = connecting; retry_delay = delay }) in
      let (es2, c2) = handle_write false c1 in
      let (es3, c3) = stop_in_loop c2 in
      (es1 ++ (es2 ++ es3)
        ≡ queued_stop ∷ channel_removed ∷ queued_reset ∷ socket_closed ∷ channel_removed
          ∷ queued_reset ∷ socket_closed ∷ [])
      × (c3.state ≡ disconnected)
unfolding stop handle_write stop_in_loop retry
stop-closes_twice wanted delay = (refl, refl)
