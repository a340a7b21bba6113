-- ===== src/Util/Logger/Written.antt =====
-- What is logged stands in the files.
use gd_rpc.Base.{
  ℕ, suc, ◌≡◌, refl, ap, ◌∙◌, subst, List, [], ◌∷◌, ◌++◌, if◌then◌else◌, Option, none, some, map,
  append-nil, Bool-cases, inl, inr,
}
use gd_rpc.Util.AsyncLog.{
  Event, appends, turns, Running, step, and_run, run, taken, too_many, all_bytes, turn,
}
use gd_rpc.Util.AsyncLog.Order.{
  IsReady, IsCalm, pending, pending_after, logged, run-order, all_bytes-append,
}
use gd_rpc.Util.LogFile.{System, Settings, Disk, apply_all, new_log_file, append_all}
use gd_rpc.Util.LogFile.Groups.{IsInjective}
use gd_rpc.Util.LogFile.Files.{AllKept, append_all-AllKept}
use gd_rpc.Util.Logger.{
  LogLevel, is_logged, line_of, Happening, sets_level, says, writes, events_of, step_calls,
  calls_after, file_calls, timed,
}

-- The lines of the statements that pass the level of their time.
abbrev pub said : LogLevel → List Happening → List (List ℕ)
said log_level [] = []
said log_level (sets_level l ∷ hs) = said l hs
said log_level (says s ∷ hs) =
    (if is_logged log_level s.level then line_of s ∷ [] else []) ++ said log_level hs
said log_level (writes notice ∷ hs) = said log_level hs

logged-events_of :
    (log_level : LogLevel) (hs : List Happening)
    → logged (events_of log_level hs) ≡ all_bytes (said log_level hs)
unfolding events_of
logged-events_of log_level [] = refl
logged-events_of log_level (sets_level l ∷ hs) = logged-events_of l hs
logged-events_of log_level (says s ∷ hs) = elim (Bool-cases (is_logged log_level s.level)) [
  | inl t ↦ rw t (ap (λ l. line_of s ++ l) (logged-events_of log_level hs))
  | inr t ↦ rw t (logged-events_of log_level hs)
]
logged-events_of log_level (writes notice ∷ hs) = logged-events_of log_level hs

-- The calls of a step are what the step writes.
step_calls-step :
    (size : ℕ) (e : Event) (r : Running) → all_bytes (step_calls e r) ≡ (step size e r).0
unfolding step turn
step_calls-step size (appends line) (w, a) = refl
step_calls-step size (turns notice) (w, a) = elim (Bool-cases (too_many (taken a))) [
  | inl t ↦ rw (t, turn) refl
  | inr t ↦ rw (t, turn) refl
]

and_run-calls :
    (out : List ℕ) (o : Option Running) (k : Running → List ℕ × Option Running)
    (calls : Running → List (List ℕ))
    → ((r : Running) → all_bytes (calls r) ≡ (k r).0)
    → out ++ all_bytes (calls_after o calls) ≡ (and_run out o k).0
and_run-calls out none k calls h = append-nil out
and_run-calls out (some r) k calls h = ap (λ l. out ++ l) (h r)

file_calls-run :
    (size : ℕ) (es : List Event) (r : Running)
    → all_bytes (file_calls size es r) ≡ (run size es r).0
unfolding file_calls run
file_calls-run size [] r = refl
file_calls-run size (e ∷ es) r =
    let (out, o) = step size e r in
    all_bytes-append (step_calls e r) (calls_after o (file_calls size es))
    ∙ ap (λ l. l ++ all_bytes (calls_after o (file_calls size es))) (step_calls-step size e r)
    ∙ and_run-calls out o (run size es) (file_calls size es) (file_calls-run size es)

map-timed : (clock : ℕ → ℕ) (n : ℕ) (bs : List (List ℕ)) → map (λ e. e.1) (timed clock n bs) ≡ bs
map-timed clock n [] = refl
map-timed clock n (b ∷ bs) = ap (λ l. b ∷ l) (map-timed clock (suc n) bs)

-- From ready buffers and a new log file, if the texts of two times are never the same, every line is
-- shorter than a buffer and no turn of the writer finds more than 25 buffers: the files hold what the
-- writer appended, in order and no buffer divided between two files; and that, with what is still in
-- the buffers after it, is what was in the buffers and then the lines of the statements that passed
-- the log level, whole and in the order in which they were made.
pub written_lem :
    (sys : System) (set : Settings) (size start : ℕ) (clock : ℕ → ℕ) (log_level : LogLevel)
    (hs : List Happening) (r : Running) (d : Disk)
    → IsInjective sys
    → IsReady r
    → IsCalm size (events_of log_level hs) r
    → let es = events_of log_level hs in
      let chunks = file_calls size es r in
      let (ops, f) = new_log_file sys set start in
      let (more, f') = append_all sys set (timed clock 0 chunks) f in
      AllKept sys set chunks (apply_all more (apply_all ops d)) f'
      × (all_bytes chunks ++ pending_after (run size es r).1
          ≡ pending r ++ all_bytes (said log_level hs))
written_lem sys set size start clock log_level hs r d i j c =
    let es = events_of log_level hs in
    let chunks = file_calls size es r in
    let (ops, f) = new_log_file sys set start in
    let (more, f') = append_all sys set (timed clock 0 chunks) f in
    (
      subst (λ l. AllKept sys set l (apply_all more (apply_all ops d)) f')
          (map-timed clock 0 chunks) (append_all-AllKept sys set start (timed clock 0 chunks) d i),
      ap (λ l. l ++ pending_after (run size es r).1) (file_calls-run size es r)
          ∙ run-order size es r j c
          ∙ ap (λ l. pending r ++ l) (logged-events_of log_level hs),
    )
