-- ===== src/Net/Buffer/Refine.antt =====
-- Any sequence of calls on a buffer is a sequence of calls on a queue of bytes.
use gd_rpc.Base.{
  ℕ, ◌≡◌, refl, ap, ◌∙◌, List, [], ◌∷◌, ◌++◌, Bool, Option, none, some, leb, if◌then◌else◌, length,
  drop,
}
use gd_rpc.Net.Buffer.{Buffer, retrieve, append, read_fd}
use gd_rpc.Net.Buffer.Laws.{
  IsValid, contents, append-IsValid, contents-append, retrieve-IsValid, contents-retrieve,
  read_fd-appends,
}

-- What an owner of a buffer does with it.
pub data Op : Type 0 where
  puts : List ℕ → Op
  takes : ℕ → Op
  receives : Option (List ℕ) → Op

-- What the call returns: `retrieve` a flag, `readFd` the number of bytes or none for -1.
pub data Reply : Type 0 where
  done : Reply
  flag : Bool → Reply
  got : Option ℕ → Reply

unfoldable pub step : Buffer → Op → Reply × Buffer
step b (puts src) = (done, append src b)
step b (takes n) = let (f, b') = retrieve n b in (flag f, b')
step b (receives r) = let (n, b') = read_fd r b in (got n, b')

unfoldable pub run : Buffer → List Op → List Reply × Buffer
run b [] = ([], b)
run b (o ∷ os) = let (r, b') = step b o in let (rs, b'') = run b' os in (r ∷ rs, b'')

-- The same calls on a queue, oldest byte first.
pub queue_step : List ℕ → Op → Reply × List ℕ
queue_step q (puts src) = (done, q ++ src)
queue_step q (takes n) = (flag (leb n (length q)), if leb n (length q) then drop n q else q)
queue_step q (receives none) = (got none, q)
queue_step q (receives (some src)) = (got (some (length src)), q ++ src)

pub queue_run : List ℕ → List Op → List Reply × List ℕ
queue_run q [] = ([], q)
queue_run q (o ∷ os) =
    let (r, q') = queue_step q o in let (rs, q'') = queue_run q' os in (r ∷ rs, q'')

step_refines :
    (b : Buffer) (o : Op)
    → IsValid b
    → IsValid (step b o).1
      × ((step b o).0 ≡ (queue_step (contents b) o).0)
      × (contents (step b o).1 ≡ (queue_step (contents b) o).1)
unfolding step queue_step read_fd
step_refines b (puts src) v = (append-IsValid src b v, refl, contents-append src b v)
step_refines b (takes n) v =
    let c = contents-retrieve n b v in (retrieve-IsValid n b v, ap flag c.0, c.1)
step_refines b (receives none) v = (v, refl, refl)
step_refines b (receives (some src)) v = let c = read_fd-appends b src v in (c.1, ap got c.0, c.2)

-- From a buffer whose indices are in order and in range, any sequence of appends, retrievals and
-- reads from the socket returns what the byte queue returns, keeps the indices in order and in
-- range, and ends with the queue's bytes readable: no byte is lost, repeated or reordered, whatever
-- the vector's moves and growth.
pub run_refines :
    (os : List Op) (b : Buffer)
    → IsValid b
    → IsValid (run b os).1
      × ((run b os).0 ≡ (queue_run (contents b) os).0)
      × (contents (run b os).1 ≡ (queue_run (contents b) os).1)
unfolding run queue_run
run_refines [] b v = (v, refl, refl)
run_refines (o ∷ os) b v =
    let s = step_refines b o v in
    let r = run_refines os (step b o).1 s.0 in
    (r.0, rw (s.1, r.1, s.2) refl, r.2 ∙ ap (λ q. (queue_run q os).1) s.2)
