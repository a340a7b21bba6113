-- ===== src/Net/ThreadPool/RoundRobin.antt =====
-- The loops are handed out in turn.
use native.Mathlib.Nat.{suc-mod}
use gd_rpc.Base.{
  subst, ℕ, zero, suc, ◌≡◌, ◌<◌, ◌%◌, refl, sym, ap, ◌∙◌, List, [], ◌∷◌, Bool, Option, leb, length,
  get_elem?, arith, Bool-cases, inl, inr,
}
use gd_rpc.Net.ThreadPool.{
  ThreadPool, next_of, all_of, advance, get_next_loop, get_all_loops, next_loops, start,
  set_thread_num, new_pool,
}

abbrev pub IsValid : ThreadPool → Type 0
IsValid p = p.next < length (get_all_loops p)

-- The loops that a pool of no thread hands out, one after the other, starting at the `i`-th.
abbrev pub in_turn : List ℕ → ℕ → ℕ → List (Option ℕ)
in_turn loops i zero = []
in_turn loops i (suc n) = get_elem? loops (i % length loops) ∷ in_turn loops (suc i) n

pub mod_same : (i n : ℕ) → i < n → i % n ≡ i
mod_same i n h = grind arith

mod_suc : (i j n : ℕ) → i % n ≡ j % n → suc i % n ≡ suc j % n
mod_suc i j n h = suc-mod i n ∙ ap (λ m. suc m % n) h ∙ sym (suc-mod j n)

mod_advance : (i n : ℕ) → i < n → advance i n % n ≡ suc i % n
mod_advance i n h = elim (Bool-cases (leb n (suc i))) [
  | inl t ↦ rw t (grind arith)
  | inr t ↦ rw t refl
]

in_turn-mod :
    (loops : List ℕ) (i j k : ℕ)
    → i % length loops ≡ j % length loops
    → in_turn loops i k ≡ in_turn loops j k
in_turn-mod loops i j zero h = refl
in_turn-mod loops i j (suc k) h =
    rw (h, in_turn-mod loops (suc i) (suc j) k (mod_suc i j (length loops) h))

-- What a call does, for the loops that the pool has.
abbrev pub Turned : ThreadPool → ThreadPool → Option ℕ → Type 0
Turned p p' l =
    (l ≡ get_elem? (get_all_loops p) p.next)
    × (get_all_loops p' ≡ get_all_loops p)
    × (p'.next < length (get_all_loops p))
    × (p'.next % length (get_all_loops p) ≡ suc p.next % length (get_all_loops p))

next_of_lem :
    (ls : List ℕ) (p : ThreadPool)
    → p.next < length (all_of ls p.base_loop)
    → let (l, p') = next_of ls p in
      let n = length (all_of ls p.base_loop) in
      (l ≡ get_elem? (all_of ls p.base_loop) p.next)
      × (all_of p'.loops p'.base_loop ≡ all_of p.loops p.base_loop)
      × (p'.next < n)
      × (p'.next % n ≡ suc p.next % n)
next_of_lem [] p h = (ground arith, refl, h, grind arith)
next_of_lem (x ∷ xs) p h = (refl, refl, ground arith, mod_advance p.next (length (x ∷ xs)) h)

pub get_next_loop_lem :
    (p : ThreadPool) → IsValid p → Turned p (get_next_loop p).1 (get_next_loop p).0
unfolding get_next_loop get_all_loops
get_next_loop_lem p h = next_of_lem p.loops p h

-- In a pool whose next loop is in range, any number of calls return the pool's loops in turn,
-- from the next one on and back to the first after the last; for a pool without threads that is
-- its base loop. The next one stays in range, and the loops stay as they are.
pub next_loops_lem :
    (k : ℕ) (p : ThreadPool)
    → IsValid p
    → let (ls, p') = next_loops k p in
      (ls ≡ in_turn (get_all_loops p) p.next k) × IsValid p' × (get_all_loops p' ≡ get_all_loops p)
unfolding next_loops
next_loops_lem zero p h = (refl, h, refl)
next_loops_lem (suc k) p h =
    let (e, a, v, m) = get_next_loop_lem p h in
    let p' = (get_next_loop p).1 in
    let (ls, v', a') = next_loops_lem k p' (subst (λ l. p'.next < length l) (sym a) v) in
    (
      cons (e ∙ ap (get_elem? (get_all_loops p)) (sym (mod_same p.next _ h))) (
          ls
          ∙ ap (λ l. in_turn l p'.next k) a
          ∙ in_turn-mod (get_all_loops p) p'.next (suc p.next) k m),
      v',
      a' ∙ a,
    )
  where
    cons : {x y : Option ℕ} {xs ys : List (Option ℕ)} → x ≡ y → xs ≡ ys → x ∷ xs ≡ y ∷ ys
    cons e e' = rw (e, e') refl

-- A pool that was just started is in range, whatever its number of threads.
pub start-IsValid :
    (callback_set : Bool) (start_loop : ℕ → ℕ) (base n : ℕ)
    → IsValid (start callback_set start_loop (set_thread_num n (new_pool base))).1
unfolding start get_all_loops set_thread_num new_pool
start-IsValid b f base zero = omega arith
start-IsValid b f base (suc n) = omega arith
