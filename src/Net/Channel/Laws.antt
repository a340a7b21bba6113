-- ===== src/Net/Channel/Laws.antt =====
-- Which callbacks an event runs.
use gd_rpc.Base.{
  ℕ, ◌≡◌, refl, List, [], ◌∷◌, ◌++◌, Bool, true, false, ◌&&◌, ◌||◌, not, if◌then◌else◌, suc,
}
use gd_rpc.Net.Channel.{
  Channel, Revents, Callback, Callbacks, close_callback, error_callback, read_callback,
  write_callback, handle_event, only_if,
}

-- How often a callback runs.
abbrev pub times : Callback → List Callback → ℕ
times c [] = 0
times close_callback (close_callback ∷ cs) = suc (times close_callback cs)
times error_callback (error_callback ∷ cs) = suc (times error_callback cs)
times read_callback (read_callback ∷ cs) = suc (times read_callback cs)
times write_callback (write_callback ∷ cs) = suc (times write_callback cs)
times c (_ ∷ cs) = times c cs

abbrev bit : Bool → ℕ
bit b = if b then 1 else 0

four :
    (a b c d : Bool)
    → let ran =
        only_if a close_callback
        ++ (only_if b error_callback ++ (only_if c read_callback ++ only_if d write_callback)) in
      (times close_callback ran ≡ bit a)
      × (times error_callback ran ≡ bit b)
      × (times read_callback ran ≡ bit c)
      × (times write_callback ran ≡ bit d)
four true true true true = (refl, refl, refl, refl)
four true true true false = (refl, refl, refl, refl)
four true true false true = (refl, refl, refl, refl)
four true true false false = (refl, refl, refl, refl)
four true false true true = (refl, refl, refl, refl)
four true false true false = (refl, refl, refl, refl)
four true false false true = (refl, refl, refl, refl)
four true false false false = (refl, refl, refl, refl)
four false true true true = (refl, refl, refl, refl)
four false true true false = (refl, refl, refl, refl)
four false true false true = (refl, refl, refl, refl)
four false true false false = (refl, refl, refl, refl)
four false false true true = (refl, refl, refl, refl)
four false false true false = (refl, refl, refl, refl)
four false false false true = (refl, refl, refl, refl)
four false false false false = (refl, refl, refl, refl)

guarded :
    (tied alive : Bool) (ran : List Callback) (k : Callback) (b : Bool)
    → times k ran ≡ bit b
    → times k (if tied then (if alive then ran else []) else ran) ≡ bit ((not tied || alive) && b)
guarded true true ran k b e = e
guarded true false ran k b e = none_ran k
  where
    none_ran : (c : Callback) → times c [] ≡ 0
    none_ran c = refl
guarded false alive ran k b e = e

-- A tied channel whose owner is gone runs nothing. Any other runs each callback at most once: the
-- close callback on a hang-up with nothing to read, the error callback on an error, the read
-- callback on input or urgent input and the write callback on output, each only if it is set.
pub handle_event_lem :
    (alive : Bool) (cbs : Callbacks) (r : Revents) (c : Channel)
    → let live = not c.tied || alive in
      let ran = handle_event alive cbs r c in
      (times close_callback ran ≡ bit (live && ((r.hup && not r.inp) && cbs.close_set)))
      × (times error_callback ran ≡ bit (live && (r.err && cbs.error_set)))
      × (times read_callback ran ≡ bit (live && ((r.inp || r.pri) && cbs.read_set)))
      × (times write_callback ran ≡ bit (live && (r.out && cbs.write_set)))
unfolding handle_event
handle_event_lem alive cbs r c =
    let f =
      four ((r.hup && not r.inp) && cbs.close_set) (r.err && cbs.error_set)
        ((r.inp || r.pri) && cbs.read_set) (r.out && cbs.write_set) in
    (
      guarded c.tied alive _ close_callback _ f.0,
      guarded c.tied alive _ error_callback _ f.1,
      guarded c.tied alive _ read_callback _ f.2,
      guarded c.tied alive _ write_callback _ f.3,
    )
