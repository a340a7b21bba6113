-- ===== src/Net/Buffer/Window.antt =====
-- What `std::copy` and `resize` do to the bytes between two indices.
use gd_rpc.Base.{
  ℕ, zero, suc, ◌+◌, ◌-◌, ◌≤◌, ◌≡◌, refl, ap, ◌∙◌, List, [], ◌∷◌, ◌++◌, arith, length, take, drop,
  replicate, length-append, length-take, length-drop, length-replicate, take_all, take-append,
  drop-append, drop-take, drop-drop, sym,
}
use gd_rpc.Net.Buffer.{copy_to, resize}

pub window : List ℕ → ℕ → ℕ → List ℕ
window xs r w = take (w - r) (drop r xs)

pub window_lem : (xs : List ℕ) (r w : ℕ) → window xs r w ≡ take (w - r) (drop r xs)
unfolding window
window_lem xs r w = refl

pub length-window : (xs : List ℕ) (r w : ℕ) → r ≤ w → w ≤ length xs → length (window xs r w) ≡ w - r
unfolding window
length-window xs r w h k = omega (arith, length-take (w - r) (drop r xs), length-drop r xs)

pub length-copy_to : (xs : List ℕ) (i : ℕ) (src : List ℕ) → length (copy_to xs i src) ≡ length xs
unfolding copy_to
length-copy_to [] i src = refl
length-copy_to (x ∷ xs) zero [] = refl
length-copy_to (x ∷ xs) zero (d ∷ src) = ap suc (length-copy_to xs zero src)
length-copy_to (x ∷ xs) (suc i) src = ap suc (length-copy_to xs i src)

copy_to-take :
    (xs : List ℕ) (w n : ℕ) (src : List ℕ)
    → w + length src ≤ length xs
    → n ≡ w + length src
    → take n (copy_to xs w src) ≡ take w xs ++ src
unfolding copy_to
copy_to-take [] zero zero [] h e = refl
copy_to-take [] zero (suc n) [] h e = absurd (omega arith)
copy_to-take [] zero n (d ∷ src) h e = absurd (omega arith)
copy_to-take [] (suc w) n src h e = absurd (omega arith)
copy_to-take (x ∷ xs) zero zero [] h e = refl
copy_to-take (x ∷ xs) zero (suc n) [] h e = absurd (omega arith)
copy_to-take (x ∷ xs) zero zero (d ∷ src) h e = absurd (omega arith)
copy_to-take (x ∷ xs) zero (suc n) (d ∷ src) h e =
    ap (λ r. d ∷ r) (copy_to-take xs zero n src (omega arith) (omega arith))
copy_to-take (x ∷ xs) (suc w) zero src h e = absurd (omega arith)
copy_to-take (x ∷ xs) (suc w) (suc n) src h e =
    ap (λ r. x ∷ r) (copy_to-take xs w n src (omega arith) (omega arith))

-- Bytes written just past a window extend it.
pub window-copy_to :
    (xs : List ℕ) (r w : ℕ) (src : List ℕ)
    → r ≤ w
    → w + length src ≤ length xs
    → window (copy_to xs w src) r (w + length src) ≡ window xs r w ++ src
unfolding window copy_to
window-copy_to xs zero w src h k =
    copy_to-take xs w (w + length src - 0) src k (omega arith)
    ∙ ap (λ n. take n xs ++ src) {x = w} {y = w - 0} (omega arith)
window-copy_to [] (suc r) w src h k = absurd (omega arith)
window-copy_to (x ∷ xs) (suc r) zero src h k = absurd (omega arith)
window-copy_to (x ∷ xs) (suc r) (suc w) src h k =
    ap (λ n. take n (drop r (copy_to xs w src))) (omega arith)
    ∙ window-copy_to xs r w src (omega arith) (omega arith)
    ∙ ap (λ n. take n (drop r xs) ++ src) (omega arith)

pub window-drop : (xs : List ℕ) (r l w : ℕ) → window xs (r + l) w ≡ drop l (window xs r w)
unfolding window
window-drop xs r l w =
    ap (λ n. take n (drop (r + l) xs)) (omega arith)
    ∙ ap (take (w - r - l)) (sym (drop-drop l r (r + l) xs refl))
    ∙ sym (drop-take l (w - r) (drop r xs))

pub window_self : (xs : List ℕ) (r : ℕ) → window xs r r ≡ []
unfolding window
window_self xs r = ap (λ n. take n (drop r xs)) {x = r - r} {y = 0} (omega arith)

pub window-copy_to_front :
    (xs : List ℕ) (n : ℕ) (src : List ℕ)
    → length src ≤ length xs
    → n ≡ length src
    → window (copy_to xs 0 src) 0 n ≡ src
unfolding window
window-copy_to_front xs n src h e = copy_to-take xs 0 (n - 0) src (omega arith) (omega arith)

-- Bytes behind the window do not matter.
pub window-append :
    (xs ys : List ℕ) (r w : ℕ) → r ≤ w → w ≤ length xs → window (xs ++ ys) r w ≡ window xs r w
unfolding window
window-append xs ys r w h k =
    ap (take (w - r)) (drop-append r xs ys (omega arith))
    ∙ take-append (w - r) (drop r xs) ys (omega (arith, length-drop r xs))

pub window-resize :
    (xs : List ℕ) (n r w : ℕ)
    → r ≤ w
    → w ≤ length xs
    → length xs ≤ n
    → window (resize n xs) r w ≡ window xs r w
unfolding resize
window-resize xs n r w h k g =
    ap (λ ys. window (ys ++ replicate (n - length xs) 0) r w) (take_all n xs g)
    ∙ window-append xs (replicate (n - length xs) 0) r w h k

pub length-resize : (n : ℕ) (xs : List ℕ) → length (resize n xs) ≡ n
unfolding resize
length-resize n xs = omega (
  arith,
  length-append (take n xs) (replicate (n - length xs) 0),
  length-take n xs,
  length-replicate {A = ℕ} (n - length xs) 0,
)
