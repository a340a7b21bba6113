-- ===== src/Util/LogFile/Groups.antt =====
-- The files that a log has been written to, by the times of their names, and the directory that holds
-- them.
use gd_rpc.Base.{
  ℕ, ◌≡◌, ◌≢◌, ◌≤◌, ◌<◌, sym, ap, ◌∙◌, List, [], ◌∷◌, ◌++◌, false, some, length, append_assoc,
  append-nil, append_cancel_left, append_cancel_right, arith, Bool-cases, inl, inr,
}
use gd_rpc.Text.{bytes_eq, bytes_eq_sound, lookup_text, insert_text, lookup_text-insert_text}
use gd_rpc.Util.LogFile.{System, name_end, log_file_name}

-- The lines of a file, under the time of its name; the newest file first.
abbrev pub Group : Type 0
Group = ℕ × List (List ℕ)

abbrev pub joined : List (List ℕ) → List ℕ
joined [] = []
joined (l ∷ ls) = l ++ joined ls

abbrev pub all_lines : List Group → List (List ℕ)
all_lines [] = []
all_lines ((t, ls) ∷ gs) = all_lines gs ++ ls

-- The older files: opened before `t`, one before the next, each with more bytes than `size`.
abbrev pub AllOlder : ℕ → ℕ → List Group → Type 0
AllOlder size t [] = 0 ≤ 0
AllOlder size t ((u, ls) ∷ gs) = (u < t) × (size < length (joined ls)) × AllOlder size u gs

-- Time texts tell the seconds apart.
abbrev pub IsInjective : System → Type 0
IsInjective sys = (s t : ℕ) → sys.get_time s ≡ sys.get_time t → s ≡ t

log_file_name_inj :
    (sys : System) (basename : List ℕ) (s t : ℕ)
    → IsInjective sys
    → log_file_name sys basename s ≡ log_file_name sys basename t
    → s ≡ t
unfolding log_file_name
log_file_name_inj sys basename s t i h = i s t (
    append_cancel_right (sys.get_time s) (sys.get_time t) (name_end sys)
      (append_cancel_left basename _ _ h))

pub joined-snoc : (ls : List (List ℕ)) (b : List ℕ) → joined (ls ++ (b ∷ [])) ≡ joined ls ++ b
joined-snoc [] b = append-nil b
joined-snoc (l ∷ ls) b = ap (λ r. l ++ r) (joined-snoc ls b) ∙ sym (append_assoc l (joined ls) b)

AllOlder-le : (size s t : ℕ) (gs : List Group) → s ≤ t → AllOlder size s gs → AllOlder size t gs
AllOlder-le size s t [] h a = a
AllOlder-le size s t ((u, ls) ∷ gs) h (a, b, c) = (omega arith, b, c)

pub log_file_name_ne :
    (sys : System) (basename : List ℕ) (s t : ℕ)
    → IsInjective sys
    → s ≢ t
    → bytes_eq (log_file_name sys basename s) (log_file_name sys basename t) ≡ false
log_file_name_ne sys basename s t i n =
    elim (Bool-cases (bytes_eq (log_file_name sys basename s) (log_file_name sys basename t))) [
      | inl e ↦ absurd (n (log_file_name_inj sys basename s t i (bytes_eq_sound _ _ e)))
      | inr e ↦ e
    ]

abbrev pub Files : Type 0
Files = List (List ℕ × List ℕ)

module _ (sys : System) (basename : List ℕ) where
  abbrev pub AllHeld : Files → List Group → Type 0
  AllHeld m [] = 0 ≤ 0
  AllHeld m ((t, ls) ∷ gs) =
      (lookup_text (log_file_name sys basename t) m ≡ some (joined ls)) × AllHeld m gs

  -- A write in the newest file leaves the older ones.
  pub AllHeld-insert_text :
      (size t : ℕ) (v : List ℕ) (m : Files) (gs : List Group)
      → IsInjective sys
      → AllOlder size t gs
      → AllHeld m gs
      → AllHeld (insert_text (log_file_name sys basename t) v m) gs
  AllHeld-insert_text size t v m [] i a h = h
  AllHeld-insert_text size t v m ((u, ls) ∷ gs) i (b, c, d) (h, hs) = (
    lookup_text-insert_text (log_file_name sys basename t) (log_file_name sys basename u) v m
        ∙ rw (log_file_name_ne sys basename t u i (omega (arith, b))) h,
    AllHeld-insert_text size t v m gs i (AllOlder-le size u t gs (omega (arith, b)) d) hs,
  )
