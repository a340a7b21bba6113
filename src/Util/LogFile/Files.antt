-- ===== src/Util/LogFile/Files.antt =====
-- Every byte given to the log file stands in one of its files, in order, and no line is divided.
use gd_rpc.Base.{
  ℕ, ◌≡◌, ◌+◌, ◌-◌, ◌≤◌, ◌<◌, refl, sym, ap, subst, ◌∙◌, List, [], ◌∷◌, ◌++◌, some, ltb, leb,
  length, map, append_assoc, append-nil, arith, Bool-cases, inl, inr, length-append,
}
use gd_rpc.Text.{bytes_eq_self, lookup_text, lookup_text-insert_text}
use gd_rpc.Util.LogFile.{
  System, Settings, LogFile, FileOp, opened, wrote, log_file_name, new_log_file, roll_file,
  check_if, after_write, append, append_all, Disk, apply_op, apply_all,
}
use gd_rpc.Util.LogFile.Groups.{
  Group, joined, all_lines, AllOlder, IsInjective, joined-snoc, AllHeld, AllHeld-insert_text,
}

module _ (sys : System) (set : Settings) where
  -- The directory holds these lines: `ls` in the open file, `gs` in the older ones.
  pub record Holds (f : LogFile) (d : Disk) (ls : List (List ℕ)) (gs : List Group) : Type 0 where
    pub is_current : d.current ≡ log_file_name sys set.basename f.last_roll
    pub held : lookup_text d.current d.files ≡ some (joined ls)
    pub older_held : AllHeld sys set.basename d.files gs
    pub older : AllOlder set.roll_size f.last_roll gs
    pub counted : f.cur_len ≤ length (joined ls)

  wrote-Holds :
      (f : LogFile) (d : Disk) (ls : List (List ℕ)) (gs : List Group) (b : List ℕ)
      → IsInjective sys
      → Holds f d ls gs
      → Holds
          (record f { cur_len = f.cur_len + length b })
          (apply_op (wrote b) d)
          (ls ++ (b ∷ []))
          gs
  unfolding apply_op
  wrote-Holds f d ls gs b i h = record {
    is_current = h.is_current;
    held =
        lookup_text-insert_text d.current d.current _ d.files
        ∙ rw (bytes_eq_self d.current, h.held) (ap some (sym (joined-snoc ls b)));
    older_held = rw h.is_current (
        AllHeld-insert_text sys set.basename set.roll_size f.last_roll _ d.files gs i h.older
          h.older_held);
    older = h.older;
    counted = rw (joined-snoc ls b, length-append (joined ls) b) (omega (arith, h.counted));
  }

  -- A next file, in which nothing is written yet.
  opened-Holds :
      (f : LogFile) (d : Disk) (ls : List (List ℕ)) (gs : List Group) (now : ℕ)
      → IsInjective sys
      → f.last_roll < now
      → set.roll_size < f.cur_len
      → Holds f d ls gs
      → Holds
          (record f { last_roll = now; last_flush = now; cur_len = 0 })
          (apply_op (opened (log_file_name sys set.basename now)) d)
          []
          ((f.last_roll, ls) ∷ gs)
  unfolding apply_op
  opened-Holds f d ls gs now i n o h =
      let a : AllOlder set.roll_size now ((f.last_roll, ls) ∷ gs) =
        (n, omega (arith, o, h.counted), h.older) in
      record {
        is_current = refl;
        held =
            lookup_text-insert_text (log_file_name sys set.basename now)
              (log_file_name sys set.basename now) [] d.files
            ∙ rw (bytes_eq_self (log_file_name sys set.basename now)) refl;
        older_held =
            AllHeld-insert_text sys set.basename set.roll_size now [] d.files
              ((f.last_roll, ls) ∷ gs) i a
              (
                subst (λ n. lookup_text n d.files ≡ some (joined ls)) h.is_current h.held,
                h.older_held,
              );
        older = a;
        counted = omega arith;
      }

  -- What a call leaves: these lines in some files, and a length below the limit.
  abbrev pub AllKept : List (List ℕ) → Disk → LogFile → Type 0
  AllKept lines d f =
      (ls : List (List ℕ)) × (gs : List Group) × Holds f d ls gs
      × (all_lines ((f.last_roll, ls) ∷ gs) ≡ lines)
      × (f.cur_len ≤ set.roll_size)

  other-Holds :
      (f : LogFile) (d : Disk) (ls : List (List ℕ)) (gs : List Group) (c n k : ℕ)
      → k ≤ f.cur_len
      → Holds f d ls gs
      → Holds (record f { count = c; last_flush = n; cur_len = k }) d ls gs
  other-Holds f d ls gs c n k l h = record {
    is_current = h.is_current;
    held = h.held;
    older_held = h.older_held;
    older = h.older;
    counted = omega (arith, l, h.counted);
  }

  -- Neither the counter nor the time of the last flush plays a part.
  check_if-Holds :
      (f : LogFile) (d : Disk) (ls : List (List ℕ)) (gs : List Group) (now : ℕ)
      → f.cur_len ≤ set.roll_size
      → Holds f d ls gs
      → let (ops, f') = check_if sys set now f in AllKept (all_lines gs ++ ls) (apply_all ops d) f'
  unfolding apply_all apply_op
  check_if-Holds f d ls gs now n h = elim (Bool-cases (leb set.check_every_n f.count)) [
    | inr t ↦ rw t (ls, gs, h, refl, n)
    | inl t ↦ elim (Bool-cases (ltb set.flush_interval (now - f.last_flush))) [
      | inl u ↦ rw (t, u) (ls, gs, other-Holds f d ls gs 0 now f.cur_len (omega arith) h, refl, n)
      | inr u ↦
          rw (t, u)
            (ls, gs, other-Holds f d ls gs 0 f.last_flush f.cur_len (omega arith) h, refl, n)
    ]
  ]

  after_write-Holds :
      (f : LogFile) (d : Disk) (ls : List (List ℕ)) (gs : List Group) (now : ℕ)
      → IsInjective sys
      → Holds f d ls gs
      → let (ops, f') = after_write sys set now f in
        AllKept (all_lines gs ++ ls) (apply_all ops d) f'
  unfolding after_write roll_file apply_all apply_op
  after_write-Holds f d ls gs now i h = elim (Bool-cases (ltb set.roll_size f.cur_len)) [
    | inl t ↦ elim (Bool-cases (ltb f.last_roll now)) [
      | inl u ↦
          rw (t, u)
            (
              [],
              (f.last_roll, ls) ∷ gs,
              opened-Holds f d ls gs now i (ground (arith, u)) (ground (arith, t)) h,
              append-nil _,
              omega arith,
            )
      | inr u ↦
          rw (t, u)
            (
              ls,
              gs,
              other-Holds f d ls gs f.count f.last_flush 0 (omega arith) h,
              refl,
              omega arith,
            )
    ]
    | inr t ↦ rw t (
        check_if-Holds (record f { count = f.count + 1 }) d ls gs now (ground (arith, t))
          (other-Holds f d ls gs (f.count + 1) f.last_flush f.cur_len (omega arith) h))
  ]

  AllKept-eq :
      {d : Disk} {f : LogFile} {lines more : List (List ℕ)}
      → lines ≡ more
      → AllKept lines d f
      → AllKept more d f
  AllKept-eq {d} {f} e k = subst (λ l. AllKept l d f) e k

  append-Holds :
      (f : LogFile) (d : Disk) (lines : List (List ℕ)) (now : ℕ) (b : List ℕ)
      → IsInjective sys
      → AllKept lines d f
      → let (ops, f') = append sys set now b f in AllKept (lines ++ (b ∷ [])) (apply_all ops d) f'
  unfolding append apply_all
  append-Holds f d lines now b i (ls, gs, h, e, n) =
      AllKept-eq (sym (append_assoc (all_lines gs) ls (b ∷ [])) ∙ ap (λ l. l ++ (b ∷ [])) e) (
        after_write-Holds (record f { cur_len = f.cur_len + length b }) (apply_op (wrote b) d)
          (ls ++ (b ∷ [])) gs now i (wrote-Holds f d ls gs b i h))

  apply_all-append :
      (ops more : List FileOp) (d : Disk)
      → apply_all (ops ++ more) d ≡ apply_all more (apply_all ops d)
  unfolding apply_all
  apply_all-append [] more d = refl
  apply_all-append (op ∷ ops) more d = apply_all-append ops more (apply_op op d)

  append_all-Holds :
      (f : LogFile) (d : Disk) (lines : List (List ℕ)) (es : List (ℕ × List ℕ))
      → IsInjective sys
      → AllKept lines d f
      → let (ops, f') = append_all sys set es f in
        AllKept (lines ++ map (λ e. e.1) es) (apply_all ops d) f'
  unfolding append_all apply_all
  append_all-Holds f d lines [] i k = AllKept-eq (sym (append-nil lines)) k
  append_all-Holds f d lines ((now, b) ∷ es) i k =
      let (ops, f') = append sys set now b f in
      subst (λ x. AllKept (lines ++ (b ∷ map (λ e. e.1) es)) x (append_all sys set es f').1)
        (sym (apply_all-append ops (append_all sys set es f').0 d))
        (AllKept-eq (append_assoc lines (b ∷ []) (map (λ e. e.1) es)) (
          append_all-Holds f' (apply_all ops d) (lines ++ (b ∷ [])) es i
            (append-Holds f d lines now b i k)))

  -- If the texts of two times are never the same: after any appends to a new log file, at any times,
  -- the files that it has opened hold all the bytes appended, in order and no line divided between two
  -- files; each was opened later than the one before, and all but the
  -- open one are larger than the roll size, so that no passing of time alone closes a file. The length
  -- that is counted is at most the roll size.
  pub append_all-AllKept :
      (start : ℕ) (es : List (ℕ × List ℕ)) (d : Disk)
      → IsInjective sys
      → let (ops, f) = new_log_file sys set start in
        let (more, f') = append_all sys set es f in
        AllKept (map (λ e. e.1) es) (apply_all more (apply_all ops d)) f'
  unfolding new_log_file apply_all apply_op
  append_all-AllKept start es d i =
      let n : List ℕ = log_file_name sys set.basename start in
      let (ops, f) = new_log_file sys set start in
      append_all-Holds f (apply_all ops d) [] es i (
        [],
        [],
        record {
          is_current = refl;
          held = lookup_text-insert_text n n [] d.files ∙ rw (bytes_eq_self n) refl;
          older_held = omega arith;
          older = omega arith;
          counted = omega arith;
        },
        refl,
        omega arith,
      )
