-- ===== src/Util/AsyncLog/EndTests.antt =====
-- A log that is destroyed while its writer writes, after a line more was logged.
use gd_rpc.Base.{◌≡◌, ◌≤◌, ◌<◌, ◌⊎◌, refl, if◌then◌else◌}
use gd_rpc.Util.AsyncLog.Stopping.{
  joining, joined, terminated, writing, ended, Lifetime, constructed, Step, start, enter, leave,
  skip_wait, swap, write, append, destroy, abandon, clear, join, Reach, here, next,
}
use gd_rpc.Util.AsyncLog.Ending.{will_swap, left, joined-taken, joining-ends}

abbrev cleared : Lifetime
cleared = record constructed {
  owner = joining;
  writer = writing;
  logged = 2;
  taken = 1;
  cleared_at = writing;
  taken_then = 1;
}

Reach-cleared : Reach constructed cleared
Reach-cleared =
    next
      (next
        (next
          (next
            (next (next (next (next here (start _ refl)) (append _ refl)) (enter _ refl refl))
              (skip_wait _ refl))
            (swap _ refl))
          (append _ refl))
        (destroy _ refl refl))
      (clear _ refl)

-- The second line is lost.
abbrev over : Lifetime
over = record cleared { owner = joined; writer = ended }

Reach-over : Reach constructed over
Reach-over = next (next (next Reach-cleared (write _ refl)) (leave _ refl refl)) (join _ refl refl)

joined-taken_example :
    over.taken ≡ (if will_swap over.cleared_at then over.logged else over.taken_then)
joined-taken_example = joined-taken Reach-over refl

joining-ends_example :
    ((t : Lifetime) × Step cleared t)
    × (left cleared.writer ≤ 5)
    × ((t : Lifetime)
        → Step cleared t
        → (t.owner ≡ joined) ⊎ ((t.owner ≡ joining) × (left t.writer < left cleared.writer)))
joining-ends_example = joining-ends Reach-cleared refl

-- A log that is destroyed before its thread has set `running_`.
Reach-terminated : Reach constructed (record constructed { owner = terminated; logged = 1 })
Reach-terminated = next (next here (append _ refl)) (abandon _ refl refl)
