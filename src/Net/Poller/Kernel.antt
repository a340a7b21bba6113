-- ===== src/Net/Poller/Kernel.antt =====
-- The interest list of the kernel, as epoll_ctl(2) documents it, and how the poller's record of it
-- keeps to it.
use gd_rpc.Base.{
  ℕ, ◌≡◌, refl, sym, ap, ◌∙◌, List, [], ◌∷◌, ◌++◌, Option, none, some, ◌==◌, if◌then◌else◌, arith,
  insert, ◌≢◌, inl, inr, Bool-cases,
}
use gd_rpc.Net.Channel.{
  Channel, ChannelState, new, added, deleted, Interest, is_none_event, Change, set_events,
}
use gd_rpc.Net.Poller.{
  Poller, Ctl, ctl_add, ctl_mod, ctl_del, remove_channel, change, update_by_state,
}

-- For each descriptor, what is asked of it, if it is registered.
abbrev pub Kernel : Type 0
Kernel = ℕ → Option Interest

abbrev pub update : Kernel → ℕ → Option Interest → Kernel
update k fd v j = if fd == j then v else k j

-- What the poller relies on of `epoll_ctl`: ADD registers a descriptor that is not registered, MOD
-- changes and DEL removes one that is.
pub record Epoll : Type 0 where
  pub epoll_ctl : Ctl → Kernel → Option Kernel
  pub add_lem :
      (fd : ℕ) (e : Interest) (k : Kernel)
      → k fd ≡ none
      → epoll_ctl (ctl_add fd e) k ≡ some (update k fd (some e))
  pub mod_lem :
      (fd : ℕ) (e old : Interest) (k : Kernel)
      → k fd ≡ some old
      → epoll_ctl (ctl_mod fd e) k ≡ some (update k fd (some e))
  pub del_lem :
      (fd : ℕ) (old : Interest) (k : Kernel)
      → k fd ≡ some old
      → epoll_ctl (ctl_del fd) k ≡ some (update k fd none)

abbrev and_then : Option Kernel → (Kernel → Option Kernel) → Option Kernel
and_then none f = none
and_then (some k) f = f k

-- What the state of a channel says of the kernel.
abbrev registered : ChannelState → Interest → Option Interest
registered new e = none
registered added e = some e
registered deleted e = none

abbrev pub IsSynced : Channel → Kernel → Type 0
IsSynced c k = k c.fd ≡ registered c.state c.events

update_same : (k : Kernel) (fd : ℕ) (v : Option Interest) → update k fd v fd ≡ v
update_same k fd v = ground arith

update_other : (k : Kernel) (fd : ℕ) (v : Option Interest) (j : ℕ) → j ≢ fd → update k fd v j ≡ k j
update_other k fd v j h = ground arith

fd-update_by_state :
    (st : ChannelState) (ptr : ℕ) (c : Channel) (p : Poller)
    → (update_by_state st ptr c p).1.fd ≡ c.fd
unfolding is_none_event
fd-update_by_state new ptr c p = refl
fd-update_by_state added ptr c p = ground arith
fd-update_by_state deleted ptr c p = refl

-- All changes of a channel, one after the other, with the calls of each.
abbrev pub changes : List Change → ℕ → Channel → Poller → List Ctl × Channel × Poller
changes [] ptr c p = ([], c, p)
changes (ch ∷ chs) ptr c p =
    let (calls, c', p') = change ch ptr c p in
    let (calls', c'', p'') = changes chs ptr c' p' in (calls ++ calls', c'', p'')

module _ (kernel : Epoll) where
  pub epoll_ctls : List Ctl → Kernel → Option Kernel
  epoll_ctls [] k = some k
  epoll_ctls (c ∷ cs) k = and_then (kernel.epoll_ctl c k) (epoll_ctls cs)

  abbrev Done : List Ctl × Channel × Poller → Kernel → Kernel → Type 0
  Done out k k' =
      (epoll_ctls out.0 k ≡ some k') × IsSynced out.1 k' × ((j : ℕ) → j ≢ out.1.fd → k' j ≡ k j)

  one_call :
      (c : Ctl) (k k' : Kernel) → kernel.epoll_ctl c k ≡ some k' → epoll_ctls (c ∷ []) k ≡ some k'
  unfolding epoll_ctls
  one_call c k k' e = rw (e, epoll_ctls)

  add-Done :
      (ptr : ℕ) (c : Channel) (p q : Poller) (k : Kernel)
      → k c.fd ≡ none
      → (k' : Kernel) × Done (ctl_add c.fd c.events ∷ [], record c { state = added }, q) k k'
  add-Done ptr c p q k e = (
    update k c.fd (some c.events),
    (
      one_call (ctl_add c.fd c.events) k _ (kernel.add_lem c.fd c.events k e),
      update_same k c.fd (some c.events),
      update_other k c.fd (some c.events),
    ),
  )

  update_by_state-Done :
      (st : ChannelState) (ptr : ℕ) (c : Channel) (old : Interest) (p : Poller) (k : Kernel)
      → c.state ≡ st
      → k c.fd ≡ registered st old
      → (k' : Kernel) × Done (update_by_state st ptr c p) k k'
  update_by_state-Done new ptr c old p k st e =
      add-Done ptr c p (record p { channels = insert c.fd ptr p.channels }) k e
  update_by_state-Done deleted ptr c old p k st e = add-Done ptr c p p k e
  update_by_state-Done added ptr c old p k st e = elim (Bool-cases (is_none_event c.events)) [
    | inl t ↦ rw t (
      update k c.fd none,
      (
        one_call (ctl_del c.fd) k _ (kernel.del_lem c.fd old k e),
        update_same k c.fd none,
        update_other k c.fd none,
      ),
    )
    | inr t ↦ rw t (
      update k c.fd (some c.events),
      (
        one_call (ctl_mod c.fd c.events) k _ (kernel.mod_lem c.fd c.events old k e),
        rw st (update_same k c.fd (some c.events)),
        update_other k c.fd (some c.events),
      ),
    )
  ]

  -- Every change of a channel whose state agrees with the kernel is a call that the kernel accepts.
  -- Afterwards the state agrees again, and no other descriptor is touched.
  pub change-IsSynced :
      (ch : Change) (ptr : ℕ) (c : Channel) (p : Poller) (k : Kernel)
      → IsSynced c k
      → let (calls, c', _) = change ch ptr c p in
        (k' : Kernel) × (epoll_ctls calls k ≡ some k')
        × IsSynced c' k'
        × ((j : ℕ) → j ≢ c'.fd → k' j ≡ k j)
        × (c'.fd ≡ c.fd)
  unfolding change
  change-IsSynced ch ptr c p k s =
      let c' = record c { events = set_events ch c.events } in
      let d = update_by_state-Done c.state ptr c' c.events p k refl s in
      (d.0, d.1.0, d.1.1, d.1.2, fd-update_by_state c.state ptr c' p)

  epoll_ctls-append :
      (xs ys : List Ctl) (k : Kernel)
      → epoll_ctls (xs ++ ys) k ≡ and_then (epoll_ctls xs k) (epoll_ctls ys)
  unfolding epoll_ctls
  epoll_ctls-append [] ys k = refl
  epoll_ctls-append (x ∷ xs) ys k = go (kernel.epoll_ctl x k) (epoll_ctls-append xs ys)
    where
      go :
          (o : Option Kernel)
          → ((k' : Kernel) → epoll_ctls (xs ++ ys) k' ≡ and_then (epoll_ctls xs k') (epoll_ctls ys))
          → and_then o (epoll_ctls (xs ++ ys))
            ≡ and_then (and_then o (epoll_ctls xs)) (epoll_ctls ys)
      go none h = refl
      go (some k') h = h k'

  run_on :
      (xs ys : List Ctl) (k k' k'' : Kernel)
      → epoll_ctls xs k ≡ some k'
      → epoll_ctls ys k' ≡ some k''
      → epoll_ctls (xs ++ ys) k ≡ some k''
  run_on xs ys k k' k'' e e' =
      epoll_ctls-append xs ys k ∙ ap (λ o. and_then o (epoll_ctls ys)) e ∙ e'

  -- Any changes of a channel whose state agrees with the kernel are accepted, and keep them agreed.
  changes-IsSynced :
      (chs : List Change) (ptr : ℕ) (c : Channel) (p : Poller) (k : Kernel)
      → IsSynced c k
      → let (calls, c', _) = changes chs ptr c p in
        (k' : Kernel) × (epoll_ctls calls k ≡ some k') × IsSynced c' k' × (c'.fd ≡ c.fd)
  unfolding epoll_ctls
  changes-IsSynced [] ptr c p k s = (k, refl, s, refl)
  changes-IsSynced (ch ∷ chs) ptr c p k s =
      let (k1, e, s1, _, fd1) = change-IsSynced ch ptr c p k s in
      let (_, c1, p1) = change ch ptr c p in
      let (k2, e2, s2, fd2) = changes-IsSynced chs ptr c1 p1 k1 s1 in
      (k2, run_on _ _ k k1 k2 e e2, s2, fd2 ∙ fd1)

  remove_last :
      (st : ChannelState) (c : Channel) (p : Poller) (k : Kernel)
      → c.state ≡ st
      → k c.fd ≡ registered st c.events
      → (k' : Kernel) × (epoll_ctls (remove_channel c p).0 k ≡ some k') × (k' c.fd ≡ none)
  unfolding remove_channel epoll_ctls
  remove_last new c p k e s = (k, rw (e, epoll_ctls), s)
  remove_last deleted c p k e s = (k, rw (e, epoll_ctls), s)
  remove_last added c p k e s = (
    update k c.fd none,
    rw e (one_call (ctl_del c.fd) k _ (kernel.del_lem c.fd c.events k s)),
    update_same k c.fd none,
  )

  -- The life of a channel whose state agrees with the kernel: any changes of its interests, then
  -- its removal. The kernel accepts every call, and is left with no registration of the
  -- descriptor.
  pub changes-remove_channel :
      (chs : List Change) (ptr : ℕ) (c : Channel) (p : Poller) (k : Kernel)
      → IsSynced c k
      → let (calls, c', p') = changes chs ptr c p in
        let (last, _, _) = remove_channel c' p' in
        (k' : Kernel) × (epoll_ctls (calls ++ last) k ≡ some k') × (k' c.fd ≡ none)
  changes-remove_channel chs ptr c p k s =
      let (k1, e1, s1, fd1) = changes-IsSynced chs ptr c p k s in
      let (_, c1, p1) = changes chs ptr c p in
      let (k2, e2, n) = remove_last c1.state c1 p1 k1 refl s1 in
      (k2, run_on _ _ k k1 k2 e1 e2, ap k2 (sym fd1) ∙ n)
